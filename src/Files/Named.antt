-- ===== src/Files/Named.antt =====
-- Blocks with different hashes have files with different names.
use hotstuff.Prelude.{
  ℕ, zero, suc, ◌/◌, ◌%◌, ◌^◌, ◌<◌, ◌≡◌, refl, sym, ◌∙◌, ap, List, [], ◌∷◌, ◌++◌, All, arith,
}
use mathlib.Core.List.{append_cancel_left, append_cancel_right}
use hotstuff.Log.{spell, spelled, hash_size}
use hotstuff.Log.Written.{spelled-spell}
use hotstuff.Files.{
  ReplicaAddress, hex_digit, hex_bytes, array_to_str, block_filename, hotstuff_block_data_dir,
  block_suffix,
}

abbrev AreBytes : List ℕ → Type 0
AreBytes = All (λ b. b < 256)

snoc-AreBytes : (bs : List ℕ) (b : ℕ) → AreBytes bs → b < 256 → AreBytes (bs ++ b ∷ [])
snoc-AreBytes [] b all low = (low, _)
snoc-AreBytes (x ∷ bs) b (first, all) low = (first, snoc-AreBytes bs b all low)

spell-AreBytes : (width n : ℕ) → AreBytes (spell width n)
unfolding spell
spell-AreBytes zero n = _
spell-AreBytes (suc width) n =
    snoc-AreBytes (spell width (n / 256)) (n % 256) (spell-AreBytes width (n / 256)) (omega arith)

hex_digit-injective : (a b : ℕ) → a < 16 → b < 16 → hex_digit a ≡ hex_digit b → a ≡ b
unfolding hex_digit
hex_digit-injective a b low low' e = ground arith

hex_bytes-injective :
    (bs cs : List ℕ) → AreBytes bs → AreBytes cs → hex_bytes bs ≡ hex_bytes cs → bs ≡ cs
unfolding hex_bytes
hex_bytes-injective [] [] b c e = refl
hex_bytes-injective [] (y ∷ cs) b c e = cc
hex_bytes-injective (x ∷ bs) [] b c e = cc
hex_bytes-injective (x ∷ bs) (y ∷ cs) (low, b) (low', c) e =
    let high : x / 16 ≡ y / 16 =
      hex_digit-injective _ _ (omega (arith, low)) (omega (arith, low')) cc in
    let units : x % 16 ≡ y % 16 = hex_digit-injective _ _ (omega arith) (omega arith) cc in
    let same : x ≡ y = omega (arith, high, units) in
    let rest : bs ≡ cs = hex_bytes-injective bs cs b c cc in rw (same, rest) refl

spell-injective :
    (width a b : ℕ) → a < 256 ^ width → b < 256 ^ width → spell width a ≡ spell width b → a ≡ b
unfolding spelled
spell-injective width a b low low' e =
    sym (spelled-spell width a [] low)
    ∙ ap (λ bs. spelled 0 (bs ++ [])) e
    ∙ spelled-spell width b [] low'

-- Two hashes of 32 bytes name the same file only if they are equal.
pub block_filename-injective :
    (info : ReplicaAddress) (a b : ℕ)
    → a < 256 ^ hash_size
    → b < 256 ^ hash_size
    → block_filename info a ≡ block_filename info b
    → a ≡ b
unfolding block_filename array_to_str
block_filename-injective info a b low low' e =
    let folder = hotstuff_block_data_dir info in
    let front =
      append_cancel_right (folder ++ array_to_str a) (folder ++ array_to_str b) block_suffix e in
    let digits = append_cancel_left folder (array_to_str a) (array_to_str b) front in
    let bytes =
      hex_bytes-injective (spell hash_size a) (spell hash_size b) (spell-AreBytes hash_size a)
        (spell-AreBytes hash_size b) digits in
    spell-injective hash_size a b low low' bytes
