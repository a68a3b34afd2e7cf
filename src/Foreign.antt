-- ===== src/Foreign.antt =====
-- What the code takes from libraries that are not part of the repository: signatures and hashing
-- (libsodium, over the byte strings that xdrpp produces), and the bit vector of the `utils`
-- submodule. They are parameters; a property that relies on their behaviour names it.
use hotstuff.Prelude.{ℕ, ◌<◌, ◌≡◌, Bool, Option, List, [], ◌∷◌, All}
use hotstuff.Wire.{max_replicas, HotstuffBlockHeader}

pub record Foreign : Type 0 where
  -- `crypto_sign_verify_detached(sig, hash, key) == 0`
  pub verify_detached : ℕ → ℕ → ℕ → Bool
  -- `crypto_sign_detached` of a hash under a secret key; `none` if it fails
  pub sign_detached : ℕ → ℕ → Option ℕ
  -- `crypto_generichash` of the serialized value
  pub hash_header : HotstuffBlockHeader → ℕ
  pub hash_body : List ℕ → ℕ
  -- `BitVector::add` of each id in turn, then `get`
  pub pack : List ℕ → ℕ
  -- the ids that `pop` yields until the vector is empty; their number is `size`
  pub unpack : ℕ → List ℕ

-- Each id lies above the ones before it.
abbrev pub IsAbove : ℕ → List ℕ → Type 0
IsAbove n [] = Unit {0}
IsAbove n (x ∷ xs) = (n < x) × IsAbove x xs

abbrev pub IsAscending : List ℕ → Type 0
IsAscending [] = Unit {0}
IsAscending (x ∷ xs) = IsAbove x xs

-- The vector yields the ids that were added, lowest first.
abbrev pub PopsInOrder : Foreign → Type 0
PopsInOrder f =
    (ids : List ℕ)
    → IsAscending ids
    → All (λ id. id < max_replicas) ids
    → f.unpack (f.pack ids) ≡ ids
