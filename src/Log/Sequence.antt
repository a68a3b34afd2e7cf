-- ===== src/Log/Sequence.antt =====
-- Several blocks that are logged in one transaction.
use hotstuff.Prelude.{
  ℕ, ◌+◌, ◌^◌, ◌<◌, ◌≤◌, ◌≡◌, ◌≢◌, refl, ◌∙◌, inl, inr, false, some, List, [], ◌∷◌, All, has, map,
  arith, ◌==◌, ==_refl, Bool-cases, ok,
}
use hotstuff.Foreign.{Foreign, IsAscending, IsAbove}
use hotstuff.Wire.{QuorumCertificateWire}
use hotstuff.Certs.{deserialize}
use hotstuff.Block.{Block, get_hash}
use hotstuff.Vm.{VmBlockId, serialize_id}
use hotstuff.Log.{
  data_dbi, meta_dbi, Lmdb, Encoding, hash_size, decided_value, open_txn, commit, add_decided_block,
  get_decided_hash_id_pair, get_highest_qc,
}
use hotstuff.Log.Written.{IsLmdb, hash_of_value}

-- The hash has 32 bytes and the height 64 bits.
abbrev pub Fits : Block → Type 0
Fits b = (get_hash b < 256 ^ hash_size) × (b.height < 2 ^ 64)

not_above : (n m : ℕ) (xs : List ℕ) → n ≤ m → IsAbove m xs → has n xs ≡ false
not_above n m [] le above = refl
not_above n m (x ∷ xs) le (first, above) =
    let rest = not_above n x xs (omega (arith, le, first)) above in
    let apart : (x == n) ≡ false = ground arith in rw (apart, rest) refl

IsAscending-tail : (x : ℕ) (xs : List ℕ) → IsAbove x xs → IsAscending xs
IsAscending-tail x [] above = _
IsAscending-tail x (y ∷ ys) (first, above) = above

has_none : (x a : ℕ) (xs : List ℕ) → has a (x ∷ xs) ≡ false → (x ≢ a) × (has a xs ≡ false)
has_none x a xs e = elim (Bool-cases (x == a)) [
  | inl same ↦ cc (rw same at e)
  | inr other ↦ (λ at. cc (rw at at other, ==_refl a), rw other at e)
]

All-map :
    {P Q R : Block → Type 0} (bs : List Block)
    → All P bs
    → All Q bs
    → ((b : Block) → P b → Q b → R b)
    → All R bs
All-map [] p q step = _
All-map (b ∷ bs) (p, ps) (q, qs) step = (step b p q, All-map bs ps qs step)

module _ {E W : Type 0} (l : Lmdb E W) (c : Encoding) (laws : IsLmdb l c) where
  unfoldable pub write_all : (Block → VmBlockId) → W → List Block → W
  unfolding add_decided_block
  write_all id tx [] = tx
  write_all id tx (b ∷ bs) = write_all id (add_decided_block l c tx b (id b)) bs

  abbrev pub heights : List Block → List ℕ
  heights bs = map (λ (b : Block). b.height) bs

  module _ (id : Block → VmBlockId) where
    abbrev value_of : Block → List ℕ
    value_of b = decided_value b (serialize_id (id b))

    write_all-other :
        (tx : W) (bs : List Block) (k : ℕ)
        → All Fits bs
        → k < 2 ^ 64
        → has k (heights bs) ≡ false
        → laws.view (write_all id tx bs) data_dbi (c.write_big_endian k)
          ≡ laws.view tx data_dbi (c.write_big_endian k)
    unfolding write_all add_decided_block
    write_all-other tx [] k fits low new = refl
    write_all-other tx (b ∷ bs) k ((hash, short), fits) low new =
        let (ne, rest) = has_none b.height k (heights bs) new in
        let apart : c.write_big_endian b.height ≢ c.write_big_endian k =
          λ e. ne (laws.heights_apart b.height k short low e) in
        write_all-other (add_decided_block l c tx b (id b)) bs k fits low rest
        ∙ laws.put_other tx data_dbi data_dbi (c.write_big_endian b.height) (c.write_big_endian k)
            (value_of b) (inr apart)

    write_all-same :
        (tx : W) (bs : List Block)
        → All Fits bs
        → IsAscending (heights bs)
        → All
            (λ (b : Block).
              laws.view (write_all id tx bs) data_dbi (c.write_big_endian b.height)
              ≡ some (value_of b))
            bs
    unfolding write_all add_decided_block
    write_all-same tx [] fits rising = _
    write_all-same tx (b ∷ bs) ((hash, short), fits) rising = (
      write_all-other (add_decided_block l c tx b (id b)) bs b.height fits short
            (not_above b.height b.height (heights bs) (omega arith) rising)
          ∙ laws.put_same tx data_dbi (c.write_big_endian b.height) (value_of b),
      write_all-same (add_decided_block l c tx b (id b)) bs fits
          (IsAscending-tail b.height (heights bs) rising),
    )

    write_all-meta :
        (tx : W) (bs : List Block) (k : List ℕ)
        → laws.view (write_all id tx bs) meta_dbi k ≡ laws.view tx meta_dbi k
    unfolding write_all add_decided_block
    write_all-meta tx [] k = refl
    write_all-meta tx (b ∷ bs) k =
        write_all-meta (add_decided_block l c tx b (id b)) bs k
        ∙ laws.put_other tx data_dbi meta_dbi _ k (value_of b) (inl λ e. cc)

    module _ ⦃f : Foreign⦄ (e : E) (bs : List Block) (q : QuorumCertificateWire) where
      -- The database after the blocks and the certificate are logged in one transaction.
      abbrev pub logged_all : E
      logged_all =
          commit l c e
            (l.put (write_all id (open_txn l c e) bs) meta_dbi c.qc_key (c.qc_to_opaque q))

      -- What the log then holds.
      pub record AreLogged : Type 0 where
        pub pairs :
            All
              (λ (b : Block).
                get_decided_hash_id_pair l c logged_all b.height
                ≡ ok (some (get_hash b, some (decided_value b (serialize_id (id b))))))
              bs
        pub top : get_highest_qc l c logged_all ≡ ok (deserialize q)
        pub others :
            (k : ℕ)
            → k < 2 ^ 64
            → has k (heights bs) ≡ false
            → get_decided_hash_id_pair l c logged_all k ≡ get_decided_hash_id_pair l c e k

      data_after :
          (k : List ℕ)
          → l.get logged_all data_dbi k ≡ laws.view (write_all id (open_txn l c e) bs) data_dbi k
      unfolding commit
      data_after k =
          laws.committed _ _ _ data_dbi k ∙ laws.put_other _ meta_dbi data_dbi _ k _ (inl λ at. cc)

      pair_after :
          (b : Block)
          → get_hash b < 256 ^ hash_size
          → laws.view (write_all id (open_txn l c e) bs) data_dbi (c.write_big_endian b.height)
            ≡ some (value_of b)
          → get_decided_hash_id_pair l c logged_all b.height
            ≡ ok (some (get_hash b, some (value_of b)))
      unfolding get_decided_hash_id_pair
      pair_after b hash at =
          rw
            (
              get_decided_hash_id_pair,
              data_after (c.write_big_endian b.height) ∙ at,
              hash_of_value b (serialize_id (id b)) hash,
            )
            refl

      pub write_all-AreLogged : All Fits bs → IsAscending (heights bs) → AreLogged
      unfolding get_decided_hash_id_pair get_highest_qc open_txn commit
      write_all-AreLogged fits rising = record {
        pairs =
            All-map bs fits (write_all-same (open_txn l c e) bs fits rising)
              (λ b (hash, short) at. pair_after b hash at);
        top =
            let at =
              laws.committed e _ (l.get_persisted_round_number e + 1) meta_dbi c.qc_key
              ∙ laws.put_same (write_all id (open_txn l c e) bs) meta_dbi c.qc_key
                  (c.qc_to_opaque q) in
            rw (get_highest_qc, at, laws.qc_read q) refl;
        others = λ k low new.
            let at =
              data_after (c.write_big_endian k)
              ∙ write_all-other (open_txn l c e) bs k fits low new
              ∙ laws.begun e data_dbi (c.write_big_endian k) in
            rw (get_decided_hash_id_pair, at) refl;
      }
