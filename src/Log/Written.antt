-- ===== src/Log/Written.antt =====
-- What is logged is read back.
use native.Mathlib.Nat.{pow-succ'}
use mathlib.Core.List.{append_assoc, append-nil}
use hotstuff.Prelude.{
  ℕ, zero, suc, ◌+◌, ◌*◌, ◌/◌, ◌%◌, ◌^◌, ◌<◌, ◌≡◌, ◌≢◌, refl, sym, ◌∙◌, ap, Option, some, false,
  List, [], ◌∷◌, ◌++◌, arith, ltb, le→ltb, length, length-append, ok, ◌⊎◌, inl, inr,
}
use hotstuff.Foreign.{Foreign}
use hotstuff.Wire.{QuorumCertificateWire}
use hotstuff.Certs.{QuorumCertificate, serialize, deserialize}
use hotstuff.Block.{Block, get_hash}
use hotstuff.Vm.{VmBlockId, serialize_id}
use hotstuff.Log.{
  Dbi, data_dbi, meta_dbi, Lmdb, Encoding, spell, spelled, split_at, hash_size,
  get_hash_from_lmdb_value, get_hs_hash_and_vm_data, decided_value, open_txn, commit,
  add_decided_block, get_decided_hash_id_pair, set_qc_on_top_block, get_highest_qc,
}

pub length-spell : (width n : ℕ) → length (spell width n) ≡ width
unfolding spell
length-spell zero n = refl
length-spell (suc width) n =
    omega
      (arith, length-append (spell width (n / 256)) (n % 256 ∷ []), length-spell width (n / 256))

pub spelled-spell :
    (width n : ℕ) (rest : List ℕ)
    → n < 256 ^ width
    → spelled 0 (spell width n ++ rest) ≡ spelled n rest
unfolding spell spelled
spelled-spell zero n rest fits = let at : 0 ≡ n = omega (arith, fits) in rw at refl
spelled-spell (suc width) n rest fits =
    let low : n / 256 < 256 ^ width = omega (arith, fits, pow-succ' 256 width) in
    let whole : n / 256 * 256 + n % 256 ≡ n = omega arith in
    ap (spelled 0) (append_assoc (spell width (n / 256)) (n % 256 ∷ []) rest)
    ∙ spelled-spell width (n / 256) (n % 256 ∷ rest) low
    ∙ ap (λ m. spelled m rest) whole

pub split_at-append : (xs ys : List ℕ) → split_at (length xs) (xs ++ ys) ≡ (xs, ys)
unfolding split_at
split_at-append [] ys = refl
split_at-append (x ∷ xs) ys = rw (split_at-append xs ys) refl

spelled-nil : (n : ℕ) → spelled n [] ≡ n
unfolding spelled
spelled-nil n = refl

read_value :
    (bytes : List ℕ)
    → ltb (length bytes) hash_size ≡ false
    → get_hash_from_lmdb_value bytes ≡ ok (spelled 0 (split_at hash_size bytes).0)
unfolding get_hash_from_lmdb_value
read_value bytes enough = rw enough refl

module _ (blk : Block) (bytes : List ℕ) (fits : get_hash blk < 256 ^ hash_size) where
  value-split :
      split_at hash_size (decided_value blk bytes) ≡ (spell hash_size (get_hash blk), bytes)
  unfolding decided_value
  value-split =
      ap (λ n. split_at n (decided_value blk bytes)) (sym (length-spell hash_size (get_hash blk)))
      ∙ split_at-append (spell hash_size (get_hash blk)) bytes

  value-long : ltb (length (decided_value blk bytes)) hash_size ≡ false
  unfolding decided_value
  value-long = le→ltb _ _ (
      omega (
        arith,
        length-append (spell hash_size (get_hash blk)) bytes,
        length-spell hash_size (get_hash blk),
      ))

  pub hash_of_value : get_hash_from_lmdb_value (decided_value blk bytes) ≡ ok (get_hash blk)
  hash_of_value =
      let spelling = spell hash_size (get_hash blk) in
      let back : spelled 0 spelling ≡ get_hash blk =
        ap (spelled 0) (sym (append-nil spelling))
        ∙ spelled-spell hash_size (get_hash blk) [] fits
        ∙ nothing_more in
      read_value (decided_value blk bytes) value-long
      ∙ ap (λ r. ok (spelled 0 r.0)) value-split
      ∙ ap ok back
    where
      nothing_more : spelled (get_hash blk) [] ≡ get_hash blk
      nothing_more = spelled-nil (get_hash blk)

  -- The iterator reads from the logged value of a block of a 32-byte hash that hash and the bytes
  -- of the machine's block id, as an id that is never null.
  pub get_hs_hash_and_vm_data-decided_value :
      (key : List ℕ)
      → get_hs_hash_and_vm_data (key, decided_value blk bytes) ≡ ok (get_hash blk, some bytes)
  unfolding get_hs_hash_and_vm_data
  get_hs_hash_and_vm_data-decided_value key =
      rw hash_of_value (ap (λ r. ok (get_hash blk, some r.1)) value-split)

-- What the log relies on: a transaction shows its writes over what it began with, a commit makes
-- them visible, and the encodings can be told apart and read back.
pub record IsLmdb {E W : Type 0} (l : Lmdb E W) (c : Encoding) : Type 0 where
  pub view : W → Dbi → List ℕ → Option (List ℕ)
  pub begun : (e : E) (d : Dbi) (k : List ℕ) → view (l.wbegin e) d k ≡ l.get e d k
  pub put_same : (w : W) (d : Dbi) (k v : List ℕ) → view (l.put w d k v) d k ≡ some v
  pub put_other :
      (w : W) (d d' : Dbi) (k k' v : List ℕ)
      → (d ≢ d') ⊎ (k ≢ k')
      → view (l.put w d k v) d' k' ≡ view w d' k'
  pub committed :
      (e : E) (w : W) (n : ℕ) (d : Dbi) (k : List ℕ) → l.get (l.commit_wtxn e w n) d k ≡ view w d k
  pub qc_read : (q : QuorumCertificateWire) → c.qc_from_opaque (c.qc_to_opaque q) ≡ ok q
  pub heights_apart :
      (h h' : ℕ) → h < 2 ^ 64 → h' < 2 ^ 64 → c.write_big_endian h ≡ c.write_big_endian h' → h ≡ h'

module _ ⦃f : Foreign⦄ {E W : Type 0} (l : Lmdb E W) (c : Encoding) where
  -- The database after a block has been logged with the certificate of the commit.
  abbrev pub logged : E → Block → VmBlockId → QuorumCertificate → E
  logged e blk id qc =
      commit l c e (set_qc_on_top_block l c (add_decided_block l c (open_txn l c e) blk id) qc)

  -- What the log then holds.
  pub record IsLogged (e : E) (blk : Block) (id : VmBlockId) (qc : QuorumCertificate) : Type 0 where
    pub pair :
        get_decided_hash_id_pair l c (logged e blk id qc) blk.height
        ≡ ok (some (get_hash blk, some (decided_value blk (serialize_id id))))
    pub top : get_highest_qc l c (logged e blk id qc) ≡ ok (deserialize (serialize qc))
    pub others :
        (h : ℕ)
        → h < 2 ^ 64
        → h ≢ blk.height
        → get_decided_hash_id_pair l c (logged e blk id qc) h ≡ get_decided_hash_id_pair l c e h

  data≢meta : meta_dbi ≢ data_dbi
  data≢meta e = cc

  module _ (laws : IsLmdb l c) (e : E) (blk : Block) (id : VmBlockId) (qc : QuorumCertificate) where
    logged-data :
        (k : List ℕ)
        → l.get (logged e blk id qc) data_dbi k
          ≡ laws.view (add_decided_block l c (open_txn l c e) blk id) data_dbi k
    unfolding commit set_qc_on_top_block
    logged-data k = laws.committed _ _ _ data_dbi k ∙ laws.put_other _ _ _ _ _ _ (inl data≢meta)

    -- Over a database whose transactions show their writes and whose commits make them visible,
    -- and encodings that can be read back: after a block of a 32-byte hash and a 64-bit height is
    -- logged with a certificate and the transaction is committed, the certificate is read back as
    -- its wire form gives it, the entries of other heights are as before, and the entry of the
    -- block's height yields its hash, but with the whole logged value in place of the machine's
    -- block id: the bytes of the hash, followed by those of the id.
    pub commit-IsLogged :
        get_hash blk < 256 ^ hash_size → blk.height < 2 ^ 64 → IsLogged e blk id qc
    unfolding get_decided_hash_id_pair get_highest_qc add_decided_block open_txn commit
        set_qc_on_top_block
    commit-IsLogged fits short = record {
      pair =
          let at =
            logged-data (c.write_big_endian blk.height)
            ∙ laws.put_same _ data_dbi (c.write_big_endian blk.height)
                (decided_value blk (serialize_id id)) in
          rw (get_decided_hash_id_pair, at, hash_of_value blk (serialize_id id) fits) refl;
      top =
          let tx = set_qc_on_top_block l c (add_decided_block l c (open_txn l c e) blk id) qc in
          let at =
            laws.committed e tx (l.get_persisted_round_number e + 1) meta_dbi c.qc_key
            ∙ laws.put_same (add_decided_block l c (open_txn l c e) blk id) meta_dbi c.qc_key
                (c.qc_to_opaque (serialize qc)) in
          rw (get_highest_qc, at, laws.qc_read (serialize qc)) refl;
      others = λ h low ne.
          let apart : c.write_big_endian blk.height ≢ c.write_big_endian h =
            λ k. ne (sym (laws.heights_apart blk.height h short low k)) in
          let at =
            logged-data (c.write_big_endian h)
            ∙ laws.put_other _ _ _ _ _ _ (inr apart)
            ∙ laws.begun e data_dbi (c.write_big_endian h) in
          rw (get_decided_hash_id_pair, at) refl;
    }
