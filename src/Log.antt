-- ===== src/Log.antt =====
-- hotstuff/lmdb.cc, its header, and hotstuff/log_access_wrapper.cc: the log of decided blocks.
-- LMDB, the byte order functions of the utils submodule and xdrpp are outside of the repository:
-- the database and the encodings are parameters. A hash is the number that its 32 bytes spell.
pub mod Written
pub mod Sequence
pub mod Cursor
use hotstuff.Prelude.{
  ℕ, zero, suc, ◌+◌, ◌*◌, ◌/◌, ◌%◌, Option, none, some, Bool, List, [], ◌∷◌, ◌++◌, ltb,
  if◌then◌else◌, length, Result, ok, throw, ◌>>=◌, or_throw, short_value, missing_qc, missing_block,
}
use hotstuff.Foreign.{Foreign}
use hotstuff.Wire.{QuorumCertificateWire}
use hotstuff.Certs.{QuorumCertificate, serialize, deserialize}
use hotstuff.Block.{Disk, Block, get_hash}
use hotstuff.Vm.{VmBlockId, serialize_id}

-- The two tables: `get_data_dbi` and `get_metadata_dbi`.
pub data Dbi : Type 0 where
  data_dbi meta_dbi : Dbi

-- The database in states `E`, with write transactions `W`.
pub record Lmdb (E W : Type 0) : Type 0 where
  pub wbegin : E → W
  pub put : W → Dbi → List ℕ → List ℕ → W
  pub commit_wtxn : E → W → ℕ → E
  pub get : E → Dbi → List ℕ → Option (List ℕ)
  pub get_persisted_round_number : E → ℕ
  -- what a forward cursor yields, from `begin` to `end`
  pub entries : E → Dbi → List (List ℕ × List ℕ)

-- `write_unsigned_big_endian` and `read_unsigned_big_endian` of 64 bits, `xdr_to_opaque` and
-- `xdr_from_opaque` of a certificate, and the key `dbval{"qc"}`.
pub record Encoding : Type 0 where
  pub write_big_endian : ℕ → List ℕ
  pub read_big_endian : List ℕ → ℕ
  pub qc_to_opaque : QuorumCertificateWire → List ℕ
  pub qc_from_opaque : List ℕ → Result QuorumCertificateWire
  pub qc_key : List ℕ

-- The bytes of a fixed-size value, first to last, and the number that bytes spell.
unfoldable pub spell : ℕ → ℕ → List ℕ
spell zero n = []
spell (suc width) n = spell width (n / 256) ++ n % 256 ∷ []

unfoldable pub spelled : ℕ → List ℕ → ℕ
spelled n [] = n
spelled n (b ∷ bs) = spelled (n * 256 + b) bs

-- The first bytes, and the ones behind them.
unfoldable pub split_at : ℕ → List ℕ → List ℕ × List ℕ
split_at zero bs = ([], bs)
split_at (suc n) [] = ([], [])
split_at (suc n) (b ∷ bs) = let (first, rest) = split_at n bs in (b ∷ first, rest)

-- `hash.size()`
abbrev pub hash_size : ℕ
hash_size = 32

unfoldable pub get_hash_from_lmdb_value : List ℕ → Result ℕ
unfolding spelled split_at
get_hash_from_lmdb_value value_bytes =
    if ltb (length value_bytes) hash_size
    then throw short_value
    else ok (spelled 0 (split_at hash_size value_bytes).0)

-- The iterator's `operator*` and `get_hs_hash_and_vm_data`, at a key and its value.
unfoldable pub read_entry : Encoding → List ℕ × List ℕ → Result (ℕ × ℕ)
unfolding get_hash_from_lmdb_value
read_entry c (k, v) = do hash ← get_hash_from_lmdb_value v; ok (c.read_big_endian k, hash)

unfoldable pub get_hs_hash_and_vm_data : List ℕ × List ℕ → Result (ℕ × VmBlockId)
unfolding get_hash_from_lmdb_value split_at
get_hs_hash_and_vm_data (k, v) = do
  hash ← get_hash_from_lmdb_value v
  ok (hash, some (split_at hash_size v).1)

-- The value under which a decided block is logged.
unfoldable pub decided_value : Block → List ℕ → List ℕ
unfolding spell get_hash
decided_value blk serialized_vm_blk_id = spell hash_size (get_hash blk) ++ serialized_vm_blk_id

unfoldable pub load_block_unparsed : Disk → ℕ → Option (List ℕ)
load_block_unparsed disk hash = elim (disk hash) [ none ↦ none | some wire ↦ some wire.body ]

-- `make` is the constructor of `vm_block_type`.
unfoldable pub load_vm_block : {V : Type 0} → (List ℕ → Result V) → Disk → ℕ → Result V
load_vm_block make disk hash = do unparsed ← or_throw (disk hash) missing_block; make unparsed.body

module _ {E W : Type 0} (l : Lmdb E W) (c : Encoding) where
  unfoldable pub open_txn : E → W
  open_txn e = l.wbegin e

  unfoldable pub commit : E → W → E
  commit e tx = l.commit_wtxn e tx (l.get_persisted_round_number e + 1)

  unfoldable pub add_decided_block : W → Block → VmBlockId → W
  unfolding decided_value serialize_id
  add_decided_block tx blk id =
      l.put tx data_dbi (c.write_big_endian blk.height) (decided_value blk (serialize_id id))

  unfoldable pub get_decided_hash_id_pair : E → ℕ → Result (Option (ℕ × VmBlockId))
  unfolding get_hash_from_lmdb_value
  get_decided_hash_id_pair e height = elim (l.get e data_dbi (c.write_big_endian height)) [
    | none ↦ ok none
    | some value_bytes ↦ (do
      hash ← get_hash_from_lmdb_value value_bytes
      ok (some (hash, some value_bytes)))
  ]

  module _ ⦃f : Foreign⦄ where
    unfoldable pub set_qc_on_top_block : W → QuorumCertificate → W
    unfolding serialize
    set_qc_on_top_block tx qc = l.put tx meta_dbi c.qc_key (c.qc_to_opaque (serialize qc))

    unfoldable pub get_highest_qc : E → Result QuorumCertificate
    unfolding deserialize
    get_highest_qc e = do
      value ← or_throw (l.get e meta_dbi c.qc_key) missing_qc
      out ← c.qc_from_opaque value
      ok (deserialize out)
