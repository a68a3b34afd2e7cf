-- ===== src/Block.antt =====
-- hotstuff/block.cc and its header: blocks, reached through shared pointers.
-- A `block_ptr_t` that is not null is the address of a block on a heap, which never frees one; a
-- null pointer is `none`. The constructors return a block, which the caller puts at a new address.
-- The two recursions along parent pointers take as fuel a bound on their rounds.
pub mod Tree
pub mod Disk
use hotstuff.Prelude.{
  ℕ, zero, suc, ◌+◌, ◌-◌, ◌%◌, ◌^◌, Bool, true, false, not, Option, none, some, List, [], ltb, ◌==◌,
  if◌then◌else◌, length, Result, ok, throw, ◌>>=◌, or_throw, null_pointer, out_of_fuel,
  flushed_body, missing_block,
}
use hotstuff.Foreign.{Foreign}
use hotstuff.Wire.{
  null_hash, unknown_replica_id, QuorumCertificateWire, HotstuffBlockHeader, HotstuffBlockWire,
}
use hotstuff.Config.{ReplicaConfig}
use hotstuff.Certs.{QuorumCertificate, empty_qc, deserialize, verify}

abbrev pub Ptr : Type 0
Ptr = ℕ

pub record Block : Type 0 where
  pub wire : HotstuffBlockWire
  pub parsed_qc : Option QuorumCertificate
  pub proposer : ℕ
  pub height : ℕ
  pub parent : Option Ptr
  pub justify : Option Ptr
  pub self_qc : QuorumCertificate
  pub decided : Bool
  pub written : Bool
  pub hash_checked : Bool
  pub hash_valid : Bool
  pub flushed : Bool

abbrev pub Heap : Type 0
Heap = Ptr → Block

-- Assignment through a pointer.
unfoldable pub write : Heap → Ptr → Block → Heap
write h p b q = if p == q then b else h q

-- The files `<hash>.block`, by the header hash that names them.
abbrev pub Disk : Type 0
Disk = ℕ → Option HotstuffBlockWire

unfoldable pub get_hash : Block → ℕ
get_hash b = b.self_qc.obj_hash

unfoldable pub get_parent_hash : Block → ℕ
get_parent_hash b = b.wire.header.parent_hash

-- `*parsed_qc`, which the genesis block lacks.
unfoldable pub get_justify_qc : Block → Result QuorumCertificate
get_justify_qc b = or_throw b.parsed_qc null_pointer

unfoldable pub get_justify_hash : Block → Result ℕ
unfolding get_justify_qc
get_justify_hash b = do qc ← get_justify_qc b; ok qc.obj_hash

unfoldable pub decide : Block → Block
decide b = record b { decided = true }

-- `written_to_disk.test_and_set()`.
unfoldable pub mark_written : Block → Block
mark_written b = record b { written = true }

-- Heights are 64 bits wide.
unfoldable pub set_parent : Heap → Ptr → Ptr → Heap
unfolding write
set_parent h p parent =
    write h p (record (h p) { parent = some parent; height = ((h parent).height + 1) % 2 ^ 64 })

unfoldable pub set_justify : Heap → Ptr → Ptr → Heap
unfolding write
set_justify h p justify = write h p (record (h p) { justify = some justify })

unfoldable pub has_body : Block → Result Bool
has_body b = if b.flushed then throw flushed_body else ok (ltb 0 (length b.wire.body))

unfoldable pub flush_from_memory : Block → Block
flush_from_memory b =
    if b.flushed then b else record b { flushed = true; wire = record (b.wire) { body = [] } }

-- Whether the `depth` blocks from `p` down are self-proposed, each with a certificate on its parent.
unfoldable pub supports_nonempty_child_proposal : Heap → ℕ → (depth : ℕ) → Ptr → Result Bool
supports_nonempty_child_proposal h self_id zero p = ok true
supports_nonempty_child_proposal h self_id (suc depth) p =
    if not (self_id == (h p).proposer) then ok false else elim (h p).justify [
      | none ↦ ok false
      | some _ ↦ elim (h p).parent [
        | none ↦ ok false
        | some parent ↦ do
          justify_hash ← get_justify_hash (h p)
          let rest = supports_nonempty_child_proposal h self_id depth parent
          if justify_hash == get_parent_hash (h p) then rest else ok false
      ]
    ]

abbrev genesis_wire : HotstuffBlockWire
genesis_wire = record {
  header = record {
    parent_hash = 0;
    qc = record { justify = 0; bmp = 0; sigs = [] };
    body_hash = 0;
  };
  body = [];
}

unfoldable pub genesis_block : Block
unfolding empty_qc
genesis_block = record {
  wire = genesis_wire;
  parsed_qc = none;
  proposer = unknown_replica_id;
  height = 0;
  parent = none;
  justify = none;
  self_qc = empty_qc null_hash;
  decided = true;
  written = true;
  hash_checked = true;
  hash_valid = true;
  flushed = true;
}

module _ ⦃f : Foreign⦄ where
  unfoldable pub receive_block : HotstuffBlockWire → ℕ → Block
  unfolding deserialize empty_qc
  receive_block wire source = record {
    wire = wire;
    parsed_qc = some (deserialize wire.header.qc);
    proposer = source;
    height = 0;
    parent = none;
    justify = none;
    self_qc = empty_qc (f.hash_header wire.header);
    decided = false;
    written = false;
    hash_checked = false;
    hash_valid = false;
    flushed = false;
  }

  unfoldable pub mint_block : List ℕ → QuorumCertificateWire → ℕ → ℕ → Block
  unfolding receive_block
  mint_block body qc_wire parent_hash self_id =
      let header : HotstuffBlockHeader = record {
        parent_hash = parent_hash;
        qc = qc_wire;
        body_hash = f.hash_body body;
      } in
      receive_block (record { header = header; body = body }) self_id

  -- `load_block` reads the file of a hash; the block made of it counts as decided.
  unfoldable pub load_decided_block : Disk → ℕ → Result Block
  unfolding receive_block
  load_decided_block disk hash = do
    wire ← or_throw (disk hash) missing_block
    ok (record (receive_block wire unknown_replica_id) {
      decided = true;
      written = true;
      hash_checked = true;
      hash_valid = true;
    })

  -- The verdict is cached in the block.
  unfoldable pub validate_hash : Block → Block × Bool
  validate_hash b =
      if b.hash_checked
      then (b, b.hash_valid)
      else let valid = f.hash_body b.wire.body == b.wire.header.body_hash in
        (record b { hash_checked = true; hash_valid = valid }, valid)

  unfoldable pub validate_hotstuff : ReplicaConfig → Block → Result (Block × Bool)
  unfolding validate_hash
  validate_hotstuff config b =
      let (b', valid) = validate_hash b in
      if valid
      then (do qc ← get_justify_qc b'; verdict ← verify config qc; ok (b', verdict))
      else ok (b', false)

  -- `save_block` names the file by the hash of the header.
  unfoldable pub save_block : Disk → HotstuffBlockWire → Disk
  save_block disk wire name = if f.hash_header wire.header == name then some wire else disk name

  -- Writes a block and its ancestors up to the first that is marked as written.
  unfoldable pub write_to_disk : ℕ → Heap → Disk → Ptr → Result (Heap × Disk)
  unfolding write mark_written save_block
  write_to_disk zero h disk p = throw out_of_fuel
  write_to_disk (suc fuel) h disk p =
      if (h p).written
      then ok (h, disk)
      else let h' = write h p (mark_written (h p)) in
        let disk' = save_block disk (h p).wire in
        elim (h p).parent [
          | none ↦ ok (h', disk')
          | some parent ↦ write_to_disk fuel h' disk' parent
        ]
