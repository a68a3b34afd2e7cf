-- ===== src/App/Restart.antt =====
-- `reload_decided_blocks` of hotstuff/hotstuff.cc: a replica that restarts from its log.
-- The blocks of the log go to the addresses from `p` on.
use hotstuff.Prelude.{ℕ, ◌+◌, List, [], ◌∷◌, if◌then◌else◌, Result, ok, throw, ◌>>=◌, failed_insert}
use hotstuff.Foreign.{Foreign}
use hotstuff.Block.{Ptr, write, load_decided_block}
use hotstuff.Storage.Store.{insert_block, has_missing}
use hotstuff.Consensus.{reload_state_from_index}
use hotstuff.Log.{Lmdb, Encoding, data_dbi, read_entry, get_highest_qc}
use hotstuff.App.{App, find_block_by_hash}

module _ {B : Type 0} ⦃f : Foreign⦄ (c : Encoding) where
  -- The loop over the cursor, with the height of the last block loaded.
  unfoldable pub reload_blocks : App B → Ptr → List (List ℕ × List ℕ) → ℕ → Result (App B × ℕ)
  unfolding read_entry load_decided_block write insert_block has_missing
  reload_blocks a p [] highest_decision = ok (a, highest_decision)
  reload_blocks a p (entry ∷ entries) highest_decision = do
    (key, hash) ← read_entry c entry
    blk ← load_decided_block a.core.disk hash
    (heap, store, missing) ← insert_block (write a.core.heap p blk) a.block_store p
    let inserted : App B = record a { core = record a.core { heap = heap }; block_store = store }
    let rest = reload_blocks inserted (p + 1) entries (heap p).height
    if has_missing missing then throw failed_insert else rest

  unfoldable pub reload_decided_blocks :
      {E W : Type 0} → Lmdb E W → App B → Ptr → E → Result (App B × ℕ)
  unfolding reload_blocks get_highest_qc find_block_by_hash reload_state_from_index
  reload_decided_blocks l a p e = do
    (a', highest_decision) ← reload_blocks a p (l.entries e data_dbi) 0
    qc ← get_highest_qc l c e
    highest ← find_block_by_hash a' qc.obj_hash
    ok (record a' { core = reload_state_from_index a'.core qc highest }, highest_decision)
