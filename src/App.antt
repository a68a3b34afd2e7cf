-- ===== src/App.antt =====
-- hotstuff/hotstuff.cc and its header: the application that joins the state machine, the store of
-- blocks, the outbound messages and the machine's bridge.
-- `B` is the bridge of the machine, and `get_next_vm_block`, which the two applications implement
-- with theirs, is an argument. The mutex of proposals and that of the wait are held throughout
-- each call.
pub mod Proposing
pub mod Pacemaker
pub mod Bodies
pub mod Waiting
pub mod Restart
pub mod Reloaded
pub mod Resumed
pub mod Restarted
pub mod Effects
pub mod Decided
pub mod Promised
pub mod Voted
pub mod Kept
use hotstuff.Prelude.{
  ℕ, ◌+◌, ◌-◌, ◌%◌, ◌^◌, Option, none, some, Bool, true, false, List, ltb, ◌==◌, if◌then◌else◌,
  Result, ok, throw, ◌>>=◌, or_throw, missing_block, failed_insert, not,
}
use hotstuff.Foreign.{Foreign}
use hotstuff.Certs.{sign}
use hotstuff.Block.{Ptr, Heap, write, get_hash, mint_block, supports_nonempty_child_proposal}
use hotstuff.Storage.Store.{Store, insert_block, get_block, has_missing, prune_below_height}
use hotstuff.Consensus.{Core, height_of}
use hotstuff.Network.Events.{Event}
use hotstuff.Network.Outbound.{ProtocolManager, send_vote_to, broadcast_proposal}

pub record App (B : Type 0) : Type 0 where
  pub core : Core
  pub block_store : Store
  -- the events that wait for the thread of the state machine
  pub hotstuff_events : List Event
  pub protocol_manager : ProtocolManager
  pub secret_key : ℕ
  pub latest_new_qc : Option ℕ
  pub cancel_wait : Bool
  pub vm_bridge : B

-- `keep_depth`
abbrev pub keep_depth : ℕ
keep_depth = 100

module _ {B : Type 0} where
  unfoldable pub notify_ok_to_prune_blocks : App B → ℕ → App B
  unfolding prune_below_height
  notify_ok_to_prune_blocks a committed_hotstuff_height = record a {
    block_store = prune_below_height a.block_store (
        if ltb keep_depth committed_hotstuff_height
        then committed_hotstuff_height - keep_depth
        else 0);
  }

  unfoldable pub find_block_by_hash : App B → ℕ → Result Ptr
  unfolding get_block
  find_block_by_hash a hash = or_throw (get_block a.block_store hash) missing_block

  unfoldable pub on_new_qc : App B → ℕ → App B
  on_new_qc a hash = record a { latest_new_qc = some hash }

  unfoldable pub cancel_wait_for_new_qc : App B → App B
  cancel_wait_for_new_qc a = record a { cancel_wait = true }

  -- `none` while the call waits.
  unfoldable pub wait_for_new_qc : App B → ℕ → Option (App B × Bool)
  wait_for_new_qc a expected_next_qc =
      let woken : Option (App B × Bool) = elim a.latest_new_qc [
        | none ↦ none
        | some hash ↦ some (record a { latest_new_qc = none }, hash == expected_next_qc)
      ] in
      if a.cancel_wait then some (record a { cancel_wait = false }, false) else woken

  module _ ⦃f : Foreign⦄ where
    unfoldable pub do_vote : App B → Ptr → ℕ → Result (App B)
    unfolding sign get_hash send_vote_to
    do_vote a block proposer = do
      cert ← sign (get_hash (a.core.heap block)) a.secret_key
      (m, events) ←
          send_vote_to a.protocol_manager a.core.heap a.hotstuff_events block cert proposer
      ok (record a { protocol_manager = m; hotstuff_events = events })

    -- A proposal from its body on; the minted block is put at the new address `p`.
    unfoldable pub propose_body : App B → Ptr → List ℕ → Result (App B × ℕ)
    unfolding mint_block insert_block has_missing broadcast_proposal get_hash write
    propose_body a p body = do
      let parent_hash = get_hash (a.core.heap a.core.b_leaf)
      let minted = write a.core.heap p (mint_block body a.core.hqc parent_hash a.core.self_id)
      (heap, store, missing) ← insert_block minted a.block_store p
      let proposed : Result (App B × ℕ) = (do
        (m, events) ← broadcast_proposal a.protocol_manager heap a.hotstuff_events p
        ok (
          record a {
            core = record a.core { heap = heap; b_leaf = p };
            block_store = store;
            protocol_manager = m;
            hotstuff_events = events;
          },
          get_hash (heap p),
        ))
      if has_missing missing then throw failed_insert else proposed

    module _ (get_next_vm_block : B → Bool → ℕ → Result (B × List ℕ)) where
      unfoldable pub do_propose : App B → Ptr → Result (App B × ℕ)
      unfolding supports_nonempty_child_proposal propose_body
      do_propose a p = do
        nonempty ← supports_nonempty_child_proposal a.core.heap a.core.self_id 3 a.core.b_leaf
        (b, body) ←
            get_next_vm_block a.vm_bridge nonempty ((height_of a.core a.core.b_leaf + 1) % 2 ^ 64)
        propose_body (record a { vm_bridge = b }) p body

      unfoldable pub do_empty_propose : App B → Ptr → Result (App B × ℕ)
      unfolding propose_body
      do_empty_propose a p = do
        (b, body) ←
            get_next_vm_block a.vm_bridge false ((height_of a.core a.core.b_leaf + 1) % 2 ^ 64)
        propose_body (record a { vm_bridge = b }) p body
