-- ===== src/Consensus.antt =====
-- hotstuff/consensus.cc and its header: the protocol state machine of one replica.
-- The virtual functions that the application implements return nothing and do not write this
-- state, so a call of one is an entry of `calls`, as are those of the transaction on the index of
-- decided blocks. An exception ends the replica's event thread: its state is not used again.
pub mod Calls
pub mod Walk
pub mod Advance
pub mod Commit
pub mod Update
pub mod Settled
pub mod Origin
pub mod Rule
pub mod Ballots
pub mod Quorum
pub mod Run
pub mod Reach
pub mod Votes
pub mod Once
use hotstuff.Prelude.{
  ℕ, zero, suc, ◌+◌, ◌%◌, ◌^◌, Bool, true, false, Option, none, some, List, [], ◌∷◌, ◌++◌, ltb,
  ◌==◌, ◌&&◌, not, if◌then◌else◌, Result, ok, throw, ◌>>=◌, or_throw, null_pointer, out_of_fuel,
  safety_breached,
}
use mathlib.Core.List.{reverse}
use hotstuff.Foreign.{Foreign}
use hotstuff.Wire.{PartialCertificate, QuorumCertificateWire}
use hotstuff.Config.{ReplicaConfig}
use hotstuff.Certs.{QuorumCertificate, serialize, has_quorum, add_partial_certificate}
use hotstuff.Block.{
  Ptr, Heap, Disk, Block, write, decide, write_to_disk, get_justify_qc, get_hash, genesis_block,
}
use Calls.{
  Call, do_vote, on_new_qc, apply_block, notify_vm_of_commitment, notify_vm_of_qc_on_nonself_block,
  notify_ok_to_prune_blocks, open_txn, set_qc_on_top_block, commit,
}

pub record Core : Type 0 where
  pub heap : Heap
  pub disk : Disk
  pub genesis : Ptr
  pub hqc_block : Ptr
  pub hqc : QuorumCertificateWire
  pub b_lock : Ptr
  pub b_exec : Ptr
  pub vheight : ℕ
  pub self_id : ℕ
  pub config : ReplicaConfig
  pub b_leaf : Ptr
  -- oldest first
  pub calls : List Call

abbrev pub height_of : Core → Ptr → ℕ
height_of s p = (s.heap p).height

unfoldable pub call : Core → Call → Core
call s c = record s { calls = s.calls ++ c ∷ [] }

-- The loop that gathers the blocks to commit, from `b` down to the height of `b_exec`; with the
-- block at which it stops.
unfoldable pub collect : ℕ → Heap → Ptr → ℕ → Result (List Ptr × Ptr)
collect zero h b exec_height = throw out_of_fuel
collect (suc fuel) h b exec_height =
    let more : Result (List Ptr × Ptr) = elim (h b).parent [
      | none ↦ throw null_pointer
      | some parent ↦ do (queue, last) ← collect fuel h parent exec_height; ok (b ∷ queue, last)
    ] in
    if ltb exec_height (h b).height then more else ok ([], b)

-- One round of the loop that commits.
unfoldable pub commit_block : Core → Ptr → Core
unfolding decide write call
commit_block s b =
    let s' = record s { heap = write s.heap b (decide (s.heap b)) } in
    call (call s' (apply_block b)) (notify_vm_of_commitment b)

unfoldable pub commit_all : Core → List Ptr → Core
unfolding commit_block
commit_all s [] = s
commit_all s (b ∷ bs) = commit_all (commit_block s b) bs

-- The loop of the voting rule: the first ancestor of `b` that is no higher than the locked block.
unfoldable pub descend : ℕ → Heap → Ptr → ℕ → Result Ptr
descend zero h b lock_height = throw out_of_fuel
descend (suc fuel) h b lock_height =
    let more : Result Ptr = elim (h b).parent [
      | none ↦ throw null_pointer
      | some parent ↦ descend fuel h parent lock_height
    ] in
    if ltb lock_height (h b).height then more else ok b

-- A chain of three blocks, each the parent of the next.
unfoldable pub is_parent : Heap → Ptr → Ptr → Bool
is_parent h q p = elim (h p).parent [ none ↦ false | some parent ↦ parent == q ]

module _ ⦃f : Foreign⦄ where
  -- The constructor, with the genesis block at address 0.
  unfoldable pub init : ReplicaConfig → ℕ → Core
  unfolding genesis_block serialize
  init config self_id = record {
    heap = λ _. genesis_block;
    disk = λ _. none;
    genesis = 0;
    hqc_block = 0;
    hqc = serialize genesis_block.self_qc;
    b_lock = 0;
    b_exec = 0;
    vheight = 0;
    self_id = self_id;
    config = config;
    b_leaf = 0;
    calls = [];
  }

  unfoldable pub update_hqc : Core → Ptr → QuorumCertificate → Core
  unfolding call serialize
  update_hqc s qc_block qc =
      let s' = record s { hqc_block = qc_block; hqc = serialize qc; b_leaf = qc_block } in
      if ltb (height_of s s.hqc_block) (height_of s qc_block)
      then if (s.heap qc_block).proposer == s.self_id
        then s'
        else call s' (notify_vm_of_qc_on_nonself_block qc_block)
      else s

  -- The commit proper, once the queue is known to start above `b_exec`.
  unfoldable pub apply_queue : Core → (blk : Ptr) → List Ptr → QuorumCertificate → Core
  unfolding commit_all call serialize
  apply_queue s blk queue top_qc =
      let s1 = record (commit_all (call s open_txn) (reverse queue)) { b_exec = blk } in
      let s2 = call (call s1 (set_qc_on_top_block (serialize top_qc))) commit in
      call s2 (notify_ok_to_prune_blocks (height_of s2 blk))

  unfoldable pub finish_commit : Core → (blk blk1 : Ptr) → List Ptr → Result Core
  unfolding apply_queue get_justify_qc
  finish_commit s blk blk1 queue = do
    top_qc ← get_justify_qc (s.heap blk1)
    ok (apply_queue s blk queue top_qc)

  -- `update` from the commit rule on: `blk`, `blk1` and `blk2` end at the chain of certificates.
  unfoldable pub commit_chain : Core → (blk blk1 blk2 : Ptr) → Result Core
  unfolding collect finish_commit
  commit_chain s blk blk1 blk2 = do
    (queue, last) ← collect (suc (height_of s blk)) s.heap blk (height_of s s.b_exec)
    if last == s.b_exec then (finish_commit s blk blk1 queue) else throw safety_breached

  unfoldable pub update_commit : Core → (blk1 blk2 : Ptr) → Result Core
  unfolding is_parent commit_chain
  update_commit s blk1 blk2 = elim (s.heap blk1).justify [
    | none ↦ ok s
    | some blk ↦
        if (s.heap blk).decided
        then ok s
        else if is_parent s.heap blk1 blk2 && is_parent s.heap blk blk1
        then commit_chain s blk blk1 blk2
        else ok s
  ]

  -- `update` from the locked block on.
  unfoldable pub raise_lock : Core → Ptr → Core
  raise_lock s blk1 =
      if ltb (height_of s s.b_lock) (height_of s blk1) then record s { b_lock = blk1 } else s

  unfoldable pub write_lock : Core → Result Core
  unfolding write_to_disk
  write_lock s = do
    (heap, disk) ← write_to_disk (suc (height_of s s.b_lock)) s.heap s.disk s.b_lock
    ok (record s { heap = heap; disk = disk })

  unfoldable pub update_lock : Core → Ptr → Result Core
  unfolding raise_lock write_lock update_commit
  update_lock s blk2 = elim (s.heap blk2).justify [
    | none ↦ ok s
    | some blk1 ↦
        if (s.heap blk1).decided
        then ok s
        else do s' ← write_lock (raise_lock s blk1); update_commit s' blk1 blk2
  ]

  unfoldable pub update : Core → Ptr → Result Core
  unfolding update_hqc update_lock get_justify_qc
  update s nblk = elim (s.heap nblk).justify [
    | none ↦ ok s
    | some blk2 ↦
        if (s.heap blk2).decided
        then ok s
        else do qc ← get_justify_qc (s.heap nblk); update_lock (update_hqc s blk2 qc) blk2
  ]

  unfoldable pub on_receive_vote : Core → PartialCertificate → Ptr → ℕ → Result Core
  unfolding update_hqc call write
  on_receive_vote s cert b voter =
      let blk = s.heap b in
      let had_quorum_before = has_quorum s.config blk.self_qc in
      do
        self_qc ← add_partial_certificate blk.self_qc voter cert
        let s' = record s { heap = write s.heap b (record blk { self_qc = self_qc }) }
        let has_quorum_after = has_quorum s.config self_qc
        ok (
            if has_quorum_after && not had_quorum_before
            then call (update_hqc s' b self_qc) (on_new_qc (get_hash (s'.heap b)))
            else s')

  -- The voting rule: past the height test, and whole.
  unfoldable pub extends_lock : Core → (bnew justify_block : Ptr) → Result Bool
  unfolding descend
  extends_lock s bnew justify_block =
      let lock_height = height_of s s.b_lock in
      if ltb lock_height (height_of s justify_block)
      then ok true
      else do b ← descend (suc (height_of s bnew)) s.heap bnew lock_height; ok (b == s.b_lock)

  unfoldable pub opinion : Core → Ptr → Result Bool
  unfolding extends_lock
  opinion s bnew =
      if ltb s.vheight (height_of s bnew)
      then (do
        justify_block ← or_throw (s.heap bnew).justify null_pointer
        extends_lock s bnew justify_block)
      else ok false

  -- `vheight` is 32 bits wide.
  unfoldable pub vote : Core → Ptr → ℕ → Core
  unfolding call
  vote s bnew proposer =
      call (record s { vheight = height_of s bnew % 2 ^ 32 }) (do_vote bnew proposer)

  unfoldable pub on_receive_proposal : Core → Ptr → ℕ → Result Core
  unfolding opinion vote update
  on_receive_proposal s bnew proposer = do
    agrees ← opinion s bnew
    update (if agrees then vote s bnew proposer else s) bnew

  -- `find_block_by_hash(highest_qc.get_obj_hash())` has found `highest`.
  unfoldable pub reload_state_from_index : Core → QuorumCertificate → Ptr → Core
  unfolding update_hqc
  reload_state_from_index s highest_qc highest = record (update_hqc s highest highest_qc) {
    vheight = height_of s highest % 2 ^ 32;
    b_exec = highest;
    b_lock = highest;
  }
