-- ===== src/Vm/Committed.antt =====
-- A block that is applied and then committed.
use hotstuff.Prelude.{
  ℕ, suc, ◌+◌, ◌%◌, ◌^◌, ◌<◌, ◌≡◌, ◌≢◌, refl, sym, ◌∙◌, ap, inl, inr, ◌⊎◌, true, false, List, [],
  ◌∷◌, ◌++◌, arith, ◌==◌, ==_refl, Bool-cases, ok, throw, deadlock,
}
use hotstuff.Block.{Ptr, Block}
use hotstuff.Vm.{VmBlockId, same_id, Machine, get_block_id}
use hotstuff.Vm.Gadget.{
  lock, unlock, empty, add_height_pair, get_lowest_speculative_hotstuff_height, on_commit_hotstuff,
  clear, commit_front,
}
use hotstuff.Vm.Interface.{AsyncWorker, Interface, log_commitment, submit_block_for_exec}
use hotstuff.Vm.Bridge.{
  Bridge, Txn, init_guard, enter, leave, add_decided_block, apply_new, apply_rewound, apply_entered,
  apply_block, revert_to_last_commitment, notify_vm_of_commitment,
}
use hotstuff.Vm.Speculated.{IsRun, same_id_sound, same_id_refl}

-- An initialized bridge, whose mutex is free.
abbrev pub ready : {S V : Type 0} → List (ℕ × VmBlockId) → ℕ → ℕ → Interface S V → Bridge S V
ready height_map head committed i = record {
  speculation_map = record {
    height_map = height_map;
    speculation_head_hotstuff_height = head;
    highest_committed_height = committed;
    locked = false;
  };
  vm_interface = i;
  initialized = true;
}

module _ {S V : Type 0} ⦃w : AsyncWorker S V⦄ (m : Machine S V) (height_map : List (ℕ × VmBlockId))
    (head committed : ℕ) (i : Interface S V) (p : Ptr) (blk : Block) (txn : Txn) where
  abbrev pub block_id : VmBlockId
  block_id = get_block_id m (m.try_parse blk.wire.body)

  -- Speculation has not begun, or its first block is the one that is applied.
  abbrev pub IsExpected : Type 0
  IsExpected =
      (height_map ≡ [])
      ⊎ ((height : ℕ) × (rest : List (ℕ × VmBlockId)) × (height_map ≡ (height, block_id) ∷ rest))

  -- Its first block is another one.
  abbrev pub IsConflicting : Type 0
  IsConflicting =
      (height : ℕ) × (other : VmBlockId) × (rest : List (ℕ × VmBlockId)) × (height_map
        ≡ (height, other) ∷ rest)
      × (block_id ≢ other)

  -- The block is logged as decided and committed, and the machine is told of its own id.
  abbrev pub Commits : Type 0
  Commits =
      (b : Bridge S V) × (left : List (ℕ × VmBlockId)) × (next : ℕ) × (apply_block m
          (ready height_map head committed i) p blk txn
        ≡ ok (b, txn ++ (p, block_id) ∷ []))
      × (notify_vm_of_commitment b blk
          ≡ ok (ready left next blk.height (log_commitment b.vm_interface block_id)))
      × IsRun blk.height left next

module _ {S V : Type 0} ⦃w : AsyncWorker S V⦄ (m : Machine S V) (committed : ℕ) (i : Interface S V)
    (p : Ptr) (blk : Block) (txn : Txn) (at : blk.height ≡ suc committed) where
  -- The commit of a front entry at the block's height.
  pub notify_front :
      (height : ℕ) (id : VmBlockId) (rest : List (ℕ × VmBlockId)) (head : ℕ) (j : Interface S V)
      → height ≡ blk.height
      → notify_vm_of_commitment (ready ((height, id) ∷ rest) head committed j) blk
        ≡ ok (ready rest head blk.height (log_commitment j id))
  unfolding notify_vm_of_commitment on_commit_hotstuff commit_front init_guard lock unlock
  notify_front height id rest head j e = rw (e, ==_refl blk.height) refl

  commits_new :
      (head : ℕ)
      → head ≡ suc committed
      → suc head < 2 ^ 64
      → Commits m [] head committed i p blk txn
  unfolding apply_block enter init_guard lock add_decided_block apply_entered empty apply_new leave
      unlock add_height_pair
  commits_new head run room =
      let level : (head == blk.height) ≡ true = rw (at, run) (==_refl (suc committed)) in
      let next : (head + 1) % 2 ^ 64 ≡ suc blk.height = omega (arith, at, run, room) in
      let j : Interface S V = submit_block_for_exec i (m.try_parse blk.wire.body) in
      (
        ready ((blk.height, block_id m [] head committed i p blk txn) ∷ []) ((head + 1) % 2 ^ 64)
            committed j,
        [],
        (head + 1) % 2 ^ 64,
        rw level refl,
        notify_front blk.height _ [] _ j refl,
        next,
      )

  commits_speculated :
      (head height : ℕ) (rest : List (ℕ × VmBlockId))
      → height ≡ suc committed
      → IsRun (suc committed) rest head
      → Commits m
          ((height, block_id m [] head committed i p blk txn) ∷ rest)
          head
          committed
          i
          p
          blk
          txn
  unfolding apply_block enter init_guard lock add_decided_block apply_entered empty leave unlock
      get_lowest_speculative_hotstuff_height
  commits_speculated head height rest run more =
      let id : VmBlockId = get_block_id m (m.try_parse blk.wire.body) in
      (
        ready ((height, id) ∷ rest) head committed i,
        rest,
        head,
        rw (same_id_refl id) refl,
        notify_front height id rest head i (run ∙ sym at),
        rw at more,
      )

  deadlocks :
      (head height : ℕ) (other : VmBlockId) (rest : List (ℕ × VmBlockId))
      → same_id (get_block_id m (m.try_parse blk.wire.body)) other ≡ false
      → apply_block m (ready ((height, other) ∷ rest) head committed i) p blk txn ≡ throw deadlock
  unfolding apply_block enter init_guard lock apply_entered empty
      get_lowest_speculative_hotstuff_height apply_rewound revert_to_last_commitment clear
  deadlocks head height other rest e = rw e refl

-- On an initialized bridge whose mutex is free and whose speculation has no gap, with heights
-- within 64 bits, at a block one above the committed height: if nothing or first the same block
-- has been speculated on, `apply_block` logs it as decided, and `notify_vm_of_commitment` after it
-- commits it, passes its id on, and leaves no gap; if another block has, `apply_block` deadlocks
-- on the mutex that it holds.
pub apply_block-cases :
    {S V : Type 0} ⦃w : AsyncWorker S V⦄ (m : Machine S V) (height_map : List (ℕ × VmBlockId))
    (head committed : ℕ) (i : Interface S V) (p : Ptr) (blk : Block) (txn : Txn)
    → IsRun committed height_map head
    → suc head < 2 ^ 64
    → blk.height ≡ suc committed
    → (IsExpected m height_map head committed i p blk txn
        × Commits m height_map head committed i p blk txn)
      ⊎ (IsConflicting m height_map head committed i p blk txn
          × (apply_block m (ready height_map head committed i) p blk txn ≡ throw deadlock))
apply_block-cases m [] head committed i p blk txn run room at =
    inl (inl refl, commits_new m committed i p blk txn at head run room)
apply_block-cases m ((height, id) ∷ rest) head committed i p blk txn (first, run) room at =
    let own : VmBlockId = get_block_id m (m.try_parse blk.wire.body) in
    elim (Bool-cases (same_id own id)) [
      | inl e ↦
          let same : own ≡ id = same_id_sound own id e in
          inl (
            inr (height, rest, ap (λ v. (height, v) ∷ rest) (sym same)),
            rw (← same) (commits_speculated m committed i p blk txn at head height rest first run),
          )
      | inr e ↦ inr (
        (height, id, rest, refl, λ same. differs own id e same),
        deadlocks m committed i p blk txn at head height id rest e,
      )
    ]
  where
    differs : (a b : VmBlockId) → same_id a b ≡ false → a ≢ b
    differs a b e same = cc (rw same at e, same_id_refl b)
