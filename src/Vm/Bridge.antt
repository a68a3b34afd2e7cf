-- ===== src/Vm/Bridge.antt =====
-- hotstuff/vm/hotstuff_vm_bridge.cc and its header: consensus' side of the machine.
-- A transaction is the list of its `add_decided_block` calls. A thread that waits for a proposal
-- holds the mutex of the gadget, so that no block is applied meanwhile.
use hotstuff.Prelude.{
  ℕ, Option, none, some, Bool, true, false, List, [], ◌∷◌, ◌++◌, if◌then◌else◌, not, Result, ok,
  throw, ◌>>=◌, uninitialized_vm,
}
use hotstuff.Block.{Ptr, Block}
use hotstuff.Vm.{VmBlockId, same_id, empty_block_id, Machine, get_block_id}
use hotstuff.Vm.Gadget.{
  Gadget, empty_gadget, lock, unlock, empty, add_height_pair,
  get_lowest_speculative_hotstuff_height, on_commit_hotstuff, clear,
}
use hotstuff.Vm.Gadget
use hotstuff.Vm.Interface.{
  AsyncWorker, Interface, new_interface, set_proposer, submit_block_for_exec, log_commitment,
  get_proposal, finish_work_and_force_rewind,
}
use hotstuff.Vm.Interface

abbrev pub Txn : Type 0
Txn = List (Ptr × VmBlockId)

unfoldable pub add_decided_block : Txn → Ptr → VmBlockId → Txn
add_decided_block txn blk id = txn ++ (blk, id) ∷ []

pub record Bridge (S V : Type 0) : Type 0 where
  pub speculation_map : Gadget
  pub vm_interface : Interface S V
  pub initialized : Bool

module _ {S V : Type 0} where
  unfoldable pub new_bridge : S → ℕ → Bool → Bridge S V
  unfolding empty_gadget new_interface
  new_bridge vm target refill = record {
    speculation_map = empty_gadget;
    vm_interface = new_interface vm target refill;
    initialized = false;
  }

  unfoldable pub init_guard : Bridge S V → Result (Bridge S V)
  init_guard b = if not b.initialized then throw uninitialized_vm else ok b

  unfoldable pub revert_to_last_commitment : Bridge S V → Result (Bridge S V)
  unfolding clear
  revert_to_last_commitment b = do
    cleared ← clear b.speculation_map
    ok (record b { speculation_map = cleared })

  -- The guard, and the lock that is held until the call returns.
  unfoldable pub enter : Bridge S V → Result (Bridge S V)
  unfolding init_guard lock
  enter b = do
    c ← init_guard b
    held ← lock c.speculation_map
    ok (record c { speculation_map = held })

  unfoldable pub leave : Bridge S V → Bridge S V
  unfolding unlock
  leave b = record b { speculation_map = unlock b.speculation_map }

  unfoldable pub put_vm_in_proposer_mode : Bridge S V → Result (Bridge S V)
  unfolding init_guard set_proposer
  put_vm_in_proposer_mode b = do
    c ← init_guard b
    ok (record c { vm_interface = set_proposer c.vm_interface })

  unfoldable pub make_empty_proposal : Bridge S V → ℕ → Result (Bridge S V × List ℕ)
  unfolding enter leave add_height_pair empty_block_id
  make_empty_proposal b proposal_height = do
    c ← enter b
    ok (
      leave (record c {
        speculation_map = add_height_pair c.speculation_map proposal_height empty_block_id;
      }),
      [],
    )

  unfoldable pub notify_vm_of_commitment :
      ⦃w : AsyncWorker S V⦄ → Bridge S V → Block → Result (Bridge S V)
  unfolding init_guard on_commit_hotstuff log_commitment
  notify_vm_of_commitment b blk = do
    c ← init_guard b
    (g, committed_block_id) ← on_commit_hotstuff c.speculation_map blk.height
    ok (record c {
      speculation_map = g;
      vm_interface = log_commitment c.vm_interface committed_block_id;
    })

  unfoldable pub stop_proposals : Bridge S V → Bridge S V
  unfolding Interface.stop_proposals
  stop_proposals b = record b { vm_interface = Interface.stop_proposals b.vm_interface }

  unfoldable pub proposal_buffer_is_empty : Bridge S V → Bool
  unfolding Interface.proposal_buffer_is_empty
  proposal_buffer_is_empty b = Interface.proposal_buffer_is_empty b.vm_interface

  module _ (m : Machine S V) where
    unfoldable pub init_clean : Bridge S V → Bridge S V
    unfolding Interface.init_clean
    init_clean b = record b {
      vm_interface = Interface.init_clean m b.vm_interface;
      initialized = true;
    }

    -- The machine's own `init_from_disk` leaves it in the state `loaded`.
    unfoldable pub init_from_disk : Bridge S V → S → ℕ → Result (Bridge S V)
    unfolding Gadget.init_from_disk
    init_from_disk b loaded decided_hotstuff_height = do
      g ← Gadget.init_from_disk b.speculation_map decided_hotstuff_height
      ok (record b {
        vm_interface = record (b.vm_interface) { vm_instance = loaded };
        speculation_map = g;
        initialized = true;
      })

    -- The bytes of the proposal, once it is known.
    unfoldable pub proposal_body : Option V → List ℕ
    proposal_body none = []
    proposal_body (some proposal) = m.serialize proposal

    -- The fuel bounds the rounds of the machine's thread that the call waits for.
    unfoldable pub get_and_apply_next_proposal : ℕ → Bridge S V → ℕ → Result (Bridge S V × List ℕ)
    unfolding enter leave get_proposal add_height_pair get_block_id proposal_body
    get_and_apply_next_proposal fuel b proposal_height = do
      c ← enter b
      (i, proposal) ← get_proposal m fuel c.vm_interface
      ok (
        leave (record c {
          vm_interface = i;
          speculation_map =
              add_height_pair c.speculation_map proposal_height (get_block_id m proposal);
        }),
        proposal_body proposal,
      )

    -- `apply_block` from where the height entry is added.
    unfoldable pub apply_new : ⦃w : AsyncWorker S V⦄ → Bridge S V → Block → Option V → Bridge S V
    unfolding leave add_height_pair get_block_id submit_block_for_exec
    apply_new b blk blk_value = leave (record b {
      speculation_map = add_height_pair b.speculation_map blk.height (get_block_id m blk_value);
      vm_interface = submit_block_for_exec b.vm_interface blk_value;
    })

    -- `apply_block` from where the machine is rewound.
    unfoldable pub apply_rewound :
        ⦃w : AsyncWorker S V⦄ → Bridge S V → Block → Option V → Result (Bridge S V)
    unfolding revert_to_last_commitment finish_work_and_force_rewind apply_new
    apply_rewound b blk blk_value = do
      r ← revert_to_last_commitment b
      ok (
          apply_new (record r { vm_interface = finish_work_and_force_rewind m r.vm_interface }) blk
            blk_value)

    -- `apply_block` from the test of the speculation map.
    unfoldable pub apply_entered :
        ⦃w : AsyncWorker S V⦄ → Bridge S V → Block → Option V → Result (Bridge S V)
    unfolding empty get_lowest_speculative_hotstuff_height same_id get_block_id apply_new
        apply_rewound leave
    apply_entered b blk blk_value =
        let speculated : Result (Bridge S V) = (do
          (height, id) ← get_lowest_speculative_hotstuff_height b.speculation_map
          if same_id (get_block_id m blk_value) id
              then ok (leave b)
              else apply_rewound b blk blk_value) in
        if not (empty b.speculation_map) then speculated else ok (apply_new b blk blk_value)

    unfoldable pub apply_block :
        ⦃w : AsyncWorker S V⦄ → Bridge S V → Ptr → Block → Txn → Result (Bridge S V × Txn)
    unfolding enter add_decided_block get_block_id apply_entered
    apply_block b p blk txn = do
      c ← enter b
      let blk_value = m.try_parse blk.wire.body
      d ← apply_entered c blk blk_value
      ok (d, add_decided_block txn p (get_block_id m blk_value))
