-- ===== src/Vm/Interface.antt =====
-- hotstuff/vm/vm_control_interface.cc and its header: the thread that runs the machine, and its
-- queues of blocks to execute and of proposals.
-- Each call, and each round of the thread, holds the lock throughout, but where it waits.
use hotstuff.Prelude.{
  ℕ, zero, suc, ◌-◌, Option, none, some, Bool, true, false, List, [], ◌∷◌, ◌++◌, ◌==◌, ltb, not,
  ◌&&◌, ◌||◌, if◌then◌else◌, length, Result, ok, throw, ◌>>=◌, woke_early, out_of_fuel,
}
use hotstuff.Vm.{VmBlockId, is_nonempty, Machine}

pub record Interface (S V : Type 0) : Type 0 where
  pub vm_instance : S
  pub immediately_refill_proposal_buffer : Bool
  pub proposal_buffer_target : ℕ
  pub blocks_to_validate : List (Option V)
  pub proposal_buffer : List (Option V)
  pub additional_proposal_requests : ℕ
  pub is_proposer : Bool
  pub highest_committed_id : VmBlockId
  pub done_flag : Bool

-- `wait_for_async_task` of the class `utils::AsyncWorker`, a submodule's: what the interface is when
-- the call returns. Meanwhile the thread has the lock.
pub record AsyncWorker (S V : Type 0) : Type 0 where
  pub wait_for_async_task : Interface S V → Interface S V

unfoldable pub is_empty : {V : Type 0} → List V → Bool
is_empty [] = true
is_empty (_ ∷ _) = false

-- The number of requests when the buffer is refilled at once.
unfoldable pub refill_requests : ℕ → ℕ → ℕ
refill_requests size target = if ltb target size then 0 else target - size

module _ {S V : Type 0} where
  unfoldable pub new_interface : S → ℕ → Bool → Interface S V
  new_interface vm target refill = record {
    vm_instance = vm;
    immediately_refill_proposal_buffer = refill;
    proposal_buffer_target = target;
    blocks_to_validate = [];
    proposal_buffer = [];
    additional_proposal_requests = 0;
    is_proposer = false;
    highest_committed_id = none;
    done_flag = false;
  }

  unfoldable pub exists_work_to_do : Interface S V → Bool
  unfolding is_nonempty is_empty
  exists_work_to_do i =
      not (is_empty i.blocks_to_validate)
      || (ltb 0 i.additional_proposal_requests && i.is_proposer)
      || is_nonempty i.highest_committed_id

  unfoldable pub set_proposer : Interface S V → Interface S V
  set_proposer i = record i { is_proposer = true }

  unfoldable pub clear_proposal_settings : Interface S V → Interface S V
  clear_proposal_settings i = record i {
    is_proposer = false;
    proposal_buffer = [];
    additional_proposal_requests = 0;
  }

  unfoldable pub submit_block_for_exec :
      ⦃w : AsyncWorker S V⦄ → Interface S V → Option V → Interface S V
  unfolding clear_proposal_settings
  submit_block_for_exec ⦃w⦄ i submission =
      let idle = w.wait_for_async_task i in
      record (clear_proposal_settings idle) {
        blocks_to_validate = idle.blocks_to_validate ++ submission ∷ [];
      }

  unfoldable pub log_commitment : ⦃w : AsyncWorker S V⦄ → Interface S V → VmBlockId → Interface S V
  unfolding is_nonempty
  log_commitment ⦃w⦄ i block_id =
      let idle = w.wait_for_async_task i in
      if is_nonempty block_id then record idle { highest_committed_id = block_id } else idle

  unfoldable pub stop_proposals : Interface S V → Interface S V
  stop_proposals i = record i { proposal_buffer_target = 0 }

  unfoldable pub proposal_buffer_is_empty : Interface S V → Bool
  unfolding is_empty
  proposal_buffer_is_empty i =
      is_empty i.proposal_buffer
      && (i.proposal_buffer_target == 0)
      && (i.additional_proposal_requests == 0)

  -- `get_proposal` up to its wait, and whether it goes on to it.
  unfoldable pub request_proposal : Interface S V → Interface S V × Bool
  unfolding is_empty
  request_proposal i =
      let asked : Interface S V =
        (if ltb i.additional_proposal_requests i.proposal_buffer_target
          then record i { additional_proposal_requests = i.proposal_buffer_target }
          else i) in
      if not i.is_proposer
      then (i, false)
      else if i.done_flag
      then (i, false)
      else if not (is_empty i.proposal_buffer)
      then (i, true)
      else if i.proposal_buffer_target == 0
      then (asked, false)
      else (asked, true)

  -- `get_proposal` after its wait.
  unfoldable pub take_proposal : Interface S V → Option V → List (Option V) → Interface S V
  unfolding refill_requests
  take_proposal i out rest =
      if i.immediately_refill_proposal_buffer
      then record i {
        proposal_buffer = rest;
        additional_proposal_requests = refill_requests (length rest) i.proposal_buffer_target;
      }
      else record i { proposal_buffer = rest }

  module _ (m : Machine S V) where
    unfoldable pub validate_blocks : S → List (Option V) → S
    validate_blocks s [] = s
    validate_blocks s (none ∷ blks) = validate_blocks s blks
    validate_blocks s (some blk ∷ blks) = validate_blocks (m.exec_block s blk) blks

    unfoldable pub validate_all : Interface S V → Interface S V
    unfolding validate_blocks
    validate_all i = record i {
      vm_instance = validate_blocks i.vm_instance i.blocks_to_validate;
      blocks_to_validate = [];
    }

    unfoldable pub pass_commitment : Interface S V → Interface S V
    pass_commitment i = elim i.highest_committed_id [
      | none ↦ i
      | some id ↦ record i {
        vm_instance = m.log_commitment i.vm_instance (some id);
        highest_committed_id = none;
      }
    ]

    unfoldable pub add_proposal : Interface S V → Result (Interface S V)
    add_proposal i =
        if not (ltb 0 i.additional_proposal_requests)
        then ok i
        else if not i.is_proposer
        then throw woke_early
        else (let (vm, proposal) = m.propose i.vm_instance in
            ok (record i {
              vm_instance = vm;
              proposal_buffer = i.proposal_buffer ++ proposal ∷ [];
              additional_proposal_requests = i.additional_proposal_requests - 1;
            }))

    -- One round of `run`; a round without work, or at the end of the thread, does nothing.
    unfoldable pub run_round : Interface S V → Result (Interface S V)
    unfolding exists_work_to_do validate_all pass_commitment add_proposal
    run_round i =
        if i.done_flag
        then ok i
        else if not (exists_work_to_do i)
        then ok i
        else add_proposal (pass_commitment (validate_all i))

    -- The wait of `get_proposal`, for as many rounds of the thread as the fuel says.
    unfoldable pub await_proposal : ℕ → Interface S V → Result (Interface S V × Option V)
    unfolding run_round take_proposal
    await_proposal zero i = throw out_of_fuel
    await_proposal (suc fuel) i =
        let waited : Result (Interface S V × Option V) = (do
          j ← run_round i
          await_proposal fuel j) in
        if i.done_flag then ok (i, none) else elim i.proposal_buffer [
          | [] ↦ waited
          | out ∷ rest ↦ ok (take_proposal i out rest, out)
        ]

    unfoldable pub get_proposal : ℕ → Interface S V → Result (Interface S V × Option V)
    unfolding request_proposal await_proposal
    get_proposal fuel i =
        let (asked, waits) = request_proposal i in
        if waits then await_proposal fuel asked else ok (asked, none)

    unfoldable pub finish_work_and_force_rewind :
        ⦃w : AsyncWorker S V⦄ → Interface S V → Interface S V
    finish_work_and_force_rewind ⦃w⦄ i =
        let idle = w.wait_for_async_task i in
        record idle { vm_instance = m.rewind_to_last_commit idle.vm_instance }

    unfoldable pub init_clean : Interface S V → Interface S V
    init_clean i = record i { vm_instance = m.init_clean i.vm_instance }
