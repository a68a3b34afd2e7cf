-- ===== src/Vm/Served.antt =====
-- The thread of the machine and its callers, in any order.
use hotstuff.Prelude.{
  ℕ, suc, ◌+◌, ◌≤◌, ◌<◌, ◌≡◌, refl, sym, ◌∙◌, ap, Option, none, some, Bool, true, false, List, [],
  ◌∷◌, arith, ltb, ◌==◌, not, if_cases, if◌then◌else◌, length, length-append, Result, ok,
  ok-injective,
}
use hotstuff.Vm.{VmBlockId, Machine, is_nonempty}
use hotstuff.Vm.Interface.{
  Interface, AsyncWorker, new_interface, is_empty, exists_work_to_do, set_proposer,
  submit_block_for_exec, log_commitment, stop_proposals, request_proposal, refill_requests,
  take_proposal, validate_all, pass_commitment, add_proposal, run_round,
  finish_work_and_force_rewind, clear_proposal_settings,
}

-- Proposals are requested and buffered only in proposer mode, at most `top` at once.
pub record IsServed {S V : Type 0} (top : ℕ) (i : Interface S V) : Type 0 where
  pub idle : i.is_proposer ≡ false → length i.proposal_buffer + i.additional_proposal_requests ≡ 0
  pub bounded : length i.proposal_buffer + i.additional_proposal_requests ≤ top
  pub aimed : i.proposal_buffer_target ≤ top

module _ {S V : Type 0} (m : Machine S V) where
  -- Rounds of the thread.
  pub data Runs : Interface S V → Interface S V → Type 0 where
    rests : {i : Interface S V} → Runs i i
    runs : {i j k : Interface S V} → run_round m i ≡ ok j → Runs j k → Runs i k

  -- While a call waits for the thread, nothing but rounds of the thread changes the interface.
  abbrev pub IsWait : AsyncWorker S V → Type 0
  IsWait w = (i : Interface S V) → Runs i (w.wait_for_async_task i)

module _ {S V : Type 0} ⦃w : AsyncWorker S V⦄ (m : Machine S V) where
  -- One call, or one round of the thread.
  pub data Step (i : Interface S V) : Interface S V → Type 0 where
    proposing : Step i (set_proposer i)
    submits : (blk : Option V) → Step i (submit_block_for_exec i blk)
    commits : (id : VmBlockId) → Step i (log_commitment i id)
    stops : Step i (stop_proposals i)
    requests : Step i ((request_proposal i).0)
    takes :
        {out : Option V} {rest : List (Option V)}
        → i.proposal_buffer ≡ out ∷ rest
        → Step i (take_proposal i out rest)
    rewinds : Step i (finish_work_and_force_rewind m i)
    rounds : {j : Interface S V} → run_round m i ≡ ok j → Step i j
    ends : Step i (record i { done_flag = true })

  pub data Reach (i : Interface S V) : Interface S V → Type 0 where
    here : Reach i i
    next : {j k : Interface S V} → Reach i j → Step j k → Reach i k

  is_empty-length : (vs : List (Option V)) → not (is_empty vs) ≡ false → length vs ≡ 0
  unfolding is_empty
  is_empty-length [] e = refl
  is_empty-length (v ∷ vs) e = cc

  request_proposal-IsServed :
      (top : ℕ) (i : Interface S V) → IsServed top i → IsServed top ((request_proposal i).0)
  unfolding request_proposal
  request_proposal-IsServed top i s =
      if_cases Holds (not i.is_proposer) (λ e. s)
        λ proposes.
          if_cases Holds i.done_flag (λ e. s)
            λ e.
              if_cases Holds (not (is_empty i.proposal_buffer)) (λ e. s)
                λ bare.
                  if_cases Holds (i.proposal_buffer_target == 0) (λ e. asked proposes bare)
                    (λ e. asked proposes bare)
    where
      Holds : Interface S V × Bool → Type 0
      Holds r = IsServed top r.0

      asked :
          not i.is_proposer ≡ false
          → not (is_empty i.proposal_buffer) ≡ false
          → IsServed top (
              if ltb i.additional_proposal_requests i.proposal_buffer_target
              then record i { additional_proposal_requests = i.proposal_buffer_target }
              else i)
      asked proposes bare =
          if_cases (IsServed top) (ltb i.additional_proposal_requests i.proposal_buffer_target)
            (λ e. record {
              idle = λ f. cc;
              bounded = omega (arith, is_empty-length i.proposal_buffer bare, s.aimed);
              aimed = s.aimed;
            })
            (λ e. s)

  refill_bound :
      (size target top : ℕ) → size ≤ top → target ≤ top → size + refill_requests size target ≤ top
  unfolding refill_requests
  refill_bound size target top le aimed = ground arith

  take_proposal-IsServed :
      (top : ℕ) (i : Interface S V) (out : Option V) (rest : List (Option V))
      → i.proposal_buffer ≡ out ∷ rest
      → IsServed top i
      → IsServed top (take_proposal i out rest)
  unfolding take_proposal refill_requests
  take_proposal-IsServed top i out rest e s =
      let size : length i.proposal_buffer ≡ suc (length rest) = ap length e in
      if_cases (IsServed top) i.immediately_refill_proposal_buffer
        (λ f. record {
          idle = λ idle. absurd (omega (arith, s.idle idle, size));
          bounded =
              refill_bound (length rest) i.proposal_buffer_target top
                (omega (arith, size, s.bounded)) s.aimed;
          aimed = s.aimed;
        })
        (λ f. record {
          idle = λ idle. absurd (omega (arith, s.idle idle, size));
          bounded = omega (arith, size, s.bounded);
          aimed = s.aimed;
        })

  pass_commitment-IsServed :
      (top : ℕ) (i : Interface S V) → IsServed top i → IsServed top (pass_commitment m i)
  unfolding pass_commitment
  pass_commitment-IsServed top i s =
      elim i.highest_committed_id
        as (λ id. IsServed top (elim id [
          | none ↦ i
          | some id ↦ record i {
            vm_instance = m.log_commitment i.vm_instance (some id);
            highest_committed_id = none;
          }
        ])) [ none ↦ s | some id ↦ record { idle = s.idle; bounded = s.bounded; aimed = s.aimed } ]

  abbrev Rounds : ℕ → Result (Interface S V) → Type 0
  Rounds top r = (j : Interface S V) × (r ≡ ok j) × IsServed top j

  add_proposal-IsServed :
      (top : ℕ) (i : Interface S V) → IsServed top i → Rounds top (add_proposal m i)
  unfolding add_proposal
  add_proposal-IsServed top i s =
      if_cases (Rounds top) (not (ltb 0 i.additional_proposal_requests)) (λ e. (i, refl, s))
        λ wanted.
          if_cases (Rounds top) (not i.is_proposer) (λ e. absurd (not_woken wanted e))
            λ proposes.
              let (vm, proposal) = m.propose i.vm_instance in
              (
                _,
                refl,
                record {
                  idle = λ f. cc;
                  bounded = omega (
                    arith,
                    s.bounded,
                    some_wanted wanted,
                    length-append i.proposal_buffer (proposal ∷ []),
                  );
                  aimed = s.aimed;
                },
              )
    where
      some_wanted :
          not (ltb 0 i.additional_proposal_requests) ≡ false → 0 < i.additional_proposal_requests
      some_wanted wanted = ground arith

      not_woken : not (ltb 0 i.additional_proposal_requests) ≡ false → not i.is_proposer ≡ true → ⊥
      not_woken wanted e =
          let idle : i.is_proposer ≡ false = ground arith in
          omega (arith, s.idle idle, some_wanted wanted)

  run_round-IsServed : (top : ℕ) (i : Interface S V) → IsServed top i → Rounds top (run_round m i)
  unfolding run_round validate_all
  run_round-IsServed top i s =
      if_cases (Rounds top) i.done_flag (λ e. (i, refl, s))
        λ e.
          if_cases (Rounds top) (not (exists_work_to_do i)) (λ e. (i, refl, s))
            λ e. add_proposal-IsServed top _ (
              pass_commitment-IsServed top (validate_all m i)
                (record { idle = s.idle; bounded = s.bounded; aimed = s.aimed }))

  Runs-IsServed : (top : ℕ) {i j : Interface S V} → IsServed top i → Runs m i j → IsServed top j
  Runs-IsServed top s rests = s
  Runs-IsServed top {i} s (runs {j} e more) =
      let (k, e', t) = run_round-IsServed top i s in
      let same : k ≡ j = ok-injective (sym e' ∙ e) in Runs-IsServed top (rw (← same) t) more

  Step-IsServed :
      (top : ℕ) {i j : Interface S V} → IsWait m w → IsServed top i → Step i j → IsServed top j
  unfolding set_proposer submit_block_for_exec clear_proposal_settings log_commitment stop_proposals
      finish_work_and_force_rewind
  Step-IsServed top {i} waits s proposing = record {
    idle = λ f. cc;
    bounded = s.bounded;
    aimed = s.aimed;
  }
  Step-IsServed top {i} waits s (submits blk) =
      let t = Runs-IsServed top s (waits i) in
      record { idle = λ f. refl; bounded = omega arith; aimed = t.aimed }
  Step-IsServed top {i} waits s (commits id) =
      let t = Runs-IsServed top s (waits i) in
      if_cases (IsServed top) (is_nonempty id)
        (λ e. record { idle = t.idle; bounded = t.bounded; aimed = t.aimed }) (λ e. t)
  Step-IsServed top {i} waits s stops = record {
    idle = s.idle;
    bounded = s.bounded;
    aimed = omega arith;
  }
  Step-IsServed top {i} waits s requests = request_proposal-IsServed top i s
  Step-IsServed top {i} waits s (takes {out} {rest} e) = take_proposal-IsServed top i out rest e s
  Step-IsServed top {i} waits s rewinds =
      let t = Runs-IsServed top s (waits i) in
      record { idle = t.idle; bounded = t.bounded; aimed = t.aimed }
  Step-IsServed top {i} waits s (rounds {j} e) =
      let (k, e', t) = run_round-IsServed top i s in
      let same : k ≡ j = ok-injective (sym e' ∙ e) in rw (← same) t
  Step-IsServed top {i} waits s ends = record {
    idle = s.idle;
    bounded = s.bounded;
    aimed = s.aimed;
  }

  Reach-IsServed :
      (top : ℕ) {i j : Interface S V} → IsWait m w → IsServed top i → Reach i j → IsServed top j
  Reach-IsServed top waits s here = s
  Reach-IsServed top waits s (next path step) =
      Step-IsServed top waits (Reach-IsServed top waits s path) step

  -- If nothing but rounds of the machine's thread changes the interface while a call waits for the
  -- thread: whatever calls and rounds have been made in whatever order since the start, the next
  -- round of the machine's thread returns (it never throws that it woke early), and after it the
  -- proposals buffered and requested are together at most the buffer's initial target, and none
  -- unless in proposer mode.
  pub Reach-run_round :
      (vm : S) (target : ℕ) (refill : Bool) (i : Interface S V)
      → IsWait m w
      → Reach (new_interface vm target refill) i
      → (j : Interface S V) × (run_round m i ≡ ok j) × IsServed target j
  unfolding new_interface
  Reach-run_round vm target refill i waits path =
      let start : IsServed target (new_interface vm target refill) = record {
        idle = λ e. refl;
        bounded = omega arith;
        aimed = omega arith;
      } in
      run_round-IsServed target i (Reach-IsServed target waits start path)
