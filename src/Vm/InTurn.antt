-- ===== src/Vm/InTurn.antt =====
-- What the machine runs of the blocks that are submitted and committed through its queues, whose
-- calls wait for the machine's thread.
use hotstuff.Prelude.{
  ◌≡◌, refl, sym, ◌∙◌, ap, Option, none, some, Bool, true, false, List, [], ◌∷◌, ◌++◌, not, ◌||◌,
  if◌then◌else◌, Bool-cases, Option-cases, inl, inr, ok, Result, ok-injective,
}
use hotstuff.Vm.{VmBlockId, is_nonempty, Machine, get_block_id}
use hotstuff.Vm.Interface.{
  Interface, AsyncWorker, is_empty, exists_work_to_do, clear_proposal_settings,
  submit_block_for_exec, log_commitment, validate_blocks, validate_all, pass_commitment,
  add_proposal, run_round,
}
use hotstuff.Vm.Served.{Runs, rests, runs, IsWait}

module _ {S V : Type 0} (m : Machine S V) where
  -- The thread runs, and no proposal is requested.
  abbrev pub IsQuiet : Interface S V → Type 0
  IsQuiet i = (i.done_flag ≡ false) × (i.additional_proposal_requests ≡ 0)

  -- A wait on such an interface returns only when the thread has no work left.
  abbrev pub IsPatient : AsyncWorker S V → Type 0
  IsPatient w =
      (i : Interface S V) → IsQuiet i → exists_work_to_do (w.wait_for_async_task i) ≡ false

  abbrev pub told : S → VmBlockId → S
  told s none = s
  told s (some id) = m.log_commitment s (some id)

  -- The machine executes a block that is parsed, and is told of its id.
  abbrev pub run_alone : S → Option V → S
  run_alone s none = s
  run_alone s (some v) = told (m.exec_block s v) (m.get_id v)

  -- It does so with one block after the other, without a thread or queues.
  abbrev pub run_in_turn : S → List (Option V) → S
  run_in_turn s [] = s
  run_in_turn s (v ∷ vs) = run_in_turn (run_alone s v) vs

  -- What a round of the thread without a proposal makes of an interface.
  abbrev pub after_round : Interface S V → Interface S V
  after_round i = pass_commitment m (validate_all m i)

  after_round_idle : (i : Interface S V) → exists_work_to_do i ≡ false → after_round i ≡ i
  unfolding pass_commitment validate_all validate_blocks exists_work_to_do is_empty is_nonempty
  after_round_idle i idle =
      let (blocks, id) = nothing_left i.blocks_to_validate i.highest_committed_id _ idle in
      let same : i ≡ record i { blocks_to_validate = []; highest_committed_id = none } =
        ap (λ (bs : List (Option V)). record i { blocks_to_validate = bs }) blocks
        ∙ ap (λ (h : VmBlockId). record i { blocks_to_validate = []; highest_committed_id = h })
            id in
      ap after_round same ∙ sym same
    where
      nothing_left :
          (bs : List (Option V)) (h : VmBlockId) (b : Bool)
          → not (is_empty bs) || b || is_nonempty h ≡ false
          → (bs ≡ []) × (h ≡ none)
      nothing_left [] none b e = (refl, refl)
      nothing_left [] (some v) true e = cc
      nothing_left [] (some v) false e = cc
      nothing_left (v ∷ bs) h b e = cc

  after_round_twice : (i : Interface S V) → after_round (after_round i) ≡ after_round i
  unfolding pass_commitment validate_all validate_blocks
  after_round_twice i =
      elim i.highest_committed_id
        as (λ id.
          let j = record i { highest_committed_id = id } in
          after_round (after_round j) ≡ after_round j) [ none ↦ refl | some id ↦ refl ]

  after_round-IsQuiet : (i : Interface S V) → IsQuiet i → IsQuiet (after_round i)
  unfolding pass_commitment validate_all
  after_round-IsQuiet i quiet =
      elim i.highest_committed_id
        as (λ id. IsQuiet (after_round (record i { highest_committed_id = id }))) [
          | none ↦ quiet
          | some id ↦ quiet
        ]

  unwanted : (i : Interface S V) → i.additional_proposal_requests ≡ 0 → add_proposal m i ≡ ok i
  unfolding add_proposal
  unwanted i e = rw (add_proposal, e) refl

  pub round-after_round : (i : Interface S V) → IsQuiet i → run_round m i ≡ ok (after_round i)
  unfolding run_round
  round-after_round i quiet = elim (Bool-cases (exists_work_to_do i)) [
    | inl work ↦
        working _ _ _ _ quiet.0 work ∙ unwanted (after_round i) (after_round-IsQuiet i quiet).1
    | inr idle ↦ resting _ _ _ _ quiet.0 idle ∙ ap ok (sym (after_round_idle i idle))
  ]
    where
      working :
          (done work : Bool) (x y : Result (Interface S V))
          → done ≡ false
          → work ≡ true
          → (if done then x else if not work then x else y) ≡ y
      working true work x y e k = cc
      working false true x y e k = refl
      working false false x y e k = cc

      resting :
          (done work : Bool) (x y : Result (Interface S V))
          → done ≡ false
          → work ≡ false
          → (if done then x else if not work then x else y) ≡ x
      resting true work x y e k = cc
      resting false true x y e k = cc
      resting false false x y e k = refl

  pub after_round-rests :
      (i : Interface S V) → IsQuiet i → exists_work_to_do (after_round i) ≡ false
  unfolding pass_commitment validate_all exists_work_to_do is_empty is_nonempty
  after_round-rests i quiet =
      elim i.highest_committed_id
        as (λ id.
          exists_work_to_do (after_round (record i { highest_committed_id = id })) ≡ false) [
            | none ↦ rw quiet.1 refl
            | some id ↦ rw quiet.1 refl
          ]

  Runs-after_round :
      {i j : Interface S V}
      → Runs m i j
      → IsQuiet i
      → exists_work_to_do j ≡ false
      → j ≡ after_round i
  Runs-after_round {i} {j} rests quiet idle = sym (after_round_idle i idle)
  Runs-after_round {i} {j = k} (runs {j} e more) quiet idle =
      let at : after_round i ≡ j = ok-injective (sym (round-after_round i quiet) ∙ e) in
      let next : IsQuiet j = rw (← at) (after_round-IsQuiet i quiet) in
      Runs-after_round more next idle ∙ ap after_round (sym at) ∙ after_round_twice i

  -- Nothing is queued, and no id waits.
  abbrev cleared : Interface S V → Interface S V
  cleared i = record i { blocks_to_validate = []; highest_committed_id = none }

  after_round-cleared : (i : Interface S V) → after_round i ≡ cleared (after_round i)
  unfolding pass_commitment validate_all
  after_round-cleared i =
      elim i.highest_committed_id
        as (λ id.
          let j = record i { highest_committed_id = id } in
          after_round j ≡ cleared (after_round j)) [ none ↦ refl | some id ↦ refl ]

  abbrev submitted : Interface S V → Option V → Interface S V
  submitted i v = record (clear_proposal_settings i) {
    blocks_to_validate = i.blocks_to_validate ++ v ∷ [];
  }

  abbrev logged : Interface S V → VmBlockId → Interface S V
  logged i id = if is_nonempty id then record i { highest_committed_id = id } else i

  -- One block through a machine without work.
  turn :
      (i : Interface S V) (v : Option V)
      → i.done_flag ≡ false
      → let j = logged (after_round (submitted (cleared i) v)) (get_block_id m v) in
        IsQuiet j × ((after_round j).vm_instance ≡ run_alone i.vm_instance v)
  unfolding pass_commitment validate_all validate_blocks clear_proposal_settings get_block_id
      is_nonempty
  turn i none going = ((going, refl), refl)
  turn i (some v) going = elim (Option-cases (m.get_id v)) [
    | inl e ↦ rw (get_block_id, e) ((going, refl), refl)
    | inr (id, e) ↦ rw (get_block_id, e) ((going, refl), refl)
  ]

module _ {S V : Type 0} ⦃w : AsyncWorker S V⦄ (m : Machine S V) where
  -- The blocks submitted and committed one after the other.
  abbrev pub submit_all : Interface S V → List (Option V) → Interface S V
  submit_all i [] = i
  submit_all i (v ∷ vs) =
      submit_all (log_commitment (submit_block_for_exec i v) (get_block_id m v)) vs

  -- The state in which the wait of the next call leaves the machine.
  abbrev pub state_of : Interface S V → S
  state_of i = (w.wait_for_async_task i).vm_instance

  module _ (waits : IsWait m w) (patient : IsPatient m w) where
    wait-after_round : (i : Interface S V) → IsQuiet m i → w.wait_for_async_task i ≡ after_round m i
    wait-after_round i quiet = Runs-after_round m (waits i) quiet (patient i quiet)

    wait-cleared :
        (i : Interface S V) → IsQuiet m i → w.wait_for_async_task i ≡ cleared m (after_round m i)
    wait-cleared i quiet = wait-after_round i quiet ∙ after_round-cleared m i

    called :
        (i : Interface S V) (v : Option V)
        → IsQuiet m i
        → log_commitment (submit_block_for_exec i v) (get_block_id m v)
          ≡ logged m
              (after_round m (submitted m (cleared m (after_round m i)) v))
              (get_block_id m v)
    unfolding log_commitment submit_block_for_exec clear_proposal_settings
    called i v quiet =
        let first : submit_block_for_exec i v ≡ submitted m (cleared m (after_round m i)) v =
          ap (λ k. submitted m k v) (wait-cleared i quiet) in
        let still : IsQuiet m (submitted m (cleared m (after_round m i)) v) =
          ((after_round-IsQuiet m i quiet).0, refl) in
        ap (λ k. logged m (w.wait_for_async_task k) (get_block_id m v)) first
        ∙ ap (λ k. logged m k (get_block_id m v)) (wait-after_round _ still)

    step-lem :
        (i : Interface S V) (v : Option V)
        → IsQuiet m i
        → let j = log_commitment (submit_block_for_exec i v) (get_block_id m v) in
          IsQuiet m j × (state_of j ≡ run_alone m (state_of i) v)
    step-lem i v quiet =
        let (still, same) = turn m (after_round m i) v (after_round-IsQuiet m i quiet).0 in
        let start : state_of i ≡ (after_round m i).vm_instance =
          ap (λ (k : Interface S V). k.vm_instance) (wait-after_round i quiet) in
        rw (called i v quiet) (
          still,
          ap (λ (k : Interface S V). k.vm_instance) (wait-after_round _ still)
              ∙ same
              ∙ ap (λ s. run_alone m s v) (sym start),
        )

    -- If only rounds of the machine's thread change the interface while a call waits for the
    -- thread, and such a wait, where the thread has not ended and no proposal is requested,
    -- returns only when the thread has no work left: on such an interface, blocks that are
    -- submitted and committed one after the other, each committed with its own id, leave such an
    -- interface, and bring the machine, as the wait of the next call leaves it, from the state in
    -- which the wait of the first one leaves it to the one in which executing each parsed block
    -- and passing on its id in turn does, so that none is skipped.
    pub submit_all-run_in_turn :
        (i : Interface S V) (vs : List (Option V))
        → IsQuiet m i
        → IsQuiet m (submit_all i vs) × (state_of (submit_all i vs) ≡ run_in_turn m (state_of i) vs)
    submit_all-run_in_turn i [] quiet = (quiet, refl)
    submit_all-run_in_turn i (v ∷ vs) quiet =
        let (next, same) = step-lem i v quiet in
        let (end, rest) =
          submit_all-run_in_turn (log_commitment (submit_block_for_exec i v) (get_block_id m v)) vs
            next in
        (end, rest ∙ ap (λ s. run_in_turn m s vs) same)
