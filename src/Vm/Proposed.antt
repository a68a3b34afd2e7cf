-- ===== src/Vm/Proposed.antt =====
-- A call of `get_proposal` gets its answer.
use hotstuff.Prelude.{
  ◌⊎◌, ℕ, suc, ◌≡◌, refl, ◌∙◌, ap, inl, inr, Option, none, Bool, true, false, List, [], ◌∷◌, ◌++◌,
  arith, ltb, ◌==◌, not, if_cases, Option-cases, if◌then◌else◌, Result, ok, ◌>>=◌,
}
use hotstuff.Vm.{Machine}
use hotstuff.Vm.Interface.{
  Interface, is_empty, exists_work_to_do, request_proposal, take_proposal, validate_all,
  pass_commitment, add_proposal, run_round, await_proposal, get_proposal,
}

module _ {S V : Type 0} (m : Machine S V) where
  -- What the thread's commitment leaves of the queue of proposals.
  record IsSameQueue (i j : Interface S V) : Type 0 where
    pub buffer : j.proposal_buffer ≡ i.proposal_buffer
    pub wanted : j.additional_proposal_requests ≡ i.additional_proposal_requests
    pub proposer : j.is_proposer ≡ i.is_proposer
    pub done : j.done_flag ≡ i.done_flag

  pass_commitment-IsSameQueue : (i : Interface S V) → IsSameQueue i (pass_commitment m i)
  unfolding pass_commitment
  pass_commitment-IsSameQueue i = elim (Option-cases i.highest_committed_id) [
    | inl e ↦
        rw (pass_commitment, e)
          (record { buffer = refl; wanted = refl; proposer = refl; done = refl })
    | inr (id, e) ↦
        rw (pass_commitment, e)
          (record { buffer = refl; wanted = refl; proposer = refl; done = refl })
  ]

  clash : {b : Bool} → b ≡ true → not b ≡ true → ⊥
  clash holds fails = cc (rw holds at fails)

  abbrev Proposes : Result (Interface S V) → Type 0
  Proposes r =
      (j : Interface S V) × (out : Option V) × (r ≡ ok j)
      × (j.proposal_buffer ≡ out ∷ [])
      × (j.done_flag ≡ false)

  add_proposal-Proposes :
      (i : Interface S V)
      → i.done_flag ≡ false
      → i.is_proposer ≡ true
      → ltb 0 i.additional_proposal_requests ≡ true
      → i.proposal_buffer ≡ []
      → Proposes (add_proposal m i)
  unfolding add_proposal
  add_proposal-Proposes i running proposer wanted bare =
      if_cases Proposes (not (ltb 0 i.additional_proposal_requests)) (λ e. absurd (clash wanted e))
        λ e.
          if_cases Proposes (not i.is_proposer) (λ e. absurd (clash proposer e))
            λ e. (_, _, refl, ap (λ xs. xs ++ (m.propose i.vm_instance).1 ∷ []) bare, running)

  run_round-Proposes :
      (i : Interface S V)
      → i.done_flag ≡ false
      → i.is_proposer ≡ true
      → ltb 0 i.additional_proposal_requests ≡ true
      → i.proposal_buffer ≡ []
      → Proposes (run_round m i)
  unfolding run_round validate_all exists_work_to_do
  run_round-Proposes i running proposer wanted bare =
      let work : exists_work_to_do i ≡ true = ground arith in
      let same = pass_commitment-IsSameQueue (validate_all m i) in
      let proposed : Proposes (add_proposal m (pass_commitment m (validate_all m i))) =
        add_proposal-Proposes (pass_commitment m (validate_all m i)) (same.done ∙ running)
          (same.proposer ∙ proposer) (ap (ltb 0) same.wanted ∙ wanted) (same.buffer ∙ bare) in
      if_cases Proposes i.done_flag (λ e. cc)
        λ e.
          if_cases Proposes (not (exists_work_to_do i)) (λ e. absurd (clash work e)) λ e. proposed

  head_case :
      {A : Type 0} (xs : List (Option V)) (out : Option V) (rest : List (Option V)) (a : A)
      (f : Option V → List (Option V) → A)
      → xs ≡ out ∷ rest
      → (elim xs [ [] ↦ a | x ∷ more ↦ f x more ]) ≡ f out rest
  head_case xs out rest a f e = rw e refl

  bare_case :
      {A : Type 0} (xs : List (Option V)) (a : A) (f : Option V → List (Option V) → A)
      → xs ≡ []
      → (elim xs [ [] ↦ a | x ∷ more ↦ f x more ]) ≡ a
  bare_case xs a f e = rw e refl

  abbrev pub Answers : Result (Interface S V × Option V) → Type 0
  Answers r = (j : Interface S V) × (out : Option V) × (r ≡ ok (j, out))

  -- Once there is a proposal, the wait is over.
  await_proposal-full :
      (i : Interface S V) (out : Option V) (rest : List (Option V)) (fuel : ℕ)
      → i.proposal_buffer ≡ out ∷ rest
      → Answers (await_proposal m (suc fuel) i)
  unfolding await_proposal
  await_proposal-full i out rest fuel full =
      if_cases Answers i.done_flag (λ e. (i, none, refl))
        λ e. (take_proposal i out rest, out, head_case i.proposal_buffer out rest _ _ full)

  await_proposal-bare :
      (i : Interface S V)
      → i.is_proposer ≡ true
      → ltb 0 i.additional_proposal_requests ≡ true
      → i.proposal_buffer ≡ []
      → Answers (await_proposal m 2 i)
  unfolding await_proposal
  await_proposal-bare i proposer wanted bare =
      if_cases Answers i.done_flag (λ e. (i, none, refl))
        λ running.
          let (j, out, round, full, going) = run_round-Proposes i running proposer wanted bare in
          let (k, answer, e) = await_proposal-full j out [] 0 full in
          (
            k,
            answer,
            bare_case i.proposal_buffer _ _ bare ∙ ap (λ r. r >>= await_proposal m 1) round ∙ e,
          )

  buffer_cases :
      (xs : List (Option V))
      → ((not (is_empty xs) ≡ false) × (xs ≡ []))
        ⊎ ((not (is_empty xs) ≡ true)
            × ((out : Option V) × (rest : List (Option V)) × (xs ≡ out ∷ rest)))
  unfolding is_empty
  buffer_cases [] = inl (refl, refl)
  buffer_cases (x ∷ xs) = inr (refl, (x, xs, refl))

  -- A request by a proposer, on an empty buffer, with a target.
  abbrev asked : Interface S V → Interface S V
  asked i =
      if ltb i.additional_proposal_requests i.proposal_buffer_target
      then record i { additional_proposal_requests = i.proposal_buffer_target }
      else i

  asked-Answers :
      (i : Interface S V)
      → i.is_proposer ≡ true
      → (i.proposal_buffer_target == 0) ≡ false
      → i.proposal_buffer ≡ []
      → Answers (await_proposal m 2 (asked i))
  asked-Answers i proposer aimed bare =
      if_cases (λ j. Answers (await_proposal m 2 j))
        (ltb i.additional_proposal_requests i.proposal_buffer_target)
        (λ e. await_proposal-bare _ proposer (ground arith) bare)
        (λ e. await_proposal-bare i proposer (ground arith) bare)

  abbrev Continues : Interface S V × Bool → Type 0
  Continues r = Answers (if r.1 then await_proposal m 2 r.0 else ok (r.0, none))

  -- `get_proposal` returns in any state, at once or after one round of the thread that it waits
  -- for: when it waits there is something that wakes the thread.
  pub get_proposal-Answers : (i : Interface S V) → Answers (get_proposal m 2 i)
  unfolding get_proposal request_proposal
  get_proposal-Answers i =
      if_cases Continues (not i.is_proposer) (λ e. (i, none, refl))
        λ proposes.
          if_cases Continues i.done_flag (λ e. (i, none, refl))
            λ e.
              if_cases Continues (not (is_empty i.proposal_buffer)) (λ full. listed full)
                λ empty'.
                  if_cases Continues (i.proposal_buffer_target == 0) (λ e. (asked i, none, refl))
                    λ aimed. asked-Answers i (ground arith) aimed (bare empty')
    where
      listed : not (is_empty i.proposal_buffer) ≡ true → Answers (await_proposal m 2 i)
      listed full = elim (buffer_cases i.proposal_buffer) [
        | inl (e, b) ↦ cc
        | inr (e', (out, rest, e)) ↦ await_proposal-full i out rest 1 e
      ]

      bare : not (is_empty i.proposal_buffer) ≡ false → i.proposal_buffer ≡ []
      bare empty' = elim (buffer_cases i.proposal_buffer) [ inl (e, b) ↦ b | inr (e', rest) ↦ cc ]
