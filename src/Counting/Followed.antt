-- ===== src/Counting/Followed.antt =====
-- A replica that follows a proposer counts as it does.
use hotstuff.Prelude.{
  ℕ, zero, suc, ◌+◌, ◌%◌, ◌^◌, ◌<◌, ◌≡◌, refl, sym, ◌∙◌, ap, List, [], ◌∷◌, arith, last_of, ==_refl,
  Result, ok, ◌>>=◌,
}
use hotstuff.Counting.{
  Opaque, CountingVm, get_id, propose, exec_block, log_commitment, rewind_to_last_commit,
}

-- The proposer after `n` proposals, with the values of the blocks, oldest first.
unfoldable pub proposals : ℕ → CountingVm → CountingVm × List ℕ
unfolding propose
proposals zero vm = (vm, [])
proposals (suc n) vm =
    let (next, value) = propose vm in
    let (last, values) = proposals n next in (last, value ∷ values)

-- A replica that executes and commits blocks in turn.
unfoldable pub follow : Opaque → CountingVm → List ℕ → Result CountingVm
unfolding exec_block log_commitment get_id
follow c vm [] = ok vm
follow c vm (value ∷ values) = do
  next ← log_commitment c (exec_block vm value) (get_id c value)
  follow c next values

-- A proposer that is told of the commitments.
unfoldable pub told : Opaque → CountingVm → List ℕ → Result CountingVm
unfolding log_commitment get_id
told c vm [] = ok vm
told c vm (value ∷ values) = do next ← log_commitment c vm (get_id c value); told c next values

-- 64-bit numbers are read back.
abbrev pub IsCodec : Opaque → Type 0
IsCodec c = (n : ℕ) → n < 2 ^ 64 → c.from_opaque (c.to_opaque n) ≡ ok n

module _ (c : Opaque) (codec : IsCodec c) where
  -- What a step of the follower does at the value that the proposer has proposed.
  follow_step :
      (f vm : CountingVm) (values : List ℕ)
      → f.state ≡ vm.state
      → follow c f ((propose vm).1 ∷ values)
        ≡ follow c (record { state = (propose vm).1; last_committed_state = (propose vm).1 }) values
  unfolding follow propose exec_block log_commitment get_id
  follow_step f vm values at =
      let read : c.from_opaque (c.to_opaque ((vm.state + 1) % 2 ^ 64))
          ≡ ok ((vm.state + 1) % 2 ^ 64) =
        codec _ (omega arith) in
      rw (at, ==_refl ((vm.state + 1) % 2 ^ 64), read) refl

  told_step :
      (p vm : CountingVm) (values : List ℕ)
      → told c p ((propose vm).1 ∷ values)
        ≡ told c (record p { last_committed_state = (propose vm).1 }) values
  unfolding told propose log_commitment get_id
  told_step p vm values =
      let read : c.from_opaque (c.to_opaque ((vm.state + 1) % 2 ^ 64))
          ≡ ok ((vm.state + 1) % 2 ^ 64) =
        codec _ (omega arith) in
      rw read refl

  follow-proposals :
      (n : ℕ) (f vm : CountingVm)
      → f.state ≡ vm.state
      → follow c f (proposals n vm).1
        ≡ ok (record {
          state = (proposals n vm).0.state;
          last_committed_state = last_of f.last_committed_state (proposals n vm).1;
        })
  unfolding proposals propose follow
  follow-proposals zero f vm at = rw (← at) refl
  follow-proposals (suc n) f vm at =
      follow_step f vm _ at ∙ follow-proposals n _ (propose vm).0 refl

  told-proposals :
      (n : ℕ) (p vm : CountingVm)
      → told c p (proposals n vm).1
        ≡ ok (record p { last_committed_state = last_of p.last_committed_state (proposals n vm).1 })
  unfolding proposals propose told
  told-proposals zero p vm = refl
  told-proposals (suc n) p vm = told_step p vm _ ∙ told-proposals n _ (propose vm).0

  -- The state after the proposals, and the last value of them.
  proposals-state :
      (n : ℕ) (vm : CountingVm) → (proposals n vm).0.state ≡ last_of vm.state (proposals n vm).1
  unfolding proposals propose
  proposals-state zero vm = refl
  proposals-state (suc n) vm = proposals-state n (propose vm).0

  proposals-count :
      (n : ℕ) (vm : CountingVm)
      → vm.state < 2 ^ 64
      → (proposals n vm).0.state ≡ (vm.state + n) % 2 ^ 64
  unfolding proposals propose
  proposals-count zero vm low = omega (arith, low)
  proposals-count (suc n) vm low =
      let step = proposals-count n (propose vm).0 (omega arith) in omega (arith, step)

  -- With an encoding that reads 64-bit numbers back: when a proposer that stands within 64 bits
  -- has made one or more proposals, a replica that stood at its state and executes and commits
  -- their blocks in turn, and the proposer when it is told of the commitments, both return in the
  -- same state, which has counted the proposals modulo 2^64, and rewinding it changes nothing.
  pub follow-told :
      (n : ℕ) (f vm : CountingVm)
      → f.state ≡ vm.state
      → vm.state < 2 ^ 64
      → (g : CountingVm) × (follow c f (proposals (suc n) vm).1 ≡ ok g)
        × (told c (proposals (suc n) vm).0 (proposals (suc n) vm).1 ≡ ok g)
        × (g.state ≡ (vm.state + suc n) % 2 ^ 64)
        × (rewind_to_last_commit g ≡ g)
  unfolding rewind_to_last_commit proposals propose
  follow-told n f vm at low =
      let last = (proposals (suc n) vm).0 in
      let reached : ℕ → CountingVm = λ k. record { state = last.state; last_committed_state = k } in
      let settled = ap (λ k. ok (reached k)) (sym (proposals-state (suc n) vm)) in
      (
        record { state = last.state; last_committed_state = last.state },
        follow-proposals (suc n) f vm at ∙ settled,
        told-proposals (suc n) last vm ∙ settled,
        proposals-count (suc n) vm low,
        refl,
      )
