-- ===== src/Consensus/Run.antt =====
-- The invariants of a replica over every sequence of events.
use mathlib.Core.List.{append-nil}
use mathlib.Core.Path.{subst}
use hotstuff.Prelude.{
  ℕ, ◌≡◌, ◌≢◌, sym, ◌∙◌, inl, inr, Bool, true, false, none, [], ◌∷◌, if◌then◌else◌, Option-cases,
  Result, ok-injective, throw-ne-ok, first_returns, ok,
}
use hotstuff.Foreign.{Foreign}
use hotstuff.Block.{Ptr}
use hotstuff.Block.Tree.{IsForest, IsSameTree-IsForest, Chain, Chain-append, Chain-tree}
use hotstuff.Consensus.Calls.{applied, applied-append, do_vote}
use hotstuff.Consensus.Advance.{IsStored, Advances}
use hotstuff.Consensus.Update.{Updates, update-Updates}
use hotstuff.Consensus.Rule.{opinion-Decides}
use hotstuff.Consensus.{Core, call, opinion, vote, update, on_receive_proposal}

module _ ⦃f : Foreign⦄ where
  -- The blocks applied so far are the chain of children from the genesis block to `b_exec`, and
  -- what is marked as written is on disk.
  pub record IsSound (s : Core) : Type 0 where
    pub forest : IsForest s.heap
    pub stored : IsStored s
    pub log : Chain s.heap s.genesis (applied s.calls) s.b_exec

  pub Advances-IsSound : (s t : Core) → Advances s t → IsSound s → IsSound t
  Advances-IsSound s t a i = record {
    forest = IsSameTree-IsForest a.same i.forest;
    stored = a.stored i.stored;
    log = Chain-tree s.heap t.heap t.genesis (applied t.calls) t.b_exec a.same (
        rw (a.log, a.genesis)
          (Chain-append s.heap s.genesis (applied s.calls) s.b_exec a.path t.b_exec i.log a.chain));
  }

  pub vote-IsSound : (s : Core) (p proposer : ℕ) → IsSound s → IsSound (vote s p proposer)
  unfolding vote call applied
  vote-IsSound s p proposer i = record {
    forest = i.forest;
    stored = record {
      closed = i.stored.closed;
      durable = i.stored.durable;
      locked = i.stored.locked;
    };
    log = rw (applied-append s.calls (do_vote p proposer ∷ []), append-nil (applied s.calls)) i.log;
  }

  -- The state in which `on_receive_proposal` calls `update`.
  abbrev pub voted : Core → (p proposer : ℕ) → Bool → Core
  voted s p proposer agrees = if agrees then vote s p proposer else s

  pub voted-IsSound :
      (s : Core) (p proposer : ℕ) (agrees : Bool) → IsSound s → IsSound (voted s p proposer agrees)
  voted-IsSound s p proposer true i = vote-IsSound s p proposer i
  voted-IsSound s p proposer false i = i

  -- In a sound state a proposal with a justifying block is handled to the end: the voting rule
  -- gives a verdict, the vote is cast if it is positive, and `update` returns an advanced state or
  -- throws `safety_breached` at an unsafe chain.
  pub on_receive_proposal-cases :
      (s : Core) (p proposer : ℕ)
      → IsSound s
      → (s.heap p).justify ≢ none
      → (agrees : Bool) × (opinion s p ≡ ok agrees)
        × Updates (voted s p proposer agrees) p (on_receive_proposal s p proposer)
  unfolding on_receive_proposal
  on_receive_proposal-cases s p proposer i has_justify = elim (Option-cases (s.heap p).justify) [
    | inl e ↦ absurd (has_justify e)
    | inr (j, e) ↦
        let (agrees, r, exact) = opinion-Decides s p j i.forest e in
        let i' = voted-IsSound s p proposer agrees i in
        (
          agrees,
          r,
          rw (on_receive_proposal, r)
              (update-Updates (voted s p proposer agrees) p i'.forest i'.stored),
        )
  ]

  pub Updates-ok :
      (s t : Core) (p : Ptr) (r : Result Core) → Updates s p r → r ≡ ok t → Advances s t
  Updates-ok s t p r (inl (t', r', a)) e = subst (Advances s) (ok-injective (sym r' ∙ e)) a
  Updates-ok s t p r (inr (r', unsafe)) e = absurd (throw-ne-ok (sym r' ∙ e))

  pub on_receive_proposal-ok :
      (s t : Core) (p proposer : ℕ)
      → on_receive_proposal s p proposer ≡ ok t
      → (agrees : Bool) × (opinion s p ≡ ok agrees) × (update (voted s p proposer agrees) p ≡ ok t)
  unfolding on_receive_proposal
  on_receive_proposal-ok s t p proposer r =
      first_returns (opinion s p) (λ agrees. update (voted s p proposer agrees) p) r

  pub proposal-Advances :
      (s t : Core) (p proposer : ℕ)
      → IsSound s
      → on_receive_proposal s p proposer ≡ ok t
      → (agrees : Bool) × (opinion s p ≡ ok agrees) × Advances (voted s p proposer agrees) t
  proposal-Advances s t p proposer i r =
      let (agrees, o, u) = on_receive_proposal-ok s t p proposer r in
      let i' = voted-IsSound s p proposer agrees i in
      let outcome = update-Updates (voted s p proposer agrees) p i'.forest i'.stored in
      (agrees, o, Updates-ok (voted s p proposer agrees) t p _ outcome u)
