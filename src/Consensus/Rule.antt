-- ===== src/Consensus/Rule.antt =====
-- The voting rule of `on_receive_proposal`.
use mathlib.Core.Path.{subst}
use hotstuff.Prelude.{
  ℕ, suc, ◌≤◌, ◌<◌, ◌%◌, ◌^◌, ◌≡◌, refl, sym, ◌↔◌, ◌⊎◌, inl, inr, Bool, true, false, some, [], ◌∷◌,
  ◌++◌, arith, ltb, ltb→lt, ltb→le, lt→ltb, ◌==◌, ==_iff, Bool-cases, Result, ok,
}
use hotstuff.Foreign.{Foreign}
use hotstuff.Block.{Ptr}
use hotstuff.Block.Tree.{IsForest, Extends, Extends-eq}
use hotstuff.Consensus.Calls.{votes, votes-append}
use hotstuff.Consensus.Walk.{descend-Extends}
use hotstuff.Consensus.{Core, call, extends_lock, opinion, vote}

-- The block is higher than the last one voted for, and either its certificate is on a block above
-- the locked one, or it descends from the locked one.
abbrev pub IsSafeToVote : Core → (bnew justify_block : Ptr) → Type 0
IsSafeToVote s bnew justify_block =
    (s.vheight < (s.heap bnew).height)
    × (((s.heap s.b_lock).height < (s.heap justify_block).height) ⊎ Extends s.heap s.b_lock bnew)

-- A verdict that decides a statement.
abbrev pub Decides : Type 0 → Result Bool → Type 0
Decides P r = (agrees : Bool) × (r ≡ ok agrees) × ((agrees ≡ true) ↔ P)

module _ ⦃f : Foreign⦄ where
  extends_lock-Decides :
      (s : Core) (bnew j : Ptr)
      → IsForest s.heap
      → Decides
          (((s.heap s.b_lock).height < (s.heap j).height) ⊎ Extends s.heap s.b_lock bnew)
          (extends_lock s bnew j)
  unfolding extends_lock
  extends_lock-Decides s bnew j forest =
      elim (Bool-cases (ltb (s.heap s.b_lock).height (s.heap j).height)) [
        | inl high ↦ (true, rw high refl, (λ _. inl (ltb→lt _ _ high), λ _. refl))
        | inr low ↦
            let (last, r, x, l, top) =
              descend-Extends (suc (s.heap bnew).height) s.heap bnew (s.heap s.b_lock).height forest
                (omega arith) in
            (
              last == s.b_lock,
              rw (low, r) refl,
              (
                λ e. inr (subst (λ b. Extends s.heap b bnew) ((==_iff _ _).0 e) x),
                λ p. elim p [
                  | inl high ↦ absurd (omega (arith, ltb→le _ _ low, high))
                  | inr y ↦
                      (==_iff _ _).1 (sym (Extends-eq forest (top s.b_lock y (omega arith)) l))
                ],
              ),
            )
      ]

  -- On a forest, for a proposal with a justifying block, the test of `on_receive_proposal` ends,
  -- and its verdict is the voting rule: the block is higher than the last one voted for, and its
  -- justifying block is above the locked block or it descends from the locked block.
  pub opinion-Decides :
      (s : Core) (bnew j : Ptr)
      → IsForest s.heap
      → (s.heap bnew).justify ≡ some j
      → Decides (IsSafeToVote s bnew j) (opinion s bnew)
  unfolding opinion
  opinion-Decides s bnew j forest e = elim (Bool-cases (ltb s.vheight (s.heap bnew).height)) [
    | inr low ↦ (false, rw low refl, (λ k. cc, λ p. absurd (omega (arith, ltb→le _ _ low, p.0))))
    | inl high ↦
        let (agrees, r, (fwd, back)) = extends_lock-Decides s bnew j forest in
        (agrees, rw (high, e, r) refl, (λ k. (ltb→lt _ _ high, fwd k), λ p. back p.1))
  ]

  -- A positive verdict implies the height test.
  pub opinion-lt :
      (s : Core) (bnew : Ptr) → opinion s bnew ≡ ok true → s.vheight < (s.heap bnew).height
  unfolding opinion
  opinion-lt s bnew r = elim (Bool-cases (ltb s.vheight (s.heap bnew).height)) [
    | inl high ↦ ltb→lt _ _ high
    | inr low ↦ cc (rw low at r)
  ]

  -- Since `vheight` keeps 32 bits, a replica that agrees to vote for a block at a height of `2 ^
  -- 32` or more agrees again right after it has voted.
  pub opinion-vote_again :
      (s : Core) (bnew proposer : ℕ)
      → 2 ^ 32 ≤ (s.heap bnew).height
      → opinion s bnew ≡ ok true
      → opinion (vote s bnew proposer) bnew ≡ ok true
  unfolding opinion vote call extends_lock
  opinion-vote_again s bnew proposer wide r =
      let again : ltb ((s.heap bnew).height % 2 ^ 32) (s.heap bnew).height ≡ true =
        lt→ltb _ _ (omega arith) in
      let first : ltb s.vheight (s.heap bnew).height ≡ true = lt→ltb _ _ (opinion-lt s bnew r) in
      rw again (rw first at r)

  pub votes-vote :
      (s : Core) (bnew proposer : ℕ)
      → votes (vote s bnew proposer).calls ≡ votes s.calls ++ bnew ∷ []
  unfolding vote call votes
  votes-vote s bnew proposer = votes-append s.calls _
