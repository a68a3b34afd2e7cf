-- ===== src/Agreement/Steps.antt =====
-- Every move of a replica keeps to what a group relies on.
use hotstuff.Prelude.{
  ◌≤◌, ◌<◌, ◌^◌, ◌≡◌, ◌≢◌, sym, ◌∙◌, ap, ◌⊎◌, inl, inr, Bool, true, false, none, some, arith,
  Option-cases, ok, ok-injective,
}
use hotstuff.Foreign.{Foreign}
use hotstuff.Block.{Ptr, Heap}
use hotstuff.Consensus.Origin.{Traces, update-Traces}
use hotstuff.Consensus.Rule.{IsSafeToVote, opinion-Decides}
use hotstuff.Consensus.Update.{update-Updates}
use hotstuff.Consensus.Run.{voted, on_receive_proposal-ok, Updates-ok}
use hotstuff.Consensus.{Core, call, opinion, vote, update, on_receive_proposal}
use hotstuff.Agreement.Tree.{IsTree, justify-Extends}
use hotstuff.Agreement.Local.{Voted, Known, Covers, IsLocal}
use hotstuff.Agreement.Moved.{
  Moved, Traces-Moved, Moved-IsLocal, Moved-lock, Moved-Covers, justified-Known,
}
use hotstuff.Agreement.Moves.{Move, hears_vote, hears_proposal, receives, vote-Moved}
use hotstuff.Agreement.Received.{insert-IsLocal}
use hotstuff.Agreement.Voting.{Voted-vote, Voted-vote_old, vote-IsLocal}

-- Votes are kept, and a new one is on a higher block than the ones before it.
pub record Grows (tree : Heap) (s t : Core) : Type 0 where
  pub kept : (v : Ptr) → Voted s v → Voted t v
  pub higher :
      (v : Ptr)
      → Voted t v
      → Voted s v ⊎ ((w : Ptr) → Voted s w → (tree w).height < (tree v).height)

module _ ⦃f : Foreign⦄ where
  pub record IsStep (tree : Heap) (cert good : Ptr → Type 0) (s t : Core) : Type 0 where
    pub local : IsLocal tree cert good t
    pub covers : Covers tree t (Voted t)
    pub grows : Grows tree s t

  module _ (tree : Heap) (is_tree : IsTree tree) (cert good : Ptr → Type 0)
      (cert_good : (x : Ptr) → cert x → good x) where
    Moved-IsStep :
        (s t : Core)
        → IsLocal tree cert good s
        → Covers tree s (Voted s)
        → Moved s t
        → IsStep tree cert good s t
    Moved-IsStep s t i covers m = record {
      local = Moved-IsLocal tree is_tree cert good s i t m;
      covers =
          Moved-Covers tree is_tree cert good s i t (Voted t) m
            (λ v b1 b0 k. covers v b1 b0 (rw m.advances.voted at k));
      grows = record {
        kept = λ v k. rw m.advances.voted k;
        higher = λ v k. inl (rw m.advances.voted at k);
      };
    }

    -- `update` at a proposal makes the lock cover a vote for it.
    update-covers :
        (s t : Core) (p b1 b0 : Ptr)
        → IsLocal tree cert good s
        → Known s.heap p
        → Moved s t
        → Traces s t p
        → (tree p).justify ≡ some b1
        → (tree b1).justify ≡ some b0
        → (tree b0).height ≤ (tree t.b_lock).height
    update-covers s t p b1 b0 i known m r e1 e0 =
        let l1 : (s.heap p).justify ≡ some b1 = (i.view p known).justify ∙ e1 in
        let k1 = i.closed p b1 l1 in
        let l0 : (s.heap b1).justify ≡ some b0 = (i.view b1 k1).justify ∙ e0 in
        let k0 = i.closed b1 b0 l0 in
        let h1 = (i.view b1 k1).height in
        let h0 = (i.view b0 k0).height in
        let hs = (i.view s.b_lock i.lock_known).height in
        let j = Moved-IsLocal tree is_tree cert good s i t m in
        let ht = (j.view t.b_lock j.lock_known).height in
        let same = (m.advances.same t.b_lock).height in
        let rises = Moved-lock tree is_tree cert good s i t m in
        let below = (justify-Extends tree is_tree b1 b0 e0).1 in
        elim (r.covers b1 b0 l1 l0) [
          | inl d ↦ omega (arith, i.low b1 d, h1, hs, rises, below)
          | inr (inl d) ↦ omega (arith, i.low b0 d, h0, hs, rises)
          | inr (inr c) ↦ omega (arith, c, h0, ht, same)
        ]

    update-Moved :
        (s t : Core) (p : Ptr)
        → IsLocal tree cert good s
        → update s p ≡ ok t
        → Moved s t × Traces s t p
    update-Moved s t p i u =
        let r = update-Traces s t p i.sound.forest i.sound.stored u in
        let a = Updates-ok s t p _ (update-Updates s p i.sound.forest i.sound.stored) u in
        (Traces-Moved s t p a r, r)

    -- The step of a proposal that gets the vote.
    granted-IsStep :
        (s t : Core) (p j proposer : Ptr)
        → IsLocal tree cert good s
        → Covers tree s (Voted s)
        → (s.heap p).justify ≡ some j
        → (tree p).height < 2 ^ 32
        → IsSafeToVote s p j
        → update (vote s p proposer) p ≡ ok t
        → IsStep tree cert good s t
    unfolding vote call
    granted-IsStep s t p j proposer i covers e short safe u =
        let s' = vote s p proposer in
        let i' =
          vote-IsLocal tree is_tree cert good s i covers cert_good p j e short proposer safe in
        let known = justified-Known s.heap p j e in
        let (m, r) = update-Moved s' t p i' u in
        let old = Moved-Covers tree is_tree cert good s' i' t (Voted s) m covers in
        record {
          local = Moved-IsLocal tree is_tree cert good s' i' t m;
          covers = λ v b1 b0 k e1 e0. elim (Voted-vote s p proposer v (rw m.advances.voted at k)) [
            | inl before ↦ old v b1 b0 before e1 e0
            | inr at ↦ update-covers s' t p b1 b0 i' known m r (rw at at e1) e0
          ];
          grows = record {
            kept = λ v k. rw m.advances.voted (Voted-vote_old s p proposer v k);
            higher = λ v k. elim (Voted-vote s p proposer v (rw m.advances.voted at k)) [
              | inl before ↦ inl before
              | inr at ↦ inr λ w l.
                  let level : (tree v).height ≡ (tree p).height = ap (λ y. (tree y).height) at in
                  omega (arith, level, i.top w l, safe.0, (i.view p known).height)
            ];
          };
        }

    proposal-IsStep :
        (s t : Core) (p proposer : Ptr)
        → IsLocal tree cert good s
        → Covers tree s (Voted s)
        → (s.heap p).justify ≢ none
        → (tree p).height < 2 ^ 32
        → on_receive_proposal s p proposer ≡ ok t
        → IsStep tree cert good s t
    proposal-IsStep s t p proposer i covers has_justify short r =
        elim (Option-cases (s.heap p).justify) [
          | inl e ↦ absurd (has_justify e)
          | inr (j, e) ↦
              let (agrees, o, u) = on_receive_proposal-ok s t p proposer r in
              by_verdict j e agrees o u
        ]
      where
        by_verdict :
            (j : Ptr)
            → (s.heap p).justify ≡ some j
            → (agrees : Bool) → opinion s p ≡ ok agrees
            → update (voted s p proposer agrees) p ≡ ok t
            → IsStep tree cert good s t
        by_verdict j e false o u = Moved-IsStep s t i covers (update-Moved s t p i u).0
        by_verdict j e true o u =
            let (verdict, o', exact) = opinion-Decides s p j i.sound.forest e in
            let same : verdict ≡ true = ok-injective (sym o' ∙ o) in
            granted-IsStep s t p j proposer i covers e short (exact.0 same) u

    pub Move-IsStep :
        (s t : Core)
        → IsLocal tree cert good s
        → Covers tree s (Voted s)
        → Move tree cert s t
        → IsStep tree cert good s t
    Move-IsStep s t i covers (hears_vote vote b voter r) =
        Moved-IsStep s t i covers (vote-Moved s t vote b voter r)
    Move-IsStep s t i covers (hears_proposal p proposer has_justify short r) =
        proposal-IsStep s t p proposer i covers has_justify short r
    Move-IsStep s t i covers (receives p b j fresh admitted e) = rw e (record {
      local = insert-IsLocal tree cert good s p b j fresh admitted i;
      covers = covers;
      grows = record { kept = λ v k. k; higher = λ v k. inl k };
    })
