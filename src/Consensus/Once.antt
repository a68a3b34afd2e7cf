-- ===== src/Consensus/Once.antt =====
-- Votes rise: a replica votes at most once at a height.
use mathlib.Core.Path.{subst}
use hotstuff.Prelude.{
  ℕ, ◌<◌, ◌^◌, ◌≡◌, ◌≢◌, refl, inl, inr, Bool, none, true, false, List, [], ◌∷◌, ◌++◌, arith, ◌==◌,
  ==_iff, Bool-cases, has, ok,
}
use hotstuff.Foreign.{Foreign}
use hotstuff.Config.{ReplicaConfig}
use hotstuff.Block.{Ptr, Block, Heap, write}
use hotstuff.Block.Tree.{IsSameTree}
use hotstuff.Consensus.Calls.{votes}
use hotstuff.Consensus.Advance.{Advances}
use hotstuff.Consensus.Rule.{opinion-lt, votes-vote}
use hotstuff.Consensus.Run.{IsSound, voted, proposal-Advances}
use hotstuff.Consensus.Reach.{
  IsFresh, Step, votes_for, proposes, inserts, Reach, here, next, insert-other, Reach-IsSound,
  init-IsSound,
}
use hotstuff.Consensus.Votes.{on_receive_vote-Advances}
use hotstuff.Consensus.{Core, init, call, vote, opinion}

-- The heights of the blocks rise strictly from above `lo`, and the last of them is `hi`; `lo` is if
-- there is none.
abbrev pub Rises : Heap → ℕ → List Ptr → ℕ → Type 0
Rises h lo [] hi = lo ≡ hi
Rises h lo (x ∷ xs) hi = (lo < (h x).height) × Rises h (h x).height xs hi

Rises-append :
    (h : Heap) (lo : ℕ) (xs : List Ptr) (hi : ℕ) (x : Ptr)
    → Rises h lo xs hi
    → hi < (h x).height
    → Rises h lo (xs ++ x ∷ []) (h x).height
Rises-append h lo [] hi x r k = (omega (arith, r, k), refl)
Rises-append h lo (y ∷ xs) hi x (k, r) j = (k, Rises-append h (h y).height xs hi x r j)

Rises-tree :
    (h g : Heap) (lo : ℕ) (xs : List Ptr) (hi : ℕ)
    → IsSameTree h g
    → Rises h lo xs hi
    → Rises g lo xs hi
Rises-tree h g lo [] hi same r = r
Rises-tree h g lo (x ∷ xs) hi same (k, r) =
    rw (same x).height (k, Rises-tree h g (h x).height xs hi same r)

-- Every height fits the 32 bits of `vheight`.
abbrev pub IsShort : Heap → Type 0
IsShort h = (p : Ptr) → (h p).height < 2 ^ 32

module _ ⦃f : Foreign⦄ where
  insert-Rises :
      (s : Core) (p : Ptr) (b : Block) (lo : ℕ) (xs : List Ptr) (hi : ℕ)
      → has p xs ≡ false
      → Rises s.heap lo xs hi
      → Rises (write s.heap p b) lo xs hi
  insert-Rises s p b lo [] hi new r = r
  insert-Rises s p b lo (x ∷ xs) hi new (k, r) =
      let other : p ≢ x = ground arith in
      rw (insert-other s.heap p b x other)
        (k, insert-Rises s p b (s.heap x).height xs hi (ground arith) r)

  abbrev VotesRise : Core → Type 0
  VotesRise s = Rises s.heap 0 (votes s.calls) s.vheight

  Advances-VotesRise : (s t : Core) → Advances s t → VotesRise s → VotesRise t
  Advances-VotesRise s t a r =
      rw (a.voted, a.vheight) (Rises-tree s.heap t.heap 0 (votes s.calls) s.vheight a.same r)

  vheight-vote :
      (s : Core) (p proposer : ℕ)
      → (s.heap p).height < 2 ^ 32
      → (s.heap p).height ≡ (vote s p proposer).vheight
  unfolding vote call
  vheight-vote s p proposer short = omega arith

  heap-vote : (s : Core) (p proposer : ℕ) → (vote s p proposer).heap ≡ s.heap
  unfolding vote call
  heap-vote s p proposer = refl

  vote-VotesRise :
      (s : Core) (p proposer : ℕ)
      → s.vheight < (s.heap p).height
      → (s.heap p).height < 2 ^ 32
      → VotesRise s
      → VotesRise (vote s p proposer)
  vote-VotesRise s p proposer above short r =
      rw (votes-vote, heap-vote)
        (subst (Rises s.heap 0 (votes s.calls ++ p ∷ [])) (vheight-vote s p proposer short)
          (Rises-append s.heap 0 (votes s.calls) s.vheight p r above))

  voted-VotesRise :
      (s : Core) (p proposer : ℕ) (agrees : Bool)
      → opinion s p ≡ ok agrees
      → (s.heap p).height < 2 ^ 32
      → VotesRise s
      → VotesRise (voted s p proposer agrees)
  voted-VotesRise s p proposer true o short r =
      vote-VotesRise s p proposer (opinion-lt s p o) short r
  voted-VotesRise s p proposer false o short r = r

  voted-heap :
      (s : Core) (p proposer : ℕ) (agrees : Bool) → (voted s p proposer agrees).heap ≡ s.heap
  voted-heap s p proposer true = heap-vote s p proposer
  voted-heap s p proposer false = refl

  tree-IsShort : (h g : Heap) → IsSameTree h g → IsShort g → IsShort h
  tree-IsShort h g same short p = rw (← (same p).height) (short p)

  insert-IsShort :
      (s : Core) (p : Ptr) (b : Block)
      → IsSound s
      → IsFresh s p b
      → IsShort (write s.heap p b)
      → IsShort s.heap
  insert-IsShort s p b i new short x = elim (Bool-cases (p == x)) [
    | inl e ↦
        let at : p ≡ x = (==_iff p x).0 e in
        rw (i.forest.rooted x (subst (λ y. (s.heap y).parent ≡ none) at new.unlinked)) (omega arith)
    | inr e ↦ rw (← insert-other s.heap p b x (λ at. ground arith)) (short x)
  ]

  Step-IsShort : {s t : Core} → Step s t → IsSound s → IsShort t.heap → IsShort s.heap
  Step-IsShort {s} {t} (votes_for cert b voter r) i short =
      tree-IsShort s.heap t.heap (on_receive_vote-Advances s t cert b voter r).same short
  Step-IsShort {s} {t} (proposes p proposer r) i short =
      let (agrees, o, a) = proposal-Advances s t p proposer i r in
      rw (← voted-heap s p proposer agrees) (tree-IsShort _ t.heap a.same short)
  Step-IsShort {s} (inserts p b new e) i short =
      insert-IsShort s p b i new (subst (λ (u : Core). IsShort u.heap) e short)

  Step-VotesRise : {s t : Core} → Step s t → IsSound s → IsShort s.heap → VotesRise s → VotesRise t
  Step-VotesRise {s} {t} (votes_for cert b voter r) i short v =
      Advances-VotesRise s t (on_receive_vote-Advances s t cert b voter r) v
  Step-VotesRise {s} {t} (proposes p proposer r) i short v =
      let (agrees, o, a) = proposal-Advances s t p proposer i r in
      Advances-VotesRise (voted s p proposer agrees) t a
        (voted-VotesRise s p proposer agrees o (short p) v)
  Step-VotesRise {s} (inserts p b new e) i short v =
      rw e (insert-Rises s p b 0 (votes s.calls) s.vheight new.not_voted v)

  Reach-VotesRise :
      {s t : Core} → Reach s t → IsSound s → IsShort t.heap → VotesRise s → VotesRise t
  Reach-VotesRise here i short v = v
  Reach-VotesRise (next r st) i short v =
      let i' = Reach-IsSound r i in
      let short' = Step-IsShort st i' short in
      Step-VotesRise st i' short' (Reach-VotesRise r i short' v)

  init-VotesRise : (config : ReplicaConfig) (self_id : ℕ) → VotesRise (init config self_id)
  unfolding init votes
  init-VotesRise config self_id = omega arith

  -- As long as all heights fit 32 bits, the blocks that a replica votes for rise strictly in
  -- height, from above zero, and the height of the last of them is `vheight`, which is zero before
  -- the first vote; so it never votes twice at a height.
  pub run-VotesRise :
      (config : ReplicaConfig) (self_id : ℕ) (t : Core)
      → Reach (init config self_id) t
      → IsShort t.heap
      → Rises t.heap 0 (votes t.calls) t.vheight
  run-VotesRise config self_id t r short =
      Reach-VotesRise r (init-IsSound config self_id) short (init-VotesRise config self_id)
