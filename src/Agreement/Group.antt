-- ===== src/Agreement/Group.antt =====
-- The replicas of a group, whose moves interleave, and what holds of all of them at any time.
use hotstuff.Prelude.{
  ℕ, ◌≡◌, refl, ◌⊎◌, inl, inr, Bool, arith, ==_iff, ◌==◌, if◌then◌else◌, if_cases,
}
use hotstuff.Foreign.{Foreign}
use hotstuff.Config.{ReplicaInfo, ReplicaConfig, finish_init}
use hotstuff.Block.{Ptr, Heap, genesis_block}
use hotstuff.Consensus.Calls.{votes}
use hotstuff.Consensus.Reach.{init-IsSound}
use hotstuff.Consensus.{Core, init}
use hotstuff.Agreement.Quorums.{Quorum, Quorum-split, Quorum-map}
use hotstuff.Agreement.Tree.{IsTree}
use hotstuff.Agreement.Local.{Voted, IsGoodVote, IsGoodVote-map, Covers, IsLocal, IsLocal-map}
use hotstuff.Agreement.Moves.{Move}
use hotstuff.Agreement.Steps.{Grows, IsStep, Move-IsStep}

-- The state of each replica, by its id.
abbrev pub Group : Type 0
Group = ℕ → Core

abbrev pub put : Group → ℕ → Core → Group
put g r t q = if r == q then t else g q

module _ (config : ReplicaConfig) (honest : ReplicaInfo → Bool) where
  -- A quorum has signed the block; its honest members have voted for it.
  abbrev pub IsCertified : Group → Ptr → Type 0
  IsCertified g x = Quorum config honest (λ info. Voted (g info.id) x)

  module _ ⦃f : Foreign⦄ (tree : Heap) where
    -- What a group can come to: any replica makes any of its moves, one at a time.
    pub data GroupReach : Group → Type 0 where
      start : GroupReach (λ r. init (finish_init config) r)
      moves :
          {g : Group} (r : ℕ) {t : Core}
          → GroupReach g
          → Move tree (IsCertified g) (g r) t
          → GroupReach (put g r t)

    -- A quorum has voted for the block by the rule.
    abbrev pub IsGood : Group → Ptr → Type 0
    IsGood g x =
        Quorum config honest
          (λ info. Voted (g info.id) x × IsGoodVote tree (IsCertified g) (Voted (g info.id)) x)

    abbrev pub IsGroup : Group → Type 0
    IsGroup g =
        (r : ℕ) → IsLocal tree (IsCertified g) (IsGood g) (g r) × Covers tree (g r) (Voted (g r))

    -- The votes of a certificate are good, or one of them was cast for a block with good ones.
    pub certified-IsGood : (g : Group) → IsGroup g → (x : Ptr) → IsCertified g x → IsGood g x
    certified-IsGood g i x c =
        elim (Quorum-split config honest _ _ (IsGood g x) (λ info k. by_vote info k) c) [
          | inl good ↦ good
          | inr good ↦ good
        ]
      where
        by_vote :
            (info : ReplicaInfo)
            → Voted (g info.id) x
            → (Voted (g info.id) x × IsGoodVote tree (IsCertified g) (Voted (g info.id)) x)
              ⊎ IsGood g x
        by_vote info k = elim ((i info.id).0.rule x k) [
          | inl rule ↦ inl (k, rule)
          | inr good ↦ inr good
        ]

    -- A good vote stays good while higher ones are cast.
    Grows-IsGoodVote :
        (cert : Ptr → Type 0) (s t : Core) (x : Ptr)
        → Grows tree s t
        → Voted s x
        → IsGoodVote tree cert (Voted s) x
        → IsGoodVote tree cert (Voted t) x
    Grows-IsGoodVote cert s t x grows k g v b1 b0 l lt e1 e0 = elim (grows.higher v l) [
      | inl old ↦ g v b1 b0 old lt e1 e0
      | inr above ↦ absurd (omega (arith, above x k, lt))
    ]

    put-Grows :
        (g : Group) (r : ℕ) (t : Core)
        → Grows tree (g r) t
        → (q : ℕ) → Grows tree (g q) (put g r t q)
    put-Grows g r t grows q =
        if_cases (Grows tree (g q)) (r == q)
          (λ e. let at : r ≡ q = (==_iff r q).0 e in rw (← at) grows)
          (λ e. record { kept = λ v k. k; higher = λ v k. inl k })

    put-IsCertified :
        (g : Group) (r : ℕ) (t : Core)
        → Grows tree (g r) t
        → (x : Ptr) → IsCertified g x
        → IsCertified (put g r t) x
    put-IsCertified g r t grows x c =
        Quorum-map config honest _ _ (λ info k. (put-Grows g r t grows info.id).kept x k) c

    put-IsGood :
        (g : Group) (r : ℕ) (t : Core)
        → Grows tree (g r) t
        → (x : Ptr) → IsGood g x
        → IsGood (put g r t) x
    put-IsGood g r t grows x c = Quorum-map config honest _ _ (λ info k. by_vote info k.0 k.1) c
      where
        by_vote :
            (info : ReplicaInfo)
            → Voted (g info.id) x
            → IsGoodVote tree (IsCertified g) (Voted (g info.id)) x
            → Voted (put g r t info.id) x
              × IsGoodVote tree (IsCertified (put g r t)) (Voted (put g r t info.id)) x
        by_vote info k good =
            let more = put-Grows g r t grows info.id in
            (
              more.kept x k,
              IsGoodVote-map tree _ _ _ x (put-IsCertified g r t grows)
                  (Grows-IsGoodVote (IsCertified g) (g info.id) (put g r t info.id) x more k good),
            )

    put-IsGroup :
        (g : Group) (r : ℕ) (t : Core)
        → IsGroup g
        → IsStep tree (IsCertified g) (IsGood g) (g r) t
        → IsGroup (put g r t)
    put-IsGroup g r t i step q =
        if_cases
          (λ (s : Core).
            IsLocal tree (IsCertified (put g r t)) (IsGood (put g r t)) s × Covers tree s (Voted s))
          (r == q) (λ e. after t step.local step.covers) (λ e. after (g q) (i q).0 (i q).1)
      where
        after :
            (s : Core)
            → IsLocal tree (IsCertified g) (IsGood g) s
            → Covers tree s (Voted s)
            → IsLocal tree (IsCertified (put g r t)) (IsGood (put g r t)) s
              × Covers tree s (Voted s)
        after s local covers = (
          IsLocal-map tree (IsCertified g) (IsCertified (put g r t)) (IsGood g) (IsGood (put g r t))
              s (put-IsCertified g r t step.grows) (put-IsGood g r t step.grows) local,
          covers,
        )

    init-IsGroup : IsTree tree → IsGroup (λ r. init (finish_init config) r)
    unfolding init genesis_block votes
    init-IsGroup is_tree r = (
      record {
        sound = init-IsSound (finish_init config) r;
        genesis = refl;
        view = λ p k. elim k [ inl at ↦ rw at is_tree.genesis | inr n ↦ absurd (n refl) ];
        blank = λ p e. refl;
        closed = λ p j e. cc;
        certified = λ p j e. cc;
        lock_known = inl refl;
        lock_certified = inl refl;
        low = λ x d. omega arith;
        exec = inl refl;
        voted_known = λ v k. cc;
        top = λ v k. cc;
        once = λ v w k l e. cc;
        rule = λ x k. cc;
      },
      λ v b1 b0 k e1 e0. cc,
    )

    pub GroupReach-IsGroup : (g : Group) → IsTree tree → GroupReach g → IsGroup g
    GroupReach-IsGroup g is_tree start = init-IsGroup is_tree
    GroupReach-IsGroup g is_tree (moves {g = g0} r {t} before move) =
        let i = GroupReach-IsGroup g0 is_tree before in
        put-IsGroup g0 r t i
          (Move-IsStep tree is_tree _ _ (certified-IsGood g0 i) (g0 r) t (i r).0 (i r).1 move)
