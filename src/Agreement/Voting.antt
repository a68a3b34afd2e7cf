-- ===== src/Agreement/Voting.antt =====
-- A vote by the voting rule keeps to what a group relies on.
use hotstuff.Prelude.{
  ℕ, ◌≤◌, ◌<◌, ◌%◌, ◌^◌, ◌≡◌, refl, sym, ◌∙◌, ap, ◌⊎◌, inl, inr, true, some, List, [], ◌∷◌, ◌++◌,
  arith, has, ltb, ltb→lt, ltb→le, Bool-cases, ◌==◌,
}
use hotstuff.Foreign.{Foreign}
use hotstuff.Block.{Ptr, Heap}
use hotstuff.Block.Tree.{Extends, here, up, Extends-eq}
use hotstuff.Consensus.Calls.{votes}
use hotstuff.Consensus.Rule.{IsSafeToVote, votes-vote}
use hotstuff.Consensus.Run.{vote-IsSound}
use hotstuff.Consensus.{Core, call, vote}
use hotstuff.Agreement.Tree.{IsTree, genesis_height, justify-Extends}
use hotstuff.Agreement.Local.{Voted, IsGoodVote, Covers, IsLocal}
use hotstuff.Agreement.Moved.{tree_parent, tree_justify, justified-Known}

has-snoc : (v p : ℕ) (vs : List ℕ) → has v (vs ++ p ∷ []) ≡ true → (has v vs ≡ true) ⊎ (v ≡ p)
has-snoc v p [] e = inr (ground arith)
has-snoc v p (x ∷ vs) e = elim (Bool-cases (x == v)) [
  | inl found ↦ inl (rw found refl)
  | inr there ↦ elim (has-snoc v p vs (rw there at e)) [
    | inl old ↦ inl (rw there old)
    | inr new ↦ inr new
  ]
]

has-snoc_old : (v p : ℕ) (vs : List ℕ) → has v vs ≡ true → has v (vs ++ p ∷ []) ≡ true
has-snoc_old v p [] e = cc
has-snoc_old v p (x ∷ vs) e = elim (Bool-cases (x == v)) [
  | inl found ↦ rw found refl
  | inr there ↦ rw there (has-snoc_old v p vs (rw there at e))
]

module _ ⦃f : Foreign⦄ where
  pub Voted-vote :
      (s : Core) (p proposer v : Ptr) → Voted (vote s p proposer) v → Voted s v ⊎ (v ≡ p)
  Voted-vote s p proposer v e = has-snoc v p (votes s.calls) (rw (votes-vote s p proposer) at e)

  pub Voted-vote_old : (s : Core) (p proposer v : Ptr) → Voted s v → Voted (vote s p proposer) v
  Voted-vote_old s p proposer v e =
      rw (votes-vote s p proposer) (has-snoc_old v p (votes s.calls) e)

  module _ (tree : Heap) (is_tree : IsTree tree) (cert good : Ptr → Type 0) (s : Core)
      (i : IsLocal tree cert good s) (covers : Covers tree s (Voted s))
      (cert_good : (x : Ptr) → cert x → good x) (p j : Ptr) (has_j : (s.heap p).justify ≡ some j)
      (short : (tree p).height < 2 ^ 32) where
    tree_Extends : (a b : Ptr) → Extends s.heap a b → Extends tree a b
    tree_Extends a b here = here
    tree_Extends a b (up {q} e x) =
        up (tree_parent tree is_tree cert good s i b q e) (tree_Extends a q x)

    p_height : (s.heap p).height ≡ (tree p).height
    p_height = (i.view p (justified-Known s.heap p j has_j)).height

    lock_height : (s.heap s.b_lock).height ≡ (tree s.b_lock).height
    lock_height = (i.view s.b_lock i.lock_known).height

    -- What the voting rule grants.
    pub new_vote : IsSafeToVote s p j → IsGoodVote tree cert (Voted s) p ⊎ good p
    new_vote (higher, inl above) = inl λ v b1 b0 k lt e1 e0.
        let (x, lower) =
          justify-Extends tree is_tree p j (tree_justify tree is_tree cert good s i p j has_j) in
        let j_height = (i.view j (i.closed p j has_j)).height in
        (
          j,
          record {
            no_lower = omega (arith, covers v b1 b0 k e1 e0, above, lock_height, j_height);
            lower = lower;
            ancestor = x;
            certified = i.certified p j has_j;
          },
        )
    new_vote (higher, inr under) = elim (Bool-cases (ltb (tree s.b_lock).height (tree p).height)) [
      | inl lower ↦ inl λ v b1 b0 k lt e1 e0. (
        s.b_lock,
        record {
          no_lower = covers v b1 b0 k e1 e0;
          lower = ltb→lt _ _ lower;
          ancestor = tree_Extends s.b_lock p under;
          certified = i.lock_certified;
        },
      )
      | inr level ↦
          let at : s.b_lock ≡ p =
            Extends-eq is_tree.forest (tree_Extends s.b_lock p under) (ltb→le _ _ level) in
          elim i.lock_certified [
            | inl root ↦
                let low : (tree p).height ≡ (tree 0).height =
                  ap (λ x. (tree x).height) (sym at ∙ root) in
                absurd (omega (arith, higher, p_height, low, genesis_height tree is_tree))
            | inr signed ↦ inr (rw at at (cert_good s.b_lock signed))
          ]
    ]

    -- The casting of a vote that the rule grants.
    module _ (proposer : Ptr) (granted : IsSafeToVote s p j) where
      abbrev cast : Core
      cast = vote s p proposer

      short_height : (s.heap p).height % 2 ^ 32 ≡ (tree p).height
      short_height = omega (arith, p_height, short)

      Voted-lower : (v : Ptr) → Voted s v → (tree v).height < (tree p).height
      Voted-lower v k = omega (arith, i.top v k, granted.0, p_height)

      still_good :
          (x : Ptr)
          → (tree x).height ≤ (tree p).height
          → IsGoodVote tree cert (Voted s) x
          → IsGoodVote tree cert (Voted cast) x
      still_good x low g v b1 b0 k lt e1 e0 = elim (Voted-vote s p proposer v k) [
        | inl old ↦ g v b1 b0 old lt e1 e0
        | inr new ↦
            let level : (tree v).height ≡ (tree p).height = ap (λ y. (tree y).height) new in
            absurd (omega (arith, level, lt, low))
      ]

      cast-top : (v : Ptr) → Voted cast v → (tree v).height ≤ (s.heap p).height % 2 ^ 32
      cast-top v k = elim (Voted-vote s p proposer v k) [
        | inl old ↦ omega (arith, Voted-lower v old, short_height)
        | inr new ↦
            let level : (tree v).height ≡ (tree p).height = ap (λ y. (tree y).height) new in
            omega (arith, level, short_height)
      ]

      cast-once :
          (v w : Ptr) → Voted cast v → Voted cast w → (tree v).height ≡ (tree w).height → v ≡ w
      cast-once v w k l e = elim (Voted-vote s p proposer v k) [
        | inl old ↦ elim (Voted-vote s p proposer w l) [
          | inl old' ↦ i.once v w old old' e
          | inr new ↦
              let level : (tree w).height ≡ (tree p).height = ap (λ y. (tree y).height) new in
              absurd (omega (arith, level, e, Voted-lower v old))
        ]
        | inr new ↦ elim (Voted-vote s p proposer w l) [
          | inl old ↦
              let level : (tree v).height ≡ (tree p).height = ap (λ y. (tree y).height) new in
              absurd (omega (arith, level, e, Voted-lower w old))
          | inr new' ↦ new ∙ sym new'
        ]
      ]

      cast-rule : (x : Ptr) → Voted cast x → IsGoodVote tree cert (Voted cast) x ⊎ good x
      cast-rule x k = elim (Voted-vote s p proposer x k) [
        | inl old ↦ elim (i.rule x old) [
          | inl g ↦ inl (still_good x (omega (arith, Voted-lower x old)) g)
          | inr g ↦ inr g
        ]
        | inr new ↦ elim (new_vote granted) [
          | inl g ↦ inl (rw new (still_good p (omega arith) g))
          | inr g ↦ inr (rw new g)
        ]
      ]

      pub vote-IsLocal : IsLocal tree cert good cast
      unfolding vote call
      vote-IsLocal = record {
        sound = vote-IsSound s p proposer i.sound;
        genesis = i.genesis;
        view = i.view;
        blank = i.blank;
        closed = i.closed;
        certified = i.certified;
        lock_known = i.lock_known;
        lock_certified = i.lock_certified;
        low = i.low;
        exec = i.exec;
        voted_known = λ v k. elim (Voted-vote s p proposer v k) [
          | inl old ↦ i.voted_known v old
          | inr new ↦ rw new (justified-Known s.heap p j has_j)
        ];
        top = cast-top;
        once = cast-once;
        rule = cast-rule;
      }
