-- ===== src/Consensus/Walk.antt =====
-- The two loops of `consensus.cc` that walk along the parent pointers.
use mathlib.Core.List.{reverse, reverse-cons}
use mathlib.Core.Path.{subst}
use hotstuff.Prelude.{
  ℕ, zero, suc, ◌≤◌, ◌<◌, ◌≡◌, refl, false, some, inl, inr, List, [], ◌∷◌, arith, ltb, ltb→lt,
  ltb→le, Bool-cases, Option-cases, ok,
}
use hotstuff.Block.{Ptr, Heap}
use hotstuff.Block.Tree.{IsForest, Extends, here, up, Chain, Chain-append}
use hotstuff.Consensus.{collect, descend}

-- An ancestor of `b` that lies below `b` is an ancestor of its parent.
below-Extends :
    {h : Heap} {r b parent : Ptr} (floor : ℕ)
    → floor < (h b).height
    → (h b).parent ≡ some parent
    → Extends h r b
    → (h r).height ≤ floor
    → Extends h r parent
below-Extends floor high e here k = absurd (omega arith)
below-Extends {h} {r} floor high e (up e' x) k = subst (Extends h r) (cc) x

-- What the loop that gathers the queue returns: a chain, newest block first, down to `last`.
pub record IsQueue (h : Heap) (b : Ptr) (floor : ℕ) (queue : List Ptr) (last : Ptr) : Type 0 where
  pub chain : Chain h last (reverse queue) b
  pub reached : (h last).height ≤ floor
  pub top : (r : Ptr) → Extends h r b → (h r).height ≤ floor → Extends h r last

one-IsQueue :
    (h : Heap) (b : Ptr) (floor : ℕ) → ltb floor (h b).height ≡ false → IsQueue h b floor [] b
one-IsQueue h b floor e = record {
  chain = refl;
  reached = ltb→le floor (h b).height e;
  top = λ r x k. x;
}

more-IsQueue :
    (h : Heap) (b parent : Ptr) (floor : ℕ) (queue : List Ptr) (last : Ptr)
    → (h b).parent ≡ some parent
    → floor < (h b).height
    → IsQueue h parent floor queue last
    → IsQueue h b floor (b ∷ queue) last
more-IsQueue h b parent floor queue last e high q = record {
  chain =
      rw (reverse-cons b queue)
        (Chain-append h last (reverse queue) parent (b ∷ []) b q.chain (e, refl));
  reached = q.reached;
  top = λ r x k. q.top r (below-Extends floor high e x k) k;
}

-- With fuel above the height of the block the loop ends, on a forest.
pub collect-IsQueue :
    (fuel : ℕ) (h : Heap) (b : Ptr) (floor : ℕ)
    → IsForest h
    → (h b).height < fuel
    → (queue : List Ptr) × (last : Ptr) × (collect fuel h b floor ≡ ok (queue, last))
      × IsQueue h b floor queue last
unfolding collect
collect-IsQueue zero h b floor forest enough = absurd (omega arith)
collect-IsQueue (suc fuel) h b floor forest enough = elim (Bool-cases (ltb floor (h b).height)) [
  | inr low ↦ ([], b, rw low, one-IsQueue h b floor low)
  | inl high ↦ elim (Option-cases (h b).parent) [
    | inl e ↦ absurd (omega (arith, forest.rooted b e, ltb→lt floor (h b).height high))
    | inr (parent, e) ↦
        let (queue, last, r, q) =
          collect-IsQueue fuel h parent floor forest (omega (arith, forest.linked b parent e)) in
        (
          b ∷ queue,
          last,
          rw (high, e, r),
          more-IsQueue h b parent floor queue last e (ltb→lt floor (h b).height high) q,
        )
  ]
]

-- The loop of the voting rule ends at the ancestor that is no higher than the locked block.
pub descend-Extends :
    (fuel : ℕ) (h : Heap) (b : Ptr) (floor : ℕ)
    → IsForest h
    → (h b).height < fuel
    → (last : Ptr) × (descend fuel h b floor ≡ ok last)
      × Extends h last b
      × ((h last).height ≤ floor)
      × ((r : Ptr) → Extends h r b → (h r).height ≤ floor → Extends h r last)
unfolding descend
descend-Extends zero h b floor forest enough = absurd (omega arith)
descend-Extends (suc fuel) h b floor forest enough = elim (Bool-cases (ltb floor (h b).height)) [
  | inr low ↦ (b, rw low, here, ltb→le floor (h b).height low, λ r x l. x)
  | inl high ↦ elim (Option-cases (h b).parent) [
    | inl e ↦ absurd (omega (arith, forest.rooted b e, ltb→lt floor (h b).height high))
    | inr (parent, e) ↦
        let (last, r, x, l, top) =
          descend-Extends fuel h parent floor forest (omega (arith, forest.linked b parent e)) in
        (
          last,
          rw (high, e, r),
          up e x,
          l,
          λ r y k. top r (below-Extends floor (ltb→lt floor (h b).height high) e y k) k,
        )
  ]
]
