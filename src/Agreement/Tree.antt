-- ===== src/Agreement/Tree.antt =====
-- The tree of all blocks that are proposed, and its chains.
use mathlib.Core.Path.{subst}
use hotstuff.Prelude.{
  ℕ, zero, suc, ◌≤◌, ◌<◌, ◌≡◌, refl, sym, ◌∙◌, ap, inl, inr, none, some, List, [], ◌∷◌, ◌++◌, arith,
  Option-cases,
}
use hotstuff.Block.{Ptr, Heap, genesis_block}
use hotstuff.Block.Tree.{
  IsForest, IsSameNode, Extends, here, up, Extends-height, Chain, Chain-append, Chain-Extends,
  Chain-length,
}

-- The genesis block at address 0 is the only root. A block descends from the block that its
-- certificate is on: honest proposers see to that, and no code checks it.
pub record IsTree (h : Heap) : Type 0 where
  pub forest : IsForest h
  pub genesis : IsSameNode (h 0) genesis_block
  pub root : (p : Ptr) → (h p).parent ≡ none → p ≡ 0
  pub linear :
      (p j : Ptr) → (h p).justify ≡ some j → (q : Ptr) × ((h p).parent ≡ some q) × Extends h j q

module _ (h : Heap) (tree : IsTree h) where
  pub genesis_root : (h 0).parent ≡ none
  unfolding genesis_block
  genesis_root = sym tree.genesis.parent

  pub genesis_height : (h 0).height ≡ 0
  unfolding genesis_block
  genesis_height = sym tree.genesis.height

  pub root_of_height : (p : Ptr) → (h p).height ≡ 0 → p ≡ 0
  root_of_height p low = elim (Option-cases (h p).parent) [
    | inl e ↦ tree.root p e
    | inr (q, e) ↦ absurd (omega (arith, tree.forest.linked p q e, low))
  ]

  pub Extends-root : (n : ℕ) (p : Ptr) → (h p).height ≤ n → Extends h 0 p
  Extends-root zero p low = let at : p ≡ 0 = root_of_height p (omega (arith, low)) in rw at here
  Extends-root (suc n) p low = elim (Option-cases (h p).parent) [
    | inl e ↦ let at : p ≡ 0 = tree.root p e in rw at here
    | inr (q, e) ↦ up e (Extends-root n q (omega (arith, tree.forest.linked p q e, low)))
  ]

  -- A certificate names a lower block, which its block descends from.
  pub justify-Extends :
      (p j : Ptr) → (h p).justify ≡ some j → Extends h j p × ((h j).height < (h p).height)
  justify-Extends p j e =
      let (q, link, x) = tree.linear p j e in
      (up link x, omega (arith, tree.forest.linked p q link, Extends-height tree.forest x))

-- Ancestors of one height are the same.
pub Extends-unique :
    (h : Heap) (a b p : Ptr)
    → IsForest h
    → Extends h a p
    → Extends h b p
    → (h a).height ≡ (h b).height
    → a ≡ b
Extends-unique h a b p forest here here e = refl
Extends-unique h a b p forest here (up {q} k y) e =
    absurd (omega (arith, forest.linked p q k, Extends-height forest y, e))
Extends-unique h a b p forest (up {q} k x) here e =
    absurd (omega (arith, forest.linked p q k, Extends-height forest x, e))
Extends-unique h a b p forest (up {q} k x) (up {q = r} l y) e =
    let at : r ≡ q = cc in Extends-unique h a b q forest x (subst (Extends h b) at y) e

-- Two chains with the same ends are the same.
Chain-unique :
    (h : Heap) (a b : Ptr) (xs ys : List Ptr)
    → IsForest h
    → Chain h a xs b
    → Chain h a ys b
    → xs ≡ ys
Chain-unique h a b [] [] forest x y = refl
Chain-unique h a b [] (y ∷ ys) forest e (k, rest) = absurd (
    omega (arith, forest.linked y a k, Chain-length h y ys b forest rest, ap (λ p. (h p).height) e))
Chain-unique h a b (x ∷ xs) [] forest (k, rest) e = absurd (
    omega (arith, forest.linked x a k, Chain-length h x xs b forest rest, ap (λ p. (h p).height) e))
Chain-unique h a b (x ∷ xs) (y ∷ ys) forest (k, rest) (l, rest') =
    let at : x ≡ y =
      Extends-unique h x y b forest (Chain-Extends h x xs b rest) (Chain-Extends h y ys b rest')
        (forest.linked x a k ∙ sym (forest.linked y a l)) in
    let same = Chain-unique h y b xs ys forest (subst (λ p. Chain h p xs b) at rest) rest' in
    rw (at, same) refl

Extends-Chain : (h : Heap) (a b : Ptr) → Extends h a b → (xs : List Ptr) × Chain h a xs b
Extends-Chain h a b here = ([], refl)
Extends-Chain h a b (up {q} k x) =
    let (xs, c) = Extends-Chain h a q x in
    (xs ++ b ∷ [], Chain-append h a xs q (b ∷ []) b c (k, refl))

-- The chain to an ancestor is the first part of the chain to the block.
pub Chain-prefix :
    (h : Heap) (r a b : Ptr) (xs ys : List Ptr)
    → IsForest h
    → Extends h a b
    → Chain h r xs a
    → Chain h r ys b
    → (zs : List Ptr) × (ys ≡ xs ++ zs)
Chain-prefix h r a b xs ys forest x c d =
    let (zs, e) = Extends-Chain h a b x in
    (zs, Chain-unique h r b ys (xs ++ zs) forest d (Chain-append h r xs a zs b c e))
