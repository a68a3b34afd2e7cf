-- ===== src/Block/Tree.antt =====
-- The parent pointers as a forest: heights, ancestors, and chains of blocks.
use hotstuff.Prelude.{
  suc, ◌+◌, ◌≤◌, ◌≡◌, ◌≢◌, refl, sym, ◌∙◌, none, some, List, [], ◌∷◌, ◌++◌, arith, length, ◌==◌,
  inl, inr, Bool-cases,
}
use hotstuff.Block.{Ptr, Block, Heap, write}

-- A block stands one above its parent, and a block without parent at height 0. A block with a
-- justifying block has the certificate that names it.
pub record IsForest (h : Heap) : Type 0 where
  pub linked : (p q : Ptr) → (h p).parent ≡ some q → (h p).height ≡ suc (h q).height
  pub rooted : (p : Ptr) → (h p).parent ≡ none → (h p).height ≡ 0
  pub certified : (p : Ptr) → (h p).justify ≢ none → (h p).parsed_qc ≢ none

-- Two states of a block that differ at most in its status: decided, written, certified.
pub record IsSameNode (a b : Block) : Type 0 where
  pub parent : b.parent ≡ a.parent
  pub height : b.height ≡ a.height
  pub justify : b.justify ≡ a.justify
  pub parsed_qc : b.parsed_qc ≡ a.parsed_qc
  pub wire : b.wire ≡ a.wire
  pub proposer : b.proposer ≡ a.proposer

abbrev pub IsSameTree : Heap → Heap → Type 0
IsSameTree h g = (p : Ptr) → IsSameNode (h p) (g p)

pub IsSameNode-refl : (b : Block) → IsSameNode b b
IsSameNode-refl b = record {
  parent = refl;
  height = refl;
  justify = refl;
  parsed_qc = refl;
  wire = refl;
  proposer = refl;
}

pub IsSameNode-trans : {a b c : Block} → IsSameNode a b → IsSameNode b c → IsSameNode a c
IsSameNode-trans x y = record {
  parent = y.parent ∙ x.parent;
  height = y.height ∙ x.height;
  justify = y.justify ∙ x.justify;
  parsed_qc = y.parsed_qc ∙ x.parsed_qc;
  wire = y.wire ∙ x.wire;
  proposer = y.proposer ∙ x.proposer;
}

pub IsSameTree-refl : (h : Heap) → IsSameTree h h
IsSameTree-refl h p = IsSameNode-refl (h p)

pub IsSameTree-trans : {h g k : Heap} → IsSameTree h g → IsSameTree g k → IsSameTree h k
IsSameTree-trans x y p = IsSameNode-trans (x p) (y p)

pub IsSameTree-sym : {h g : Heap} → IsSameTree h g → IsSameTree g h
IsSameTree-sym same p = record {
  parent = sym (same p).parent;
  height = sym (same p).height;
  justify = sym (same p).justify;
  parsed_qc = sym (same p).parsed_qc;
  wire = sym (same p).wire;
  proposer = sym (same p).proposer;
}

pub write-IsSameTree :
    (h : Heap) (p : Ptr) (b : Block) → IsSameNode (h p) b → IsSameTree h (write h p b)
unfolding write
write-IsSameTree h p b same q = elim (Bool-cases (p == q)) [
  | inl e ↦ let at : p ≡ q = ground arith in rw (e, ← at) same
  | inr e ↦ rw e (IsSameNode-refl (h q))
]

pub IsSameTree-IsForest : {h g : Heap} → IsSameTree h g → IsForest h → IsForest g
IsSameTree-IsForest same forest = record {
  linked = λ p q e.
      (same p).height ∙ forest.linked p q (sym (same p).parent ∙ e) ∙ sym (rw (same q).height);
  rooted = λ p e. (same p).height ∙ forest.rooted p (sym (same p).parent ∙ e);
  certified =
      λ p j e. forest.certified p (λ k. j ((same p).justify ∙ k)) (sym (same p).parsed_qc ∙ e);
}

-- `r` is `p` or an ancestor of `p`.
pub data Extends (h : Heap) (r : Ptr) : Ptr → Type 0 where
  here : Extends h r r
  up : {p q : Ptr} → (h p).parent ≡ some q → Extends h r q → Extends h r p

-- The blocks from the child of `a` up to `b`, each the parent of the next.
abbrev pub Chain : Heap → Ptr → List Ptr → Ptr → Type 0
Chain h a [] b = a ≡ b
Chain h a (x ∷ xs) b = ((h x).parent ≡ some a) × Chain h x xs b

pub Chain-append :
    (h : Heap) (a : Ptr) (xs : List Ptr) (b : Ptr) (ys : List Ptr) (c : Ptr)
    → Chain h a xs b
    → Chain h b ys c
    → Chain h a (xs ++ ys) c
Chain-append h a [] b ys c e k = rw e k
Chain-append h a (x ∷ xs) b ys c (e, rest) k = (e, Chain-append h x xs b ys c rest k)

pub Chain-tree :
    (h g : Heap) (a : Ptr) (xs : List Ptr) (b : Ptr)
    → IsSameTree h g
    → Chain h a xs b
    → Chain g a xs b
Chain-tree h g a [] b same e = e
Chain-tree h g a (x ∷ xs) b same (e, rest) = ((same x).parent ∙ e, Chain-tree h g x xs b same rest)

pub Extends-height :
    {h : Heap} {r p : Ptr} → IsForest h → Extends h r p → (h r).height ≤ (h p).height
Extends-height forest here = omega arith
Extends-height forest (up {p} {q} e x) = omega (arith, forest.linked p q e, Extends-height forest x)

-- No proper ancestor is as high.
pub Extends-eq :
    {h : Heap} {r p : Ptr} → IsForest h → Extends h r p → (h p).height ≤ (h r).height → r ≡ p
Extends-eq forest here k = refl
Extends-eq forest (up {p} {q} e x) k =
    absurd (omega (arith, forest.linked p q e, Extends-height forest x))

pub Extends-trans : {h : Heap} {r q p : Ptr} → Extends h r q → Extends h q p → Extends h r p
Extends-trans x here = x
Extends-trans x (up e y) = up e (Extends-trans x y)

pub Chain-Extends : (h : Heap) (a : Ptr) (xs : List Ptr) (b : Ptr) → Chain h a xs b → Extends h a b
Chain-Extends h a [] b e = rw e here
Chain-Extends h a (x ∷ xs) b (e, rest) = Extends-trans (up e here) (Chain-Extends h x xs b rest)

-- A chain is as long as the difference of the heights.
pub Chain-length :
    (h : Heap) (a : Ptr) (xs : List Ptr) (b : Ptr)
    → IsForest h
    → Chain h a xs b
    → (h b).height ≡ (h a).height + length xs
Chain-length h a [] b forest e = rw e (omega arith)
Chain-length h a (x ∷ xs) b forest (e, rest) =
    omega (arith, forest.linked x a e, Chain-length h x xs b forest rest)

pub Extends-tree : {h g : Heap} {r p : Ptr} → IsSameTree h g → Extends h r p → Extends g r p
Extends-tree same here = here
Extends-tree same (up {p} e x) = up ((same p).parent ∙ e) (Extends-tree same x)
