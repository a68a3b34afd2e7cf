-- ===== src/Block/Disk.antt =====
-- `write_to_disk`: which blocks have a file when it returns.
use hotstuff.Prelude.{
  ℕ, zero, suc, ◌<◌, ◌≡◌, ◌≢◌, refl, sym, ◌∙◌, ◌⊎◌, inl, inr, true, none, some, arith, ◌==◌,
  Bool-cases, Option-cases, Result, ok, ==_refl,
}
use hotstuff.Foreign.{Foreign}
use hotstuff.Wire.{HotstuffBlockWire}
use hotstuff.Block.{Ptr, Heap, Disk, Block, write, mark_written, save_block, write_to_disk}
use hotstuff.Block.Tree.{
  IsForest, IsSameNode, IsSameTree, IsSameTree-refl, IsSameTree-trans, IsSameTree-IsForest,
  write-IsSameTree, Extends, here, up,
}

-- The parent of a block that is marked as written is so marked too, or is `p`.
abbrev pub IsClosedBut : Heap → Ptr → Type 0
IsClosedBut h p =
    (x q : Ptr) → (h x).written ≡ true → (h x).parent ≡ some q → ((h q).written ≡ true) ⊎ (q ≡ p)

abbrev pub IsClosed : Heap → Type 0
IsClosed h = (x q : Ptr) → (h x).written ≡ true → (h x).parent ≡ some q → (h q).written ≡ true

pub IsClosed-Extends :
    {h : Heap} {r p : Ptr}
    → IsClosed h
    → Extends h r p
    → (h p).written ≡ true
    → (h r).written ≡ true
IsClosed-Extends c here w = w
IsClosed-Extends c (up {p} {q} e x) w = IsClosed-Extends c x (c p q w e)

mark_written-IsSameNode : (b : Block) → IsSameNode b (mark_written b)
unfolding mark_written
mark_written-IsSameNode b = record {
  parent = refl;
  height = refl;
  justify = refl;
  parsed_qc = refl;
  wire = refl;
  proposer = refl;
}

-- The heap after `p` is marked.
abbrev marked : Heap → Ptr → Heap
marked h p = write h p (mark_written (h p))

marked-IsSameTree : (h : Heap) (p : Ptr) → IsSameTree h (marked h p)
marked-IsSameTree h p = write-IsSameTree h p _ (mark_written-IsSameNode (h p))

module _ (h : Heap) (p x : Ptr) where
  marked-written : (marked h p x).written ≡ true → ((h x).written ≡ true) ⊎ (p ≡ x)
  unfolding write mark_written
  marked-written w = ground arith

  marked_self : (marked h x x).written ≡ true
  unfolding write mark_written
  marked_self = ground arith

  marked-keeps : (h x).written ≡ true → (marked h p x).written ≡ true
  unfolding write mark_written
  marked-keeps w = ground arith

  marked-decided : (marked h p x).decided ≡ (h x).decided
  unfolding write mark_written
  marked-decided = ground arith

marked-IsClosed :
    (h : Heap) (p : Ptr) → (h p).parent ≡ none → IsClosedBut h p → IsClosed (marked h p)
marked-IsClosed h p root c x q w e = elim (marked-written h p x w) [
  | inl old ↦ elim (c x q old (sym (marked-IsSameTree h p x).parent ∙ e)) [
    | inl wq ↦ marked-keeps h p q wq
    | inr at ↦ rw at (marked_self h p p)
  ]
  | inr at ↦ cc (rw at at root, (marked-IsSameTree h p x).parent)
]

marked-IsClosedBut :
    (h : Heap) (p parent : Ptr)
    → (h p).parent ≡ some parent
    → IsClosedBut h p
    → IsClosedBut (marked h p) parent
marked-IsClosedBut h p parent link c x q w e = elim (marked-written h p x w) [
  | inl old ↦ elim (c x q old (sym (marked-IsSameTree h p x).parent ∙ e)) [
    | inl wq ↦ inl (marked-keeps h p q wq)
    | inr at ↦ inl (rw at (marked_self h p p))
  ]
  | inr at ↦ inr (cc (rw at at link, (marked-IsSameTree h p x).parent))
]

module _ ⦃f : Foreign⦄ where
  -- Every block that is marked as written, but for a root, has a file with its header.
  pub record HasFile (disk : Disk) (wire : HotstuffBlockWire) : Type 0 where
    pub content : HotstuffBlockWire
    pub found : disk (f.hash_header wire.header) ≡ some content
    pub named : f.hash_header content.header ≡ f.hash_header wire.header

  abbrev pub IsDurable : Heap → Disk → Type 0
  IsDurable h disk =
      (x : Ptr) → (h x).written ≡ true → (h x).parent ≢ none → HasFile disk (h x).wire

  save_block-HasFile : (disk : Disk) (w : HotstuffBlockWire) → HasFile (save_block disk w) w
  unfolding save_block
  save_block-HasFile disk w = record {
    content = w;
    found = rw (==_refl (f.hash_header w.header));
    named = refl;
  }

  save_block-keeps :
      (disk : Disk) (v w : HotstuffBlockWire) → HasFile disk w → HasFile (save_block disk v) w
  unfolding save_block
  save_block-keeps disk v w file =
      elim (Bool-cases (f.hash_header v.header == f.hash_header w.header)) [
        | inl e ↦ record { content = v; found = rw e; named = ground arith }
        | inr e ↦ record { content = file.content; found = rw e file.found; named = file.named }
      ]

  marked-IsDurable :
      (h : Heap) (disk : Disk) (p : Ptr)
      → IsDurable h disk
      → IsDurable (marked h p) (save_block disk (h p).wire)
  marked-IsDurable h disk p durable x w link =
      rw (marked-IsSameTree h p x).wire (elim (marked-written h p x w) [
        | inl old ↦
            save_block-keeps disk (h p).wire (h x).wire
              (durable x old λ e. link ((marked-IsSameTree h p x).parent ∙ e))
        | inr at ↦ rw (← at) (save_block-HasFile disk (h p).wire)
      ])

  -- What `write_to_disk` at `p` achieves.
  pub record IsWritten (h : Heap) (p : Ptr) (g : Heap) (disk : Disk) : Type 0 where
    pub same : IsSameTree h g
    pub marks : (g p).written ≡ true
    pub kept : (x : Ptr) → (h x).written ≡ true → (g x).written ≡ true
    pub closed : IsClosed g
    pub durable : IsDurable g disk
    pub decided : (x : Ptr) → (g x).decided ≡ (h x).decided

  abbrev Writes : Heap → Ptr → Result (Heap × Disk) → Type 0
  Writes h p r = (g : Heap) × (disk : Disk) × (r ≡ ok (g, disk)) × IsWritten h p g disk

  stays-IsWritten :
      (h : Heap) (disk : Disk) (p : Ptr)
      → (h p).written ≡ true
      → IsClosedBut h p
      → IsDurable h disk
      → IsWritten h p h disk
  stays-IsWritten h disk p w closed durable = record {
    same = IsSameTree-refl h;
    marks = w;
    kept = λ x k. k;
    closed = λ x q wx e. elim (closed x q wx e) [ inl wq ↦ wq | inr at ↦ rw at w ];
    durable = durable;
    decided = λ x. refl;
  }

  root-IsWritten :
      (h : Heap) (disk : Disk) (p : Ptr)
      → (h p).parent ≡ none
      → IsClosedBut h p
      → IsDurable h disk
      → IsWritten h p (marked h p) (save_block disk (h p).wire)
  root-IsWritten h disk p root closed durable = record {
    same = marked-IsSameTree h p;
    marks = marked_self h p p;
    kept = marked-keeps h p;
    closed = marked-IsClosed h p root closed;
    durable = marked-IsDurable h disk p durable;
    decided = marked-decided h p;
  }

  parent-IsWritten :
      (h : Heap) (p q : Ptr) (g : Heap) (disk : Disk)
      → IsWritten (marked h p) q g disk
      → IsWritten h p g disk
  parent-IsWritten h p q g disk w = record {
    same = IsSameTree-trans (marked-IsSameTree h p) w.same;
    marks = w.kept p (marked_self h p p);
    kept = λ x k. w.kept x (marked-keeps h p x k);
    closed = w.closed;
    durable = w.durable;
    decided = λ x. w.decided x ∙ marked-decided h p x;
  }

  -- On a forest where only `p` may be an unwritten parent of a written block, and written blocks
  -- have files, `write_to_disk` at `p` with fuel above the height of `p` returns: `p` and all
  -- ancestors of written blocks are then written, each but a root has a file, and the tree and the
  -- decided flags stay.
  pub write_to_disk-IsWritten :
      (fuel : ℕ) (h : Heap) (disk : Disk) (p : Ptr)
      → IsForest h
      → (h p).height < fuel
      → IsClosedBut h p
      → IsDurable h disk
      → Writes h p (write_to_disk fuel h disk p)
  unfolding write_to_disk
  write_to_disk-IsWritten zero h disk p forest enough closed durable = absurd (omega arith)
  write_to_disk-IsWritten (suc fuel) h disk p forest enough closed durable =
      elim (Bool-cases (h p).written) [
        | inl w ↦ rw w (h, disk, refl, stays-IsWritten h disk p w closed durable)
        | inr u ↦ elim (Option-cases (h p).parent) [
          | inl e ↦ rw (u, e) (_, _, refl, root-IsWritten h disk p e closed durable)
          | inr (q, e) ↦
              let same = marked-IsSameTree h p in
              let (g, disk', r, w) =
                write_to_disk-IsWritten fuel (marked h p) _ q (IsSameTree-IsForest same forest)
                  (rw (same q).height (omega (arith, forest.linked p q e)))
                  (marked-IsClosedBut h p q e closed) (marked-IsDurable h disk p durable) in
              rw (u, e) (g, disk', r, parent-IsWritten h p q g disk' w)
        ]
      ]
