-- ===== src/Storage/Collected.antt =====
-- A round of the collector frees the bodies of the blocks below a height, and keeps the others.
use mathlib.Core.List.{filter, Perm}
use mathlib.Core.List.Perm
use mathlib.Core.Path.{fun_ext}
use native.Mathlib.Decide.{dec_le}
use mathlib.Core.Logic.{if_pos, if_neg}
use hotstuff.Prelude.{
  ℕ, zero, suc, ◌<◌, ◌≡◌, refl, sym, ◌∙◌, ap, inl, inr, true, false, Bool, List, [], ◌∷◌, ◌++◌,
  arith, ltb, ltb→lt, ltb→le, ◌==◌, ==_iff, ==_refl, ◌&&◌, Bool-cases, has, length, if◌then◌else◌,
  Result, ok, ◌>>=◌, none,
}
use hotstuff.Block.{Ptr, Block, Heap, write, flush_from_memory}
use hotstuff.Storage.Collector.{
  Collector, back, pop_back, refill, gc_loop, do_gc, run_round, invoke_gc, push_buffer_to_gc_list,
}

pop_back-Perm : (x : Ptr) (xs : List Ptr) → Perm (back x xs ∷ pop_back x xs) (x ∷ xs)
unfolding back pop_back
pop_back-Perm x [] = Perm.rfl
pop_back-Perm x (y ∷ ys) = Perm.trans (Perm.swap _ _ _) (Perm.cons x (pop_back-Perm y ys))

refill-Perm : (xs : List Ptr) → Perm (refill xs) xs
unfolding refill
refill-Perm [] = Perm.rfl
refill-Perm (x ∷ xs) = pop_back-Perm x xs

pub has-refill : (p : Ptr) (xs : List Ptr) → has p (refill xs) ≡ has p xs
unfolding refill
has-refill p [] = refl
has-refill p (x ∷ xs) = has_pop_back x xs
  where
    has_pop_back : (x : Ptr) (xs : List Ptr) → has p (back x xs ∷ pop_back x xs) ≡ has p (x ∷ xs)
    has_pop_back x [] = refl
    has_pop_back x (y ∷ ys) = ground (arith, has_pop_back y ys)

pub length-refill : (xs : List Ptr) → length (refill xs) ≡ length xs
unfolding refill
length-refill [] = refl
length-refill (x ∷ xs) = length_pop_back x xs
  where
    length_pop_back :
        (x : Ptr) (xs : List Ptr) → length (back x xs ∷ pop_back x xs) ≡ length (x ∷ xs)
    length_pop_back x [] = refl
    length_pop_back x (y ∷ ys) = omega (arith, length_pop_back y ys)

-- The blocks of a list that are at least so high.
abbrev pub at_least : Heap → ℕ → List Ptr → List Ptr
at_least h height = filter λ p. dec_le height (h p).height

-- The heap after the blocks of a list below a height have lost their bodies.
abbrev pub IsFlushed : Heap → ℕ → List Ptr → Heap → Type 0
IsFlushed h height blks g =
    (p : Ptr)
    → g p ≡ (if has p blks && ltb (h p).height height then flush_from_memory (h p) else h p)

flush-flushed : (b : Block) → (flush_from_memory b).flushed ≡ true
unfolding flush_from_memory
flush-flushed b = ground arith

flush_idle : (b : Block) → b.flushed ≡ true → flush_from_memory b ≡ b
unfolding flush_from_memory
flush_idle b e = if_true b.flushed _ _ e
  where
    if_true : (t : Bool) (x y : Block) → t ≡ true → (if t then x else y) ≡ x
    if_true true x y e = refl
    if_true false x y e = cc

flush_twice : (b : Block) → flush_from_memory (flush_from_memory b) ≡ flush_from_memory b
flush_twice b = flush_idle (flush_from_memory b) (flush-flushed b)

flush-height : (b : Block) → (flush_from_memory b).height ≡ b.height
unfolding flush_from_memory
flush-height b = ground arith

-- The heap after one block has lost its body.
abbrev flushed_at : Heap → Ptr → Heap
flushed_at h blk = write h blk (flush_from_memory (h blk))

module _ (h : Heap) (blk p : Ptr) where
  flushed_self : blk ≡ p → flushed_at h blk p ≡ flush_from_memory (h p)
  unfolding write
  flushed_self at = rw (← at, ==_refl blk)

  flushed_other : (blk == p) ≡ false → flushed_at h blk p ≡ h p
  unfolding write
  flushed_other e = rw e

flushed-height : (h : Heap) (blk p : Ptr) → (flushed_at h blk p).height ≡ (h p).height
flushed-height h blk p = elim (Bool-cases (blk == p)) [
  | inl e ↦ rw (flushed_self h blk p ((==_iff blk p).0 e)) (flush-height (h p))
  | inr e ↦ rw (flushed_other h blk p e) refl
]

at_least-flushed :
    (h : Heap) (blk : Ptr) (height : ℕ) (xs : List Ptr)
    → at_least (flushed_at h blk) height xs ≡ at_least h height xs
at_least-flushed h blk height xs =
    ap (λ (hs : Ptr → ℕ). filter (λ p. dec_le height (hs p)) xs) (fun_ext (flushed-height h blk))

-- What the loop leaves: the heap flushed below the height, and a list of the rest, in some order.
abbrev pub Leaves : Heap → ℕ → List Ptr → Result (Heap × List Ptr) → Type 0
Leaves h height blks r =
    (g : Heap) × (kept : List Ptr) × (r ≡ ok (g, kept))
    × IsFlushed h height blks g
    × Perm kept (at_least h height blks)

-- Flushing a flushed block, or not, makes no difference.
flush_settled :
    (t : Bool) (b : Block)
    → (if t then flush_from_memory (flush_from_memory b) else flush_from_memory b)
      ≡ flush_from_memory b
flush_settled true b = flush_twice b
flush_settled false b = refl

module _ (h : Heap) (height : ℕ) (blk : Ptr) (blks : List Ptr) where
  IsFlushed-collect :
      ltb (h blk).height height ≡ true
      → (xs : List Ptr) → ((p : Ptr) → has p xs ≡ has p blks)
      → (g : Heap) → IsFlushed (flushed_at h blk) height xs g
      → IsFlushed h height (blk ∷ blks) g
  IsFlushed-collect below xs same g flushed p = elim (Bool-cases (blk == p)) [
    | inl e ↦
        let at : blk ≡ p = (==_iff blk p).0 e in
        let low : ltb (h p).height height ≡ true = rw (← at) below in
        let new : flushed_at h blk p ≡ flush_from_memory (h p) = flushed_self h blk p at in
        rw (flushed p, new, e, low) (flush_settled _ (h p))
    | inr e ↦
        let old : flushed_at h blk p ≡ h p = flushed_other h blk p e in
        rw (flushed p, old, e, same p) refl
  ]

  IsFlushed-keep :
      ltb (h blk).height height ≡ false
      → (g : Heap) → IsFlushed h height blks g
      → IsFlushed h height (blk ∷ blks) g
  IsFlushed-keep above g flushed p = elim (Bool-cases (blk == p)) [
    | inl e ↦
        let at : blk ≡ p = (==_iff blk p).0 e in
        let high : ltb (h p).height height ≡ false = rw (← at) above in
        rw (flushed p, high) (and_false (has p blks) _ _ ∙ sym (and_false (has p (blk ∷ blks)) _ _))
    | inr e ↦ rw (flushed p, e) refl
  ]
    where
      and_false : (t : Bool) (x y : Block) → (if t && false then x else y) ≡ y
      and_false true x y = refl
      and_false false x y = refl

  at_least-below :
      ltb (h blk).height height ≡ true → at_least h height (blk ∷ blks) ≡ at_least h height blks
  at_least-below below =
      if_neg (dec_le height (h blk).height)
        (λ le. omega (arith, le, ltb→lt (h blk).height height below)) _ _

  at_least-above :
      ltb (h blk).height height ≡ false
      → at_least h height (blk ∷ blks) ≡ blk ∷ at_least h height blks
  at_least-above above =
      if_pos (dec_le height (h blk).height) (ltb→le (h blk).height height above) _ _

  collects :
      ltb (h blk).height height ≡ true
      → (xs : List Ptr) → Perm xs blks
      → ((p : Ptr) → has p xs ≡ has p blks)
      → {r : Result (Heap × List Ptr)} → Leaves (flushed_at h blk) height xs r
      → Leaves h height (blk ∷ blks) r
  collects below xs perm same (g, kept, e, flushed, left) = (
    g,
    kept,
    e,
    IsFlushed-collect below xs same g flushed,
    Perm.trans {l₂ = at_least h height xs} (rw (← at_least-flushed h blk height xs) left)
        (rw (at_least-below below) (Perm.filter _ perm)),
  )

  keeps :
      ltb (h blk).height height ≡ false
      → {r : Result (Heap × List Ptr)} → Leaves h height blks r
      → Leaves h height (blk ∷ blks) (r >>= λ v. ok (v.0, blk ∷ v.1))
  keeps above (g, kept, e, flushed, left) = (
    g,
    blk ∷ kept,
    rw e refl,
    IsFlushed-keep above g flushed,
    rw (at_least-above above) (Perm.cons blk left),
  )

-- With fuel above the length of the list, the loop ends.
gc_loop-Leaves :
    (fuel : ℕ) (h : Heap) (blks : List Ptr) (height : ℕ)
    → length blks < fuel
    → Leaves h height blks (gc_loop fuel h blks height)
unfolding gc_loop
gc_loop-Leaves zero h blks height enough = absurd (omega (arith, enough))
gc_loop-Leaves (suc fuel) h [] height enough = (h, [], refl, (λ p. refl), Perm.rfl)
gc_loop-Leaves (suc fuel) h (blk ∷ blks) height enough =
    elim (Bool-cases (ltb (h blk).height height)) [
      | inl below ↦ rw below (
          collects h height blk blks below (refill blks) (refill-Perm blks) (λ p. has-refill p blks)
            (gc_loop-Leaves fuel (flushed_at h blk) (refill blks) height
              (omega (arith, enough, length-refill blks))))
      | inr above ↦ rw above (
          keeps h height blk blks above (gc_loop-Leaves fuel h blks height (omega (arith, enough))))
    ]

-- What a round of the worker leaves when a height is set.
pub record IsRound (h : Heap) (c : Collector) (height : ℕ) (g : Heap) (d : Collector) : Type 0 where
  pub freed : IsFlushed h height (c.gc_list ++ c.gc_list_buffer) g
  pub left : Perm d.gc_list (at_least h height (c.gc_list ++ c.gc_list_buffer))
  pub emptied : d.gc_list_buffer ≡ []
  pub unset : d.hotstuff_height_to_gc ≡ none

-- A round of the collector after `invoke_gc` ends. It frees the bodies of the listed and the
-- buffered blocks below the height and of no other block, and it keeps the rest of them, each
-- once, on the list, with the buffer empty and no height set.
pub run_round-IsRound :
    (h : Heap) (c : Collector) (height : ℕ)
    → (g : Heap) × (d : Collector) × (run_round h (invoke_gc c height) ≡ ok (g, d))
      × IsRound h c height g d
unfolding run_round invoke_gc do_gc push_buffer_to_gc_list
run_round-IsRound h c height =
    let blks : List Ptr = c.gc_list ++ c.gc_list_buffer in
    let (g, kept, e, flushed, left) =
      gc_loop-Leaves (suc (length blks)) h blks height (omega arith) in
    (
      g,
      record { hotstuff_height_to_gc = none; gc_list = kept; gc_list_buffer = [] },
      rw e refl,
      record { freed = flushed; left = left; emptied = refl; unset = refl },
    )
