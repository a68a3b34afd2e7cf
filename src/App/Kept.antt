-- ===== src/App/Kept.antt =====
-- The bodies of recent blocks are kept.
use hotstuff.Prelude.{
  List, ℕ, ◌+◌, ◌-◌, ◌≤◌, ◌<◌, ◌≡◌, refl, ◌∙◌, Bool, true, false, ◌&&◌, ltb, le→ltb, ◌++◌, arith,
  has, if◌then◌else◌, ok,
}
use hotstuff.Block.{Ptr, Block, Heap, flush_from_memory}
use hotstuff.Storage.Store.{prune_below_height}
use hotstuff.Storage.Collector.{Collector, run_round}
use hotstuff.Storage.Collected.{IsFlushed, run_round-IsRound}
use hotstuff.App.{App, keep_depth, notify_ok_to_prune_blocks}

-- The height below which blocks are pruned.
abbrev prune_height : ℕ → ℕ
prune_height n = if ltb keep_depth n then n - keep_depth else 0

prune_height-le : (n m : ℕ) → n ≤ m + keep_depth → prune_height n ≤ m
prune_height-le n m near = ground arith

prune_height-gt : (n m : ℕ) → m + keep_depth < n → ltb m (prune_height n) ≡ true
prune_height-gt n m far = ground arith

none_freed : (b : Bool) (t : Bool) (x y : Block) → t ≡ false → (if b && t then x else y) ≡ y
none_freed true t x y e = rw e refl
none_freed false t x y e = refl

-- A round leaves a block that is high enough as it is, and frees the body of a listed lower one.
abbrev pub Keeps : Heap → ℕ → Heap → Collector → Type 0
Keeps h n g c =
    (p : Ptr)
    → (n ≤ (h p).height + keep_depth → g p ≡ h p)
      × (has p (c.gc_list ++ c.gc_list_buffer) ≡ true
          → (h p).height + keep_depth < n
          → g p ≡ flush_from_memory (h p))

module _ {B : Type 0} where
  abbrev listing : App B → List Ptr
  listing a = a.block_store.gc_collector.gc_list ++ a.block_store.gc_collector.gc_list_buffer

  -- The round of the collector after `notify_ok_to_prune_blocks` ends. It leaves every block as it
  -- is that is at most 100 below the committed height, and frees the body of every listed block
  -- that is further below it.
  pub notify_ok_to_prune_blocks-Keeps :
      (a : App B) (h : Heap) (committed_height : ℕ)
      → (g : Heap) × (d : Collector) × (run_round h
            (notify_ok_to_prune_blocks a committed_height).block_store.gc_collector
          ≡ ok (g, d))
        × Keeps h committed_height g a.block_store.gc_collector
  unfolding notify_ok_to_prune_blocks prune_below_height
  notify_ok_to_prune_blocks-Keeps a h n =
      let c = a.block_store.gc_collector in
      let (g, d, r, done) = run_round-IsRound h c (prune_height n) in
      (g, d, r, λ p. (kept n p g done.freed, λ listed low. freed n p g done.freed listed low))
    where
      kept :
          (n : ℕ) (p : Ptr) (g : Heap)
          → IsFlushed h (prune_height n) (listing a) g
          → n ≤ (h p).height + keep_depth
          → g p ≡ h p
      kept n p g flushed near =
          let high : ltb (h p).height (prune_height n) ≡ false =
            le→ltb _ _ (prune_height-le n _ near) in
          flushed p
          ∙ none_freed (has p (listing a)) (ltb (h p).height (prune_height n))
              (flush_from_memory (h p)) (h p) high

      freed :
          (n : ℕ) (p : Ptr) (g : Heap)
          → IsFlushed h (prune_height n) (listing a) g
          → has p (listing a) ≡ true
          → (h p).height + keep_depth < n
          → g p ≡ flush_from_memory (h p)
      freed n p g flushed listed low =
          flushed p ∙ rw (listed, prune_height-gt n (h p).height low) refl
