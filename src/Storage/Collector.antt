-- ===== src/Storage/Collector.antt =====
-- hotstuff/block_storage/garbage_collector.cc and its header.
-- The calls of the three kinds of thread (`add_block`, `invoke_gc`, and the worker's rounds of
-- `run`) are atomic, as their lock makes them, but for `do_gc`, which only the worker calls.
use hotstuff.Prelude.{
  ℕ, zero, suc, Option, none, some, Bool, true, false, List, [], ◌∷◌, ◌++◌, ltb, if◌then◌else◌,
  length, Result, ok, throw, ◌>>=◌, out_of_fuel,
}
use hotstuff.Block.{Ptr, Heap, write, flush_from_memory}

pub record Collector : Type 0 where
  pub hotstuff_height_to_gc : Option ℕ
  pub gc_list : List Ptr
  pub gc_list_buffer : List Ptr

pub empty_collector : Collector
empty_collector = record { hotstuff_height_to_gc = none; gc_list = []; gc_list_buffer = [] }

unfoldable pub push_buffer_to_gc_list : Collector → Collector
push_buffer_to_gc_list c = record c { gc_list = c.gc_list ++ c.gc_list_buffer; gc_list_buffer = [] }

unfoldable pub has_height : Collector → Bool
has_height c = elim c.hotstuff_height_to_gc [ none ↦ false | some _ ↦ true ]

-- `*iter = gc_list.back(); gc_list.pop_back()`, on what stands behind the iterator.
unfoldable pub back : Ptr → List Ptr → Ptr
back x [] = x
back x (y ∷ ys) = back y ys

unfoldable pub pop_back : Ptr → List Ptr → List Ptr
pop_back x [] = []
pop_back x (y ∷ ys) = x ∷ pop_back y ys

unfoldable pub refill : List Ptr → List Ptr
unfolding back pop_back
refill [] = []
refill (x ∷ xs) = back x xs ∷ pop_back x xs

-- The loop over the list from the iterator on.
unfoldable pub gc_loop : ℕ → Heap → List Ptr → ℕ → Result (Heap × List Ptr)
unfolding write flush_from_memory refill
gc_loop zero h blks hotstuff_height = throw out_of_fuel
gc_loop (suc fuel) h [] hotstuff_height = ok (h, [])
gc_loop (suc fuel) h (blk ∷ blks) hotstuff_height =
    let collected =
      gc_loop fuel (write h blk (flush_from_memory (h blk))) (refill blks) hotstuff_height in
    let kept : Result (Heap × List Ptr) = (do
      (h', rest) ← gc_loop fuel h blks hotstuff_height
      ok (h', blk ∷ rest)) in
    if ltb (h blk).height hotstuff_height then collected else kept

unfoldable pub do_gc : Heap → Collector → ℕ → Result (Heap × Collector)
unfolding gc_loop
do_gc h c hotstuff_height = do
  (h', gc_list) ← gc_loop (suc (length c.gc_list)) h c.gc_list hotstuff_height
  ok (h', record c { gc_list = gc_list })

-- One round of the worker, which sleeps while no height is set.
unfoldable pub run_round : Heap → Collector → Result (Heap × Collector)
unfolding push_buffer_to_gc_list do_gc
run_round h c = elim c.hotstuff_height_to_gc [
  | none ↦ ok (h, c)
  | some hotstuff_height ↦
      do_gc h (record (push_buffer_to_gc_list c) { hotstuff_height_to_gc = none }) hotstuff_height
]

unfoldable pub invoke_gc : Collector → ℕ → Collector
invoke_gc c hotstuff_height = record c { hotstuff_height_to_gc = some hotstuff_height }

unfoldable pub add_block : Collector → Ptr → Collector
add_block c blk = record c { gc_list_buffer = c.gc_list_buffer ++ blk ∷ [] }
