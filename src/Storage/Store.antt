-- ===== src/Storage/Store.antt =====
-- hotstuff/block_storage/block_store.cc and its header.
-- The cache is an association list by hash, from which nothing is erased. Each method holds the
-- lock of the store throughout.
use hotstuff.Prelude.{
  ℕ, suc, Option, none, some, Bool, true, false, List, [], ◌∷◌, ◌==◌, ◌||◌, if◌then◌else◌, Result,
  ok, throw, ◌>>=◌, missing_block,
}
use hotstuff.Foreign.{Foreign}
use hotstuff.Block.{
  Ptr, Heap, Disk, get_hash, get_parent_hash, get_justify_hash, set_parent, set_justify,
  write_to_disk,
}
use hotstuff.Storage.Collector.{Collector, empty_collector, add_block, invoke_gc}

pub record Store : Type 0 where
  pub block_cache : List (ℕ × Ptr)
  pub gc_collector : Collector

-- `block_cache.find`.
unfoldable pub find_block : List (ℕ × Ptr) → ℕ → Option Ptr
find_block [] hash = none
find_block ((key, block) ∷ rest) hash = if key == hash then some block else find_block rest hash

-- `block_cache.emplace`, which leaves a key that is there as it is.
unfoldable pub emplace_block : List (ℕ × Ptr) → ℕ → Ptr → List (ℕ × Ptr)
unfolding find_block
emplace_block cache hash block = elim (find_block cache hash) [
  | none ↦ (hash, block) ∷ cache
  | some _ ↦ cache
]

unfoldable pub new_store : Heap → Ptr → Store
unfolding emplace_block get_hash
new_store h genesis_block = record {
  block_cache = emplace_block [] (get_hash (h genesis_block)) genesis_block;
  gc_collector = empty_collector;
}

pub record MissingDependencies : Type 0 where
  pub parent_hash : Option ℕ
  pub justify_hash : Option ℕ

unfoldable pub is_some : Option ℕ → Bool
is_some none = false
is_some (some _) = true

-- The conversion to `bool`.
unfoldable pub has_missing : MissingDependencies → Bool
unfolding is_some
has_missing m = is_some m.parent_hash || is_some m.justify_hash

unfoldable pub unless_found : Option Ptr → ℕ → Option ℕ
unless_found none hash = some hash
unless_found (some _) hash = none

-- The end of `insert_block`, once the two look-ups are made.
unfoldable pub insert_found :
    Heap
    → Store
    → Ptr
    → Option Ptr
    → Option Ptr
    → MissingDependencies
    → Heap × Store × MissingDependencies
unfolding set_parent set_justify emplace_block get_hash add_block
insert_found h s block none justify m = (h, s, m)
insert_found h s block (some parent) none m = (h, s, m)
insert_found h s block (some parent) (some justify) m = (
  set_justify (set_parent h block parent) block justify,
  record {
    block_cache = emplace_block s.block_cache (get_hash (h block)) block;
    gc_collector = add_block s.gc_collector block;
  },
  m,
)

unfoldable pub insert_block : Heap → Store → Ptr → Result (Heap × Store × MissingDependencies)
unfolding get_parent_hash get_justify_hash find_block unless_found insert_found
insert_block h s block = do
  justify_hash ← get_justify_hash (h block)
  let parent = find_block s.block_cache (get_parent_hash (h block))
  let justify = find_block s.block_cache justify_hash
  let m : MissingDependencies = record {
    parent_hash = unless_found parent (get_parent_hash (h block));
    justify_hash = unless_found justify justify_hash;
  }
  ok (insert_found h s block parent justify m)

unfoldable pub get_block : Store → ℕ → Option Ptr
unfolding find_block
get_block s block_hash = find_block s.block_cache block_hash

-- The fuel of the recursion along the ancestors is above the height of the block.
unfoldable pub store_to_disk : ⦃f : Foreign⦄ → Heap → Disk → Store → ℕ → Result (Heap × Disk)
unfolding find_block write_to_disk
store_to_disk h disk s hash = elim (find_block s.block_cache hash) [
  | none ↦ throw missing_block
  | some block ↦ write_to_disk (suc (h block).height) h disk block
]

unfoldable pub prune_below_height : Store → ℕ → Store
unfolding invoke_gc
prune_below_height s prune_height = record s {
  gc_collector = invoke_gc s.gc_collector prune_height;
}
