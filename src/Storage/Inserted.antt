-- ===== src/Storage/Inserted.antt =====
-- The cached blocks are linked to the cached blocks that their hashes name.
use hotstuff.Prelude.{
  ℕ, suc, ◌+◌, ◌<◌, ◌%◌, ◌^◌, ◌≡◌, ◌≢◌, refl, sym, ◌∙◌, ap, ◌⊎◌, inl, inr, Option, none, some, true,
  false, List, arith, ◌==◌, ==_iff, ==_refl, Bool-cases, Option-cases, ok,
}
use hotstuff.Certs.{QuorumCertificate}
use hotstuff.Block.{
  Ptr, Block, Heap, write, get_hash, get_parent_hash, get_justify_qc, get_justify_hash, set_parent,
  set_justify,
}
use hotstuff.Storage.Store.{
  Store, MissingDependencies, find_block, emplace_block, is_some, has_missing, unless_found,
  insert_found, insert_block, get_block,
}

-- A cached block stands under its own hash and, but for the genesis block, its parent and its
-- justifying block are the cached blocks under the hashes that it names, the parent one below it.
pub record IsLinked (h : Heap) (cache : List (ℕ × Ptr)) (p : Ptr) : Type 0 where
  pub parent_found :
      (q : Ptr) → (h p).parent ≡ some q → find_block cache (get_parent_hash (h p)) ≡ some q
  pub one_above : (q : Ptr) → (h p).parent ≡ some q → (h p).height ≡ suc (h q).height
  pub justify_found :
      (qc : QuorumCertificate) (j : Ptr)
      → (h p).parsed_qc ≡ some qc
      → (h p).justify ≡ some j
      → find_block cache qc.obj_hash ≡ some j

pub record IsStore (h : Heap) (s : Store) : Type 0 where
  pub named : (hash : ℕ) (p : Ptr) → get_block s hash ≡ some p → get_hash (h p) ≡ hash
  pub linked : (hash : ℕ) (p : Ptr) → get_block s hash ≡ some p → IsLinked h s.block_cache p

-- What a look-up finds it finds after any `emplace`.
find-emplace_of_some :
    (cache : List (ℕ × Ptr)) (key hash : ℕ) (b p : Ptr)
    → find_block cache hash ≡ some p
    → find_block (emplace_block cache key b) hash ≡ some p
unfolding find_block emplace_block
find-emplace_of_some cache key hash b p found = elim (Option-cases (find_block cache key)) [
  | inl e ↦ elim (Bool-cases (key == hash)) [
    | inl same ↦ let at : key ≡ hash = (==_iff key hash).0 same in cc (rw at at e, found)
    | inr other ↦ rw (emplace_block, find_block, e, other) found
  ]
  | inr (q, e) ↦ rw (emplace_block, e) found
]

-- What it finds after an `emplace` is the new block under its hash, or was there.
find-emplace_cases :
    (cache : List (ℕ × Ptr)) (key hash : ℕ) (b p : Ptr)
    → find_block (emplace_block cache key b) hash ≡ some p
    → (find_block cache hash ≡ some p) ⊎ ((key ≡ hash) × (b ≡ p))
unfolding find_block emplace_block
find-emplace_cases cache key hash b p found = elim (Option-cases (find_block cache key)) [
  | inl e ↦ elim (Bool-cases (key == hash)) [
    | inl same ↦
        inr ((==_iff key hash).0 same, cc (rw (emplace_block, find_block, e, same) at found))
    | inr other ↦ inl (rw (emplace_block, find_block, e, other) at found)
  ]
  | inr (q, e) ↦ inl (rw (emplace_block, e) at found)
]

-- What stands under its hash after an `emplace` at a free one.
find-emplace_self :
    (cache : List (ℕ × Ptr)) (key : ℕ) (b : Ptr)
    → find_block cache key ≡ none
    → find_block (emplace_block cache key b) key ≡ some b
unfolding find_block emplace_block
find-emplace_self cache key b free = rw (emplace_block, free, find_block, ==_refl key) refl

-- The heap after the two assignments of `insert_block`.
abbrev linked_at : Heap → Ptr → Ptr → Ptr → Heap
linked_at h p parent justify = set_justify (set_parent h p parent) p justify

module _ (h : Heap) (p parent justify : Ptr) where
  linked_self : linked_at h p parent justify p ≡ record (h p) {
    parent = some parent;
    height = ((h parent).height + 1) % 2 ^ 64;
    justify = some justify;
  }
  unfolding set_justify set_parent write
  linked_self = rw (==_refl p) refl

  linked_other : (q : Ptr) → p ≢ q → linked_at h p parent justify q ≡ h q
  unfolding set_justify set_parent write
  linked_other q ne = elim (Bool-cases (p == q)) [
    | inl same ↦ absurd (ne ((==_iff p q).0 same))
    | inr other ↦ rw other refl
  ]

-- No hash of the cache leads to the pointer.
abbrev pub IsUncached : Store → Ptr → Type 0
IsUncached s p = (hash : ℕ) → get_block s hash ≢ some p

module _ (h : Heap) (s : Store) (p parent justify : Ptr) (qc : QuorumCertificate)
    (stored : IsStore h s) (new : IsUncached s p) (has_qc : (h p).parsed_qc ≡ some qc)
    (parent_at : find_block s.block_cache (get_parent_hash (h p)) ≡ some parent)
    (justify_at : find_block s.block_cache qc.obj_hash ≡ some justify)
    (room : suc (h parent).height < 2 ^ 64) where
  abbrev g : Heap
  g = linked_at h p parent justify

  abbrev grown : List (ℕ × Ptr)
  grown = emplace_block s.block_cache (get_hash (h p)) p

  kept : (hash : ℕ) (q : Ptr) → find_block s.block_cache hash ≡ some q → g q ≡ h q
  unfolding get_block
  kept hash q found = linked_other h p parent justify q (λ at. new hash (found ∙ ap some (sym at)))

  kept_found :
      (hash : ℕ) (q : Ptr) → find_block s.block_cache hash ≡ some q → find_block grown hash ≡ some q
  kept_found hash q found = find-emplace_of_some s.block_cache (get_hash (h p)) hash p q found

  kept-IsLinked : (hash : ℕ) (q : Ptr) → find_block s.block_cache hash ≡ some q → IsLinked g grown q
  unfolding get_block
  kept-IsLinked hash q found =
      let same : g q ≡ h q = kept hash q found in
      let old : IsLinked h s.block_cache q = stored.linked hash q found in
      record {
        parent_found = λ r e. rw same (kept_found _ r (old.parent_found r (rw same at e)));
        one_above = λ r e.
            let link : (h q).parent ≡ some r = rw same at e in
            rw (same, kept _ r (old.parent_found r link)) (old.one_above r link);
        justify_found =
            λ c j e k. kept_found _ j (old.justify_found c j (rw same at e) (rw same at k));
      }

  new-IsLinked : IsLinked g grown p
  unfolding get_parent_hash
  new-IsLinked =
      let self = linked_self h p parent justify in
      record {
        parent_found = λ r e.
            let at : parent ≡ r = cc (rw self at e) in
            rw (self, ← at) (kept_found _ parent parent_at);
        one_above = λ r e.
            let at : parent ≡ r = cc (rw self at e) in
            rw (← at, self, kept _ parent parent_at) (omega (arith, room));
        justify_found = λ c j e k.
            let at : qc ≡ c = cc (rw self at e, has_qc) in
            let to : justify ≡ j = cc (rw self at k) in
            rw (← at, ← to) (kept_found _ justify justify_at);
      }

  grown-IsStore : (t : Store) → t.block_cache ≡ grown → IsStore g t
  unfolding get_block get_hash
  grown-IsStore t at =
      let self = linked_self h p parent justify in
      record {
        named = λ hash q found.
            elim (find-emplace_cases s.block_cache _ hash p q (rw at at found)) [
              | inl old ↦ rw (kept hash q old) (stored.named hash q old)
              | inr (key, same) ↦ rw (← same, self) key
            ];
        linked = λ hash q found.
            elim (find-emplace_cases s.block_cache _ hash p q (rw at at found)) [
              | inl old ↦ rw at (kept-IsLinked hash q old)
              | inr (key, same) ↦ rw (at, ← same) new-IsLinked
            ];
      }

-- What `insert_block` makes of a block on a heap and a store.
pub record IsInserted (h : Heap) (s : Store) (p : Ptr) (qc : QuorumCertificate) (g : Heap)
    (t : Store) (m : MissingDependencies) : Type 0 where
  pub stored : IsStore g t
  pub no_parent :
      m.parent_hash ≡ unless_found (get_block s (get_parent_hash (h p))) (get_parent_hash (h p))
  pub no_justify : m.justify_hash ≡ unless_found (get_block s qc.obj_hash) qc.obj_hash
  pub refused : has_missing m ≡ true → (g ≡ h) × (t ≡ s)
  pub cached :
      has_missing m ≡ false
      → get_block s (get_hash (h p)) ≡ none
      → get_block t (get_hash (h p)) ≡ some p
  pub linked :
      has_missing m ≡ false
      → ((g p).parent ≡ get_block s (get_parent_hash (h p)))
        × ((g p).justify ≡ get_block s qc.obj_hash)
  pub elsewhere : (q : Ptr) → p ≢ q → g q ≡ h q
  pub as_decided : (g p).decided ≡ (h p).decided
  pub still : (hash : ℕ) (q : Ptr) → get_block s hash ≡ some q → get_block t hash ≡ some q
  pub only :
      (hash : ℕ) (q : Ptr)
      → get_block t hash ≡ some q
      → (get_block s hash ≡ some q) ⊎ ((get_hash (h p) ≡ hash) × (p ≡ q))

module _ (h : Heap) (s : Store) (p : Ptr) (qc : QuorumCertificate) (stored : IsStore h s)
    (new : IsUncached s p) (has_qc : (h p).parsed_qc ≡ some qc)
    (room : (q : Ptr)
      → get_block s (get_parent_hash (h p)) ≡ some q
      → suc (h q).height < 2 ^ 64) where
  abbrev missing : Option Ptr → Option Ptr → MissingDependencies
  missing a b = record {
    parent_hash = unless_found a (get_parent_hash (h p));
    justify_hash = unless_found b qc.obj_hash;
  }

  -- The end of the insertion, for what the two look-ups give.
  insert_found-IsInserted :
      (a b : Option Ptr)
      → get_block s (get_parent_hash (h p)) ≡ a
      → get_block s qc.obj_hash ≡ b
      → (g : Heap) × (t : Store) × (insert_found h s p a b (missing a b) ≡ (g, t, missing a b))
        × IsInserted h s p qc g t (missing a b)
  unfolding insert_found unless_found has_missing is_some get_block
  insert_found-IsInserted none b ea eb = (
    h,
    s,
    refl,
    record {
      stored = stored;
      no_parent = rw ea refl;
      no_justify = rw eb refl;
      refused = λ e. (refl, refl);
      cached = λ e. cc;
      linked = λ e. cc;
      elsewhere = λ q ne. refl;
      as_decided = refl;
      still = λ hash q found. found;
      only = λ hash q found. inl found;
    },
  )
  insert_found-IsInserted (some a) none ea eb = (
    h,
    s,
    refl,
    record {
      stored = stored;
      no_parent = rw ea refl;
      no_justify = rw eb refl;
      refused = λ e. (refl, refl);
      cached = λ e. cc;
      linked = λ e. cc;
      elsewhere = λ q ne. refl;
      as_decided = refl;
      still = λ hash q found. found;
      only = λ hash q found. inl found;
    },
  )
  insert_found-IsInserted (some a) (some b) ea eb = (
    linked_at h p a b,
    _,
    refl,
    record {
      stored = grown-IsStore h s p a b qc stored new has_qc ea eb (room a ea) _ refl;
      no_parent = rw ea refl;
      no_justify = rw eb refl;
      refused = λ e. cc;
      cached = λ e free. find-emplace_self s.block_cache _ p free;
      linked = λ e. let self = linked_self h p a b in (rw (self, ea) refl, rw (self, eb) refl);
      elsewhere = linked_other h p a b;
      as_decided = ap (λ (k : Block). k.decided) (linked_self h p a b);
      still = λ hash q found. find-emplace_of_some s.block_cache _ hash p q found;
      only = λ hash q found. find-emplace_cases s.block_cache _ hash p q found;
    },
  )

  -- On a store whose cached blocks are linked, `insert_block` at a block with a certificate that
  -- is not cached, whose height fits 64 bits, returns. It reports the parent and the justifying
  -- hash that are not cached; when there is one it changes nothing, and else it links the block to
  -- the cached ones and caches it if its hash is free. The cached blocks are linked after it.
  pub insert_block-IsInserted :
      (g : Heap) × (t : Store) × (m : MissingDependencies) × (insert_block h s p ≡ ok (g, t, m))
      × IsInserted h s p qc g t m
  unfolding insert_block get_justify_hash get_justify_qc get_block
  insert_block-IsInserted =
      let (g, t, e, done) = insert_found-IsInserted _ _ refl refl in
      (g, t, _, rw has_qc (ap ok e), done)
