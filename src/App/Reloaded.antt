-- ===== src/App/Reloaded.antt =====
-- One round of `reload_blocks`, at the log of a chain of blocks.
use hotstuff.Prelude.{
  ℕ, suc, ◌+◌, ◌^◌, ◌<◌, ◌≡◌, ◌≢◌, refl, sym, ◌∙◌, ap, ◌⊎◌, inl, inr, true, false, none, some, List,
  [], ◌∷◌, arith, has, Option-cases, Bool-cases, ◌==◌, ==_iff, ok,
}
use hotstuff.Foreign.{Foreign}
use hotstuff.Wire.{HotstuffBlockWire, unknown_replica_id}
use hotstuff.Certs.{deserialize}
use hotstuff.Block.{Ptr, Block, Heap, Disk, write, get_hash, get_parent_hash, receive_block}
use hotstuff.Storage.Store.{
  Store, MissingDependencies, get_block, has_missing, is_some, unless_found, insert_block,
}
use hotstuff.Storage.Inserted.{IsStore, IsUncached, insert_block-IsInserted}
use hotstuff.Consensus.Reach.{insert-at, insert-other}
use hotstuff.Log.{Encoding, read_entry}
use hotstuff.App.Proposing.{write-IsStore}

-- The blocks in memory are the cached ones, those under the hashes `seen`, below the address `p`.
pub record IsLoading (h : Heap) (s : Store) (p : Ptr) (seen : List ℕ) : Type 0 where
  pub stored : IsStore h s
  pub below : (hash : ℕ) (q : Ptr) → get_block s hash ≡ some q → q < p
  pub known : (hash : ℕ) → has hash seen ≡ true → (q : Ptr) × (get_block s hash ≡ some q)
  pub only : (hash : ℕ) (q : Ptr) → get_block s hash ≡ some q → has hash seen ≡ true

-- The decided blocks of the hashes, oldest first, each the child of the one before it.
abbrev pub IsLoaded : Heap → Store → Ptr → List ℕ → Type 0
IsLoaded h s r [] = Unit {0}
IsLoaded h s r (hash ∷ hashes) =
    (q : Ptr) × (get_block s hash ≡ some q)
    × ((h q).parent ≡ some r)
    × ((h q).height ≡ suc (h r).height)
    × ((h q).decided ≡ true)
    × IsLoaded h s q hashes

-- Blocks that are cached on stay so, and as they are.
pub record IsKept (h : Heap) (s : Store) (p : Ptr) (g : Heap) (t : Store) : Type 0 where
  pub same : (q : Ptr) → q < p → g q ≡ h q
  pub still : (hash : ℕ) (q : Ptr) → get_block s hash ≡ some q → get_block t hash ≡ some q

pub IsKept-trans :
    {h : Heap} {s : Store} {p : Ptr} {g : Heap} {t : Store} {k : Heap} {u : Store}
    → IsKept h s p g t
    → IsKept g t (p + 1) k u
    → IsKept h s p k u
IsKept-trans a b = record {
  same = λ q low. b.same q (omega (arith, low)) ∙ a.same q low;
  still = λ hash q found. b.still hash q (a.still hash q found);
}

has_head : (hash key : ℕ) (seen : List ℕ) → hash ≡ key → has key (hash ∷ seen) ≡ true
has_head hash key seen at = rw ((==_iff hash key).1 at) refl

has-cases : (a x : ℕ) (xs : List ℕ) → has a (x ∷ xs) ≡ true → (x ≡ a) ⊎ (has a xs ≡ true)
has-cases a x xs e = elim (Bool-cases (x == a)) [
  | inl same ↦ inl ((==_iff x a).0 same)
  | inr other ↦ inr (rw other at e)
]

has_tail : (a x : ℕ) (xs : List ℕ) → has a xs ≡ true → has a (x ∷ xs) ≡ true
has_tail a x xs e = ground arith

module _ ⦃f : Foreign⦄ where
  -- The file of a decided block: it has the block's name, a known parent and a known certificate.
  pub record IsFile (disk : Disk) (parent hash : ℕ) (seen : List ℕ) (w : HotstuffBlockWire)
      : Type 0 where
    pub file : disk hash ≡ some w
    pub named : f.hash_header w.header ≡ hash
    pub child : w.header.parent_hash ≡ parent
    pub certified : has (deserialize w.header.qc).obj_hash seen ≡ true
    pub new : has hash seen ≡ false

  -- The entries of the log spell the hashes of a chain above `parent`.
  abbrev pub IsChain : Encoding → Disk → ℕ → List ℕ → List (List ℕ × List ℕ) → List ℕ → Type 0
  IsChain c disk parent seen [] [] = Unit {0}
  IsChain c disk parent seen (entry ∷ entries) [] = ⊥
  IsChain c disk parent seen [] (hash ∷ hashes) = ⊥
  IsChain c disk parent seen (entry ∷ entries) (hash ∷ hashes) =
      (key : ℕ) × (w : HotstuffBlockWire) × (read_entry c entry ≡ ok (key, hash))
      × IsFile disk parent hash seen w
      × IsChain c disk hash (hash ∷ seen) entries hashes

  -- The block made of a file.
  abbrev pub loaded : HotstuffBlockWire → Block
  loaded w = record (receive_block w unknown_replica_id) {
    decided = true;
    written = true;
    hash_checked = true;
    hash_valid = true;
  }

  module _ (h : Heap) (s : Store) (p r : Ptr) (seen : List ℕ) (disk : Disk) (parent hash : ℕ)
      (w : HotstuffBlockWire) (i : IsLoading h s p seen) (file : IsFile disk parent hash seen w)
      (root : get_block s parent ≡ some r) (room : suc (h r).height < 2 ^ 64) where
    abbrev pub with_block : Heap
    with_block = write h p (loaded w)

    uncached : IsUncached s p
    uncached key found = absurd (omega (arith, i.below key p found))

    at_p : with_block p ≡ loaded w
    at_p = insert-at h p (loaded w)

    qc_at : (with_block p).parsed_qc ≡ some (deserialize w.header.qc)
    unfolding receive_block
    qc_at = ap (λ (b : Block). b.parsed_qc) at_p

    parent_at : get_parent_hash (with_block p) ≡ parent
    unfolding get_parent_hash receive_block
    parent_at = ap get_parent_hash at_p ∙ file.child

    hash_at : get_hash (with_block p) ≡ hash
    unfolding get_hash receive_block
    hash_at = ap get_hash at_p ∙ file.named

    decided_at : (with_block p).decided ≡ true
    decided_at = ap (λ (b : Block). b.decided) at_p

    free : get_block s hash ≡ none
    free = elim (Option-cases (get_block s hash)) [
      | inl e ↦ e
      | inr (q, e) ↦ cc (i.only hash q e, file.new)
    ]

    nothing_missing :
        (m : MissingDependencies)
        → m.parent_hash
          ≡ unless_found
              (get_block s (get_parent_hash (with_block p)))
              (get_parent_hash (with_block p))
        → m.justify_hash
          ≡ unless_found
              (get_block s (deserialize w.header.qc).obj_hash)
              (deserialize w.header.qc).obj_hash
        → has_missing m ≡ false
    unfolding has_missing is_some unless_found
    nothing_missing m e k =
        let (j, certified) = i.known _ file.certified in rw (e, k, parent_at, root, certified) refl

    high_enough :
        (q : Ptr)
        → get_block s (get_parent_hash (with_block p)) ≡ some q
        → suc (with_block q).height < 2 ^ 64
    high_enough q e =
        let at : r ≡ q = cc (rw parent_at at e, root) in
        let ne : p ≢ r = λ k. absurd (omega (arith, k, i.below parent r root)) in
        rw (← at, insert-other h p (loaded w) r ne) room

    -- One round of the loop.
    pub record IsRound (g : Heap) (t : Store) : Type 0 where
      pub kept : IsKept h s p g t
      pub loading : IsLoading g t (p + 1) (hash ∷ seen)
      pub cached : get_block t hash ≡ some p
      pub above : (g p).parent ≡ some r
      pub tall : (g p).height ≡ suc (g r).height
      pub decides : (g p).decided ≡ true

    pub insert_block-IsRound :
        (g : Heap) × (t : Store) × (m : MissingDependencies) × (insert_block with_block s p
          ≡ ok (g, t, m))
        × (has_missing m ≡ false)
        × IsRound g t
    insert_block-IsRound =
        let (g, t, m, e, done) =
          insert_block-IsInserted with_block s p (deserialize w.header.qc)
            (write-IsStore h s p (loaded w) uncached i.stored) uncached qc_at high_enough in
        let whole = nothing_missing m done.no_parent done.no_justify in
        let cached : get_block t hash ≡ some p =
          rw hash_at at (done.cached whole (ap (get_block s) hash_at ∙ free)) in
        let above : (g p).parent ≡ some r =
          (done.linked whole).0 ∙ ap (get_block s) parent_at ∙ root in
        (
          g,
          t,
          m,
          e,
          whole,
          record {
            kept = record {
              same = λ q low.
                  let ne : p ≢ q = λ k. absurd (omega (arith, k, low)) in
                  done.elsewhere q ne ∙ insert-other h p (loaded w) q ne;
              still = done.still;
            };
            loading = record {
              stored = done.stored;
              below = λ key q found. elim (done.only key q found) [
                | inl old ↦ let low = i.below key q old in omega (arith, low)
                | inr (_, at) ↦ omega (arith, at)
              ];
              known = λ key e. elim (has-cases key hash seen e) [
                | inl at ↦ (p, rw (← at) cached)
                | inr old ↦ let (q, found) = i.known key old in (q, done.still key q found)
              ];
              only = λ key q found. elim (done.only key q found) [
                | inl old ↦ has_tail key hash seen (i.only key q old)
                | inr (at, _) ↦ has_head hash key seen (sym hash_at ∙ at)
              ];
            };
            cached = cached;
            above = above;
            tall = (done.stored.linked hash p cached).one_above r above;
            decides = done.as_decided ∙ decided_at;
          },
        )
