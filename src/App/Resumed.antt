-- ===== src/App/Resumed.antt =====
-- What `reload_decided_blocks` makes of the log of a chain of blocks.
use hotstuff.Prelude.{
  ℕ, suc, ◌+◌, ◌%◌, ◌^◌, ◌<◌, ◌≡◌, refl, ◌∙◌, ap, some, true, false, ◌==◌, List, [], ◌∷◌, arith,
  ltb, last_of, lt→ltb, ok, length, Bool-cases, inl, inr,
}
use hotstuff.Foreign.{Foreign}
use hotstuff.Wire.{HotstuffBlockWire}
use hotstuff.Certs.{QuorumCertificate, serialize}
use hotstuff.Block.{Ptr, Block, Heap, write, load_decided_block}
use hotstuff.Storage.Store.{Store, MissingDependencies, get_block, insert_block, has_missing}
use hotstuff.Storage.Inserted.{IsStore}
use hotstuff.Consensus.{reload_state_from_index, update_hqc, call, Core}
use hotstuff.Log.{Lmdb, Encoding, data_dbi, read_entry, get_highest_qc}
use hotstuff.App.{App, find_block_by_hash}
use hotstuff.App.Restart.{reload_blocks, reload_decided_blocks}
use hotstuff.App.Reloaded.{
  IsLoading, IsLoaded, loaded, IsKept, IsKept-trans, IsChain, insert_block-IsRound,
}

module _ ⦃f : Foreign⦄ where
  -- What the loop makes of a chain of entries.
  record Reloads (h : Heap) (s : Store) (p r : Ptr) (hashes : List ℕ) (g : Heap) (t : Store)
      : Type 0 where
    kept : IsKept h s p g t
    stored : IsStore g t
    chain : IsLoaded g t r hashes

  module _ {B : Type 0} (c : Encoding) where
    abbrev pub reloading : App B → Heap → Store → App B
    reloading a h s = record a { core = record a.core { heap = h }; block_store = s }

    abbrev Returns : List (List ℕ × List ℕ) → List ℕ → App B → Ptr → Ptr → ℕ → Type 0
    Returns entries hashes a p r n =
        (g : Heap) × (t : Store) × (reload_blocks c a p entries n
          ≡ ok (reloading a g t, n + length hashes))
        × Reloads a.core.heap a.block_store p r hashes g t

    -- One round of the loop.
    reload_step :
        (a : App B) (p : Ptr) (entry : List ℕ × List ℕ) (entries : List (List ℕ × List ℕ))
        (key hash n : ℕ) (w : HotstuffBlockWire) (g : Heap) (t : Store) (m : MissingDependencies)
        → read_entry c entry ≡ ok (key, hash)
        → a.core.disk hash ≡ some w
        → insert_block (write a.core.heap p (loaded w)) a.block_store p ≡ ok (g, t, m)
        → has_missing m ≡ false
        → reload_blocks c a p (entry ∷ entries) n
          ≡ reload_blocks c (reloading a g t) (p + 1) entries (g p).height
    unfolding reload_blocks load_decided_block
    reload_step a p entry entries key hash n w g t m read file e whole =
        rw (read, file, e, whole) refl

    reload_blocks-Reloads :
        (entries : List (List ℕ × List ℕ)) (hashes : List ℕ) (a : App B) (p r : Ptr) (seen : List ℕ)
        (parent n : ℕ)
        → IsLoading a.core.heap a.block_store p seen
        → get_block a.block_store parent ≡ some r
        → IsChain c a.core.disk parent seen entries hashes
        → (a.core.heap r).height ≡ n
        → n + length hashes < 2 ^ 64
        → Returns entries hashes a p r n
    unfolding reload_blocks
    reload_blocks-Reloads [] [] a p r seen parent n i root chain at room =
        let none_more : n + 0 ≡ n = omega arith in
        (
          a.core.heap,
          a.block_store,
          rw none_more refl,
          record {
            kept = record { same = λ q low. refl; still = λ hash q found. found };
            stored = i.stored;
            chain = _;
          },
        )
    reload_blocks-Reloads (entry ∷ entries) [] a p r seen parent n i root chain at room =
        absurd chain
    reload_blocks-Reloads [] (hash ∷ hashes) a p r seen parent n i root chain at room = absurd chain
    reload_blocks-Reloads (entry ∷ entries) (hash ∷ hashes) a p r seen parent n i root
          (key, w, read, file, chain) at room =
        let low : suc n < 2 ^ 64 = omega (arith, room) in
        let (g, t, m, e, whole, round) =
          insert_block-IsRound a.core.heap a.block_store p r seen a.core.disk parent hash w i file
            root (rw at low) in
        let below_p = round.kept.same r (i.below parent r root) in
        let tall : (g p).height ≡ suc n =
          round.tall ∙ ap suc (ap (λ (b : Block). b.height) below_p ∙ at) in
        let sum : suc n + length hashes ≡ n + suc (length hashes) = omega arith in
        let (k, u, more, done) =
          reload_blocks-Reloads entries hashes (reloading a g t) (p + 1) p (hash ∷ seen) hash
            (suc n) round.loading round.cached chain tall (omega (arith, room)) in
        let own : k p ≡ g p = done.kept.same p (omega arith) in
        let old : k r ≡ g r = done.kept.same r (omega (arith, i.below parent r root)) in
        let entered = reload_step a p entry entries key hash n w g t m read file.file e whole in
        let same_height = ap (reload_blocks c (reloading a g t) (p + 1) entries) tall in
        (
          k,
          u,
          entered ∙ same_height ∙ more ∙ ap (λ z. ok (reloading a k u, z)) sum,
          record {
            kept = IsKept-trans round.kept done.kept;
            stored = done.stored;
            chain = (
              p,
              done.kept.still hash p round.cached,
              ap (λ (b : Block). b.parent) own ∙ round.above,
              rw (own, old) round.tall,
              ap (λ (b : Block). b.decided) own ∙ round.decides,
              done.chain,
            );
          },
        )

IsLoaded-last_of :
    (g : Heap) (t : Store) (r : Ptr) (hash : ℕ) (hashes : List ℕ)
    → IsLoaded g t r (hash ∷ hashes)
    → (q : Ptr) × (get_block t (last_of hash hashes) ≡ some q)
      × ((g q).height ≡ (g r).height + suc (length hashes))
IsLoaded-last_of g t r hash [] (q, found, above, tall, decided, more) =
    (q, found, omega (arith, tall))
IsLoaded-last_of g t r hash (next ∷ hashes) (q, found, above, tall, decided, more) =
    let (k, at, high) = IsLoaded-last_of g t q next hashes more in
    (k, at, omega (arith, high, tall))

module _ ⦃f : Foreign⦄ {B : Type 0} where
  -- A replica that stands at the block `top`, under the hash that its certificate names.
  pub record Resumes (b : App B) (r top : Ptr) (hashes : List ℕ) (qc : QuorumCertificate)
      : Type 0 where
    pub stored : IsStore b.core.heap b.block_store
    pub chain : IsLoaded b.core.heap b.block_store r hashes
    pub cached : get_block b.block_store qc.obj_hash ≡ some top
    pub high : (b.core.heap top).height ≡ length hashes
    pub executed : b.core.b_exec ≡ top
    pub locked : b.core.b_lock ≡ top
    pub leaf : b.core.b_leaf ≡ top
    pub certified : b.core.hqc_block ≡ top
    pub certificate : b.core.hqc ≡ serialize qc
    pub voted : b.core.vheight ≡ length hashes % 2 ^ 32

  abbrev restarted : Heap → Store → App B → Ptr → QuorumCertificate → App B
  restarted g t a top qc = record a {
    core = reload_state_from_index (record (a.core) { heap = g }) qc top;
    block_store = t;
  }

  module _ (g : Heap) (t : Store) (a : App B) (r top : Ptr) (hashes : List ℕ)
      (qc : QuorumCertificate) (stored : IsStore g t) (chain : IsLoaded g t r hashes)
      (cached : get_block t qc.obj_hash ≡ some top) (tall : (g top).height ≡ length hashes)
      (higher : (g a.core.hqc_block).height < length hashes) where
    abbrev raised : Core
    raised = update_hqc (record a.core { heap = g }) top qc

    raised_lem :
        (raised.heap ≡ g)
        × (raised.b_leaf ≡ top)
        × (raised.hqc_block ≡ top)
        × (raised.hqc ≡ serialize qc)
    unfolding update_hqc call
    raised_lem =
        let up : ltb (g a.core.hqc_block).height (g top).height ≡ true =
          lt→ltb _ _ (omega (arith, tall, higher)) in
        elim (Bool-cases ((g top).proposer == a.core.self_id)) [
          | inl e ↦ rw (update_hqc, up, e) (refl, refl, refl, refl)
          | inr e ↦ rw (update_hqc, up, e) (refl, refl, refl, refl)
        ]

    restarted-Resumes : Resumes (restarted g t a top qc) r top hashes qc
    unfolding reload_state_from_index
    restarted-Resumes =
        let (heap, leaf, block, certificate) = raised_lem in
        record {
          stored = rw heap stored;
          chain = rw heap chain;
          cached = cached;
          high = rw heap tall;
          executed = refl;
          locked = refl;
          leaf = leaf;
          certified = block;
          certificate = certificate;
          voted = ap (λ n. n % 2 ^ 32) tall;
        }

  -- The reload behind its loop.
  reload_end :
      (c : Encoding) {E W : Type 0} (l : Lmdb E W) (e : E) (a : App B) (p top : Ptr) (n : ℕ)
      (qc : QuorumCertificate) (g : Heap) (t : Store)
      → reload_blocks c a p (l.entries e data_dbi) 0 ≡ ok (reloading c a g t, n)
      → get_highest_qc l c e ≡ ok qc
      → get_block t qc.obj_hash ≡ some top
      → reload_decided_blocks c l a p e ≡ ok (restarted g t a top qc, n)
  unfolding reload_decided_blocks find_block_by_hash
  reload_end c l e a p top n qc g t loop signed cached = rw (loop, signed, cached) refl

  module _ (c : Encoding) {E W : Type 0} (l : Lmdb E W) (e : E) (a : App B) (p r : Ptr)
      (parent hash : ℕ) (hashes : List ℕ) (qc : QuorumCertificate)
      (loading : IsLoading a.core.heap a.block_store p (parent ∷ []))
      (root : get_block a.block_store parent ≡ some r)
      (low : ((a.core.heap r).height ≡ 0) × (a.core.hqc_block ≡ r))
      (chain : IsChain c a.core.disk parent (parent ∷ []) (l.entries e data_dbi) (hash ∷ hashes))
      (room : suc (length hashes) < 2 ^ 64) (signed : get_highest_qc l c e ≡ ok qc)
      (on_last : qc.obj_hash ≡ last_of hash hashes) where
    -- The reload returns the height of the last block of the log, and the replica resumes there; its
    -- bridge is as it was.
    pub reload_decided_blocks-Resumes :
        (b : App B) × (top : Ptr) × (reload_decided_blocks c l a p e ≡ ok (b, suc (length hashes)))
        × (b.vm_bridge ≡ a.vm_bridge)
        × Resumes b r top (hash ∷ hashes) qc
    reload_decided_blocks-Resumes =
        let (g, t, loop, done) =
          reload_blocks-Reloads c (l.entries e data_dbi) (hash ∷ hashes) a p r (parent ∷ []) parent
            0 loading root chain low.0 (omega (arith, room)) in
        let (top, found, tall) = IsLoaded-last_of g t r hash hashes done.chain in
        let under = done.kept.same r (loading.below parent r root) in
        let sum : (g top).height ≡ suc (length hashes) =
          omega (arith, tall, low.0, ap (λ (x : Block). x.height) under) in
        let cached : get_block t qc.obj_hash ≡ some top = ap (get_block t) on_last ∙ found in
        let counted : 0 + suc (length hashes) ≡ suc (length hashes) = omega arith in
        let bottom : (g a.core.hqc_block).height ≡ (g r).height = ap (λ q. (g q).height) low.1 in
        let higher : (g a.core.hqc_block).height < suc (length hashes) =
          omega (arith, bottom, low.0, ap (λ (x : Block). x.height) under) in
        (
          restarted g t a top qc,
          top,
          reload_end c l e a p top _ qc g t loop signed cached
              ∙ ap (λ n. ok (restarted g t a top qc, n)) counted,
          refl,
          restarted-Resumes g t a r top (hash ∷ hashes) qc done.stored done.chain cached sum higher,
        )
