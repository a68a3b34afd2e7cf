-- ===== src/Consensus/Update.antt =====
-- `update` of `Consensus`: it always returns, or reports a breach of safety.
use hotstuff.Prelude.{
  suc, ◌≤◌, ◌≡◌, refl, sym, ◌∙◌, ◌⊎◌, inl, inr, true, some, arith, ltb, ltb→lt, ltb→le, ◌==◌, ◌&&◌,
  Bool-cases, Option-cases, Result, ok, throw, safety_breached,
}
use mathlib.Core.List.{[], append-nil}
use mathlib.Core.Path.{subst}
use hotstuff.Foreign.{Foreign}
use hotstuff.Certs.{QuorumCertificate, serialize}
use hotstuff.Block.{Ptr, Heap, get_justify_qc}
use hotstuff.Block.Tree.{
  IsForest, IsSameTree, IsSameTree-refl, IsSameTree-IsForest, Extends, Extends-tree,
}
use hotstuff.Block.Disk.{write_to_disk-IsWritten}
use hotstuff.Consensus.Calls.{applied, votes}
use hotstuff.Consensus.Advance.{IsStored, Advances, Advances-refl, Advances-trans, call-Advances}
use hotstuff.Consensus.Commit.{commit_chain-Advances}
use hotstuff.Consensus.{
  Core, call, is_parent, raise_lock, write_lock, update_hqc, update_commit, update_lock, update,
}

module _ ⦃f : Foreign⦄ where
  -- The same block, with another highest certificate.
  adopt-Advances :
      (s : Core) (p : Ptr) (qc : QuorumCertificate)
      → (s.heap s.hqc_block).height ≤ (s.heap p).height
      → Advances s (record s { hqc_block = p; hqc = serialize qc; b_leaf = p })
  adopt-Advances s p qc higher = record {
    same = IsSameTree-refl s.heap;
    path = [];
    chain = refl;
    log = sym (append-nil (applied s.calls));
    voted = refl;
    vheight = refl;
    genesis = refl;
    lock = omega arith;
    hqc = higher;
    stored = λ i. record { closed = i.closed; durable = i.durable; locked = i.locked };
  }

  pub update_hqc-Advances :
      (s : Core) (p : Ptr) (qc : QuorumCertificate) → Advances s (update_hqc s p qc)
  unfolding update_hqc applied votes
  update_hqc-Advances s p qc =
      elim (Bool-cases (ltb (s.heap s.hqc_block).height (s.heap p).height)) [
        | inr low ↦ rw low (Advances-refl s)
        | inl high ↦
            let a = adopt-Advances s p qc (omega (arith, ltb→lt _ _ high)) in
            elim (Bool-cases ((s.heap p).proposer == s.self_id)) [
              | inl own ↦ rw (high, own) a
              | inr other ↦ rw (high, other) (Advances-trans s _ _ a (call-Advances _ _ refl refl))
            ]
      ]

  pub update_hqc-keeps :
      (s : Core) (p : Ptr) (qc : QuorumCertificate) → (update_hqc s p qc).b_exec ≡ s.b_exec
  unfolding update_hqc call
  update_hqc-keeps s p qc = ground arith

  -- The locked block, raised if `blk1` is higher, goes to disk with its ancestors.
  pub record Locks (s t : Core) (blk1 : Ptr) : Type 0 where
    pub advances : Advances s t
    pub stored : IsStored t
    pub decided : (x : Ptr) → (t.heap x).decided ≡ (s.heap x).decided
    pub b_exec : t.b_exec ≡ s.b_exec
    pub lock : (s.heap blk1).height ≤ (s.heap t.b_lock).height
    pub lock_from : (t.b_lock ≡ s.b_lock) ⊎ (t.b_lock ≡ blk1)

  write_lock-at :
      (s : Core) (l blk1 : Ptr)
      → IsForest s.heap
      → IsStored s
      → (s.heap s.b_lock).height ≤ (s.heap l).height
      → (s.heap blk1).height ≤ (s.heap l).height
      → (l ≡ s.b_lock) ⊎ (l ≡ blk1)
      → (t : Core) × (write_lock (record s { b_lock = l }) ≡ ok t) × Locks s t blk1
  unfolding write_lock
  write_lock-at s l blk1 forest i higher above from =
      let (g, disk, r, w) =
        write_to_disk-IsWritten (suc (s.heap l).height) s.heap s.disk l forest (omega arith)
          (λ x q wx e. inl (i.closed x q wx e)) i.durable in
      let t = record s { b_lock = l; heap = g; disk = disk } in
      let stored : IsStored t = record {
        closed = w.closed;
        durable = w.durable;
        locked = w.marks;
      } in
      (
        t,
        rw r refl,
        record {
          advances = record {
            same = w.same;
            path = [];
            chain = refl;
            log = sym (append-nil (applied s.calls));
            voted = refl;
            vheight = refl;
            genesis = refl;
            lock = higher;
            hqc = omega arith;
            stored = λ _. stored;
          };
          stored = stored;
          decided = w.decided;
          b_exec = refl;
          lock = above;
          lock_from = from;
        },
      )

  pub write_lock-Locks :
      (s : Core) (blk1 : Ptr)
      → IsForest s.heap
      → IsStored s
      → (t : Core) × (write_lock (raise_lock s blk1) ≡ ok t) × Locks s t blk1
  unfolding raise_lock
  write_lock-Locks s blk1 forest i =
      elim (Bool-cases (ltb (s.heap s.b_lock).height (s.heap blk1).height)) [
        | inl high ↦ rw high (
            write_lock-at s blk1 blk1 forest i (omega (arith, ltb→lt _ _ high)) (omega arith)
              (inr refl))
        | inr low ↦ rw low (
            write_lock-at s s.b_lock blk1 forest i (omega arith) (omega (arith, ltb→le _ _ low))
              (inl refl))
      ]

  -- The commit rule is met at `blk`, and the chain under `blk` misses the last executed block.
  pub record IsBreach (h : Heap) (b_exec blk blk1 blk2 : Ptr) : Type 0 where
    pub justified : (h blk1).justify ≡ some blk
    pub parent2 : (h blk2).parent ≡ some blk1
    pub parent1 : (h blk1).parent ≡ some blk
    pub misses : ¬ Extends h b_exec blk

  abbrev CommitsAt : Core → Ptr → Ptr → Result Core → Type 0
  CommitsAt s blk1 blk2 r =
      ((t : Core) × (r ≡ ok t) × Advances s t)
      ⊎ ((r ≡ throw safety_breached) × ((blk : Ptr) × IsBreach s.heap s.b_exec blk blk1 blk2))

  pub is_parent_sound : (h : Heap) (q p : Ptr) → is_parent h q p ≡ true → (h p).parent ≡ some q
  unfolding is_parent
  is_parent_sound h q p e = ground arith

  update_commit-Advances :
      (s : Core) (blk1 blk2 : Ptr)
      → IsForest s.heap
      → CommitsAt s blk1 blk2 (update_commit s blk1 blk2)
  unfolding update_commit
  update_commit-Advances s blk1 blk2 forest = elim (Option-cases (s.heap blk1).justify) [
    | inl e ↦ rw (e, update_commit) (inl (s, refl, Advances-refl s))
    | inr (blk, e) ↦ elim (Bool-cases (s.heap blk).decided) [
      | inl d ↦ rw (e, update_commit, d) (inl (s, refl, Advances-refl s))
      | inr d ↦ elim (Bool-cases (is_parent s.heap blk1 blk2 && is_parent s.heap blk blk1)) [
        | inr apart ↦ rw (e, update_commit, d, apart) (inl (s, refl, Advances-refl s))
        | inl chain ↦
            rw (e, update_commit, d, chain)
              (elim (commit_chain-Advances s blk blk1 blk2 forest (forest.certified blk1 (cc))) [
                | inl done ↦ inl done
                | inr (breach, misses) ↦ inr (
                  breach,
                  (
                    blk,
                    record {
                      justified = e;
                      parent2 = is_parent_sound s.heap blk1 blk2 (ground arith);
                      parent1 = is_parent_sound s.heap blk blk1 (ground arith);
                      misses = misses;
                    },
                  ),
                )
              ])
      ]
    ]
  ]

  IsBreach-tree :
      {h g : Heap} {e blk blk1 blk2 : Ptr}
      → IsSameTree h g
      → IsBreach g e blk blk1 blk2
      → IsBreach h e blk blk1 blk2
  IsBreach-tree {blk1} {blk2} same b = record {
    justified = sym (same blk1).justify ∙ b.justified;
    parent2 = sym (same blk2).parent ∙ b.parent2;
    parent1 = sym (same blk1).parent ∙ b.parent1;
    misses = λ x. b.misses (Extends-tree same x);
  }

  abbrev LocksAt : Core → Ptr → Result Core → Type 0
  LocksAt s blk2 r =
      ((t : Core) × (r ≡ ok t) × Advances s t)
      ⊎ ((r ≡ throw safety_breached)
          × ((blk blk1 : Ptr) × ((s.heap blk2).justify ≡ some blk1)
              × IsBreach s.heap s.b_exec blk blk1 blk2))

  update_lock-Advances :
      (s : Core) (blk2 : Ptr) → IsForest s.heap → IsStored s → LocksAt s blk2 (update_lock s blk2)
  unfolding update_lock
  update_lock-Advances s blk2 forest i = elim (Option-cases (s.heap blk2).justify) [
    | inl e ↦ rw (e, update_lock) (inl (s, refl, Advances-refl s))
    | inr (blk1, e) ↦ elim (Bool-cases (s.heap blk1).decided) [
      | inl d ↦ rw (e, update_lock, d) (inl (s, refl, Advances-refl s))
      | inr d ↦
          let (t, w, l) = write_lock-Locks s blk1 forest i in
          rw (e, update_lock, d, w)
            (elim (update_commit-Advances t blk1 blk2
              (IsSameTree-IsForest l.advances.same forest)) [
                | inl (u, r, a) ↦ inl (u, r, Advances-trans s t u l.advances a)
                | inr (r, (blk, b)) ↦ inr (
                  r,
                  (
                    blk,
                    blk1,
                    refl,
                    IsBreach-tree l.advances.same
                        (subst (λ x. IsBreach t.heap x blk blk1 blk2) l.b_exec b),
                  ),
                )
              ])
    ]
  ]

  -- What makes `update` give up: `p` ends a chain of three certificates whose first two links are
  -- parent links too, and the block to commit does not descend from the last executed one.
  pub record IsUnsafe (s : Core) (p : Ptr) : Type 0 where
    pub blk2 : Ptr
    pub blk1 : Ptr
    pub blk : Ptr
    pub justified2 : (s.heap p).justify ≡ some blk2
    pub justified1 : (s.heap blk2).justify ≡ some blk1
    pub breach : IsBreach s.heap s.b_exec blk blk1 blk2

  abbrev pub Updates : Core → Ptr → Result Core → Type 0
  Updates s p r =
      ((t : Core) × (r ≡ ok t) × Advances s t) ⊎ ((r ≡ throw safety_breached) × IsUnsafe s p)

  certified_update :
      (s : Core) (p blk2 : Ptr) (qc : QuorumCertificate)
      → IsForest s.heap
      → IsStored s
      → (s.heap p).justify ≡ some blk2
      → Updates s p (update_lock (update_hqc s blk2 qc) blk2)
  certified_update s p blk2 qc forest i e =
      let s' = update_hqc s blk2 qc in
      let a = update_hqc-Advances s blk2 qc in
      let kept = update_hqc-keeps s blk2 qc in
      elim (update_lock-Advances s' blk2 (IsSameTree-IsForest a.same forest) (a.stored i)) [
        | inl (t, r, b) ↦ inl (t, r, Advances-trans s s' t a b)
        | inr (r, (blk, blk1, e1, b)) ↦ inr (
          r,
          record {
            blk2 = blk2;
            blk1 = blk1;
            blk = blk;
            justified2 = e;
            justified1 = sym (a.same blk2).justify ∙ e1;
            breach = IsBreach-tree a.same (subst (λ x. IsBreach s'.heap x blk blk1 blk2) kept b);
          },
        )
      ]

  -- On a forest of blocks with what is written on disk, `update` always returns: it advances the
  -- state (the last executed block moves down a chain of children, applied in order; lock and
  -- highest certificate do not fall back), or it throws `safety_breached`, and then the block to
  -- commit does not descend from the last executed one.
  pub update-Updates :
      (s : Core) (p : Ptr) → IsForest s.heap → IsStored s → Updates s p (update s p)
  unfolding update get_justify_qc
  update-Updates s p forest i = elim (Option-cases (s.heap p).justify) [
    | inl e ↦ rw (e, update) (inl (s, refl, Advances-refl s))
    | inr (blk2, e) ↦ elim (Bool-cases (s.heap blk2).decided) [
      | inl d ↦ rw (e, update, d) (inl (s, refl, Advances-refl s))
      | inr d ↦ elim (Option-cases (s.heap p).parsed_qc) [
        | inl missing ↦ absurd (forest.certified p (cc) missing)
        | inr (qc, q) ↦ rw (e, update, d, q) (certified_update s p blk2 qc forest i e)
      ]
    ]
  ]
