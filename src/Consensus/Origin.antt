-- ===== src/Consensus/Origin.antt =====
-- Where the locked and the executed block come from, and which blocks are decided.
use mathlib.Core.Path.{subst}
use hotstuff.Prelude.{
  ◌≤◌, ◌≡◌, refl, sym, ◌∙◌, ap, ◌⊎◌, inl, inr, true, some, arith, ltb, ◌==◌, Bool-cases,
  Option-cases, ok, ok-injective,
}
use hotstuff.Foreign.{Foreign}
use hotstuff.Certs.{QuorumCertificate}
use hotstuff.Block.{Ptr, get_justify_qc}
use hotstuff.Block.Tree.{
  IsForest, IsSameTree-sym, IsSameTree-IsForest, Extends-tree, Extends-height,
}
use hotstuff.Consensus.Advance.{IsStored}
use hotstuff.Consensus.Update.{write_lock-Locks, update_hqc-Advances, update_hqc-keeps}
use hotstuff.Consensus.{Core, call, update_hqc, update_lock, update}
use hotstuff.Consensus.Settled.{IsThreeChain, update_commit-Settles, IsThreeChain-tree}

module _ ⦃f : Foreign⦄ where
  -- What `update` does from `blk2` on, to the lock, the executed block and the decided blocks.
  pub record Locked (s t : Core) (blk2 : Ptr) : Type 0 where
    pub lock_from : (t.b_lock ≡ s.b_lock) ⊎ ((s.heap blk2).justify ≡ some t.b_lock)
    pub exec_from :
        (t.b_exec ≡ s.b_exec)
        ⊎ ((blk1 : Ptr) × ((s.heap blk2).justify ≡ some blk1)
            × IsThreeChain s.heap blk2 blk1 t.b_exec)
    pub decided :
        (x : Ptr)
        → (t.heap x).decided ≡ true
        → ((s.heap x).decided ≡ true) ⊎ ((s.heap x).height ≤ (s.heap t.b_lock).height)
    pub covers :
        (blk1 : Ptr)
        → (s.heap blk2).justify ≡ some blk1
        → ((s.heap blk1).decided ≡ true) ⊎ ((s.heap blk1).height ≤ (s.heap t.b_lock).height)

  update_lock-Locked :
      (s t : Core) (blk2 : Ptr)
      → IsForest s.heap
      → IsStored s
      → update_lock s blk2 ≡ ok t
      → Locked s t blk2
  unfolding update_lock
  update_lock-Locked s t blk2 forest i r = elim (Option-cases (s.heap blk2).justify) [
    | inl e ↦ idle (rw (update_lock, e) at r) (λ blk1 k. cc)
    | inr (blk1, e) ↦ elim (Bool-cases (s.heap blk1).decided) [
      | inl d ↦
          idle (rw (update_lock, e, d) at r) (λ b k. let at : blk1 ≡ b = cc in inl (rw (← at) d))
      | inr d ↦
          let (u, w, l) = write_lock-Locks s blk1 forest i in
          let same = l.advances.same in
          let c =
            update_commit-Settles u t blk1 blk2 (IsSameTree-IsForest same forest)
              (rw (update_lock, e, d, w) at r) in
          let above : (s.heap blk1).height ≤ (s.heap t.b_lock).height = rw c.b_lock l.lock in
          record {
            lock_from = elim l.lock_from [
              | inl old ↦ inl (c.b_lock ∙ old)
              | inr new ↦ inr (e ∙ ap some (sym (c.b_lock ∙ new)))
            ];
            exec_from = elim c.exec_from [
              | inl old ↦ inl (old ∙ l.b_exec)
              | inr chain ↦ inr (blk1, e, IsThreeChain-tree same chain)
            ];
            decided = λ x dx. elim (c.decided x dx) [
              | inl old ↦ inl (sym (l.decided x) ∙ old)
              | inr under ↦
                  let under' = Extends-tree (IsSameTree-sym same) under in
                  inr (omega (arith, above, Extends-height forest under'))
            ];
            covers = λ b k. let at : blk1 ≡ b = cc in inr (rw (← at) above);
          }
    ]
  ]
    where
      idle :
          ok s ≡ ok t
          → ((blk1 : Ptr)
              → (s.heap blk2).justify ≡ some blk1
              → ((s.heap blk1).decided ≡ true) ⊎ ((s.heap blk1).height ≤ (s.heap s.b_lock).height))
          → Locked s t blk2
      idle e covers =
          subst (λ u. Locked s u blk2) (ok-injective e)
            (record {
              lock_from = inl refl;
              exec_from = inl refl;
              decided = λ x d. inl d;
              covers = covers;
            })

  pub hqc_frame :
      (s : Core) (blk2 : Ptr) (qc : QuorumCertificate)
      → ((update_hqc s blk2 qc).heap ≡ s.heap) × ((update_hqc s blk2 qc).b_lock ≡ s.b_lock)
  unfolding update_hqc call
  hqc_frame s blk2 qc = elim (Bool-cases (ltb (s.heap s.hqc_block).height (s.heap blk2).height)) [
    | inr low ↦ rw low (refl, refl)
    | inl high ↦ elim (Bool-cases ((s.heap blk2).proposer == s.self_id)) [
      | inl own ↦ rw (high, own) (refl, refl)
      | inr other ↦ rw (high, other) (refl, refl)
    ]
  ]

  -- What `update` at `p` does to the lock, the executed block and the decided blocks.
  pub record Traces (s t : Core) (p : Ptr) : Type 0 where
    pub lock_from : (t.b_lock ≡ s.b_lock) ⊎ ((blk2 : Ptr) × ((s.heap blk2).justify ≡ some t.b_lock))
    pub exec_from :
        (t.b_exec ≡ s.b_exec)
        ⊎ ((blk2 blk1 : Ptr) × ((s.heap p).justify ≡ some blk2)
            × ((s.heap blk2).justify ≡ some blk1)
            × IsThreeChain s.heap blk2 blk1 t.b_exec)
    pub decided :
        (x : Ptr)
        → (t.heap x).decided ≡ true
        → ((s.heap x).decided ≡ true) ⊎ ((s.heap x).height ≤ (s.heap t.b_lock).height)
    pub covers :
        (blk2 blk1 : Ptr)
        → (s.heap p).justify ≡ some blk2
        → (s.heap blk2).justify ≡ some blk1
        → ((s.heap blk2).decided ≡ true)
          ⊎ ((s.heap blk1).decided ≡ true)
          ⊎ ((s.heap blk1).height ≤ (s.heap t.b_lock).height)

  Locked-Traces :
      (s s' t : Core) (p blk2 : Ptr)
      → (s.heap p).justify ≡ some blk2
      → s'.heap ≡ s.heap
      → s'.b_lock ≡ s.b_lock
      → s'.b_exec ≡ s.b_exec
      → Locked s' t blk2
      → Traces s t p
  Locked-Traces s s' t p blk2 e heap b_lock b_exec l = record {
    lock_from = elim (rw heap at l.lock_from) [
      | inl old ↦ inl (old ∙ b_lock)
      | inr new ↦ inr (blk2, new)
    ];
    exec_from = elim (rw heap at l.exec_from) [
      | inl old ↦ inl (old ∙ b_exec)
      | inr (blk1, e1, chain) ↦ inr (blk2, blk1, e, e1, chain)
    ];
    decided = rw heap at l.decided;
    covers = λ b2 b1 k k1. let at : blk2 ≡ b2 = cc in inr ((rw heap at l.covers) b1 (rw at k1));
  }

  pub update-Traces :
      (s t : Core) (p : Ptr) → IsForest s.heap → IsStored s → update s p ≡ ok t → Traces s t p
  unfolding update get_justify_qc
  update-Traces s t p forest i r = elim (Option-cases (s.heap p).justify) [
    | inl e ↦ idle (rw (update, e) at r) (λ b2 b1 k. cc)
    | inr (blk2, e) ↦ elim (Bool-cases (s.heap blk2).decided) [
      | inl d ↦
          idle (rw (update, e, d) at r) (λ b2 b1 k k1. let at : blk2 ≡ b2 = cc in inl (rw (← at) d))
      | inr d ↦ elim (Option-cases (s.heap p).parsed_qc) [
        | inl missing ↦ absurd (forest.certified p (cc) missing)
        | inr (qc, q) ↦
            let s' = update_hqc s blk2 qc in
            let (heap, b_lock) = hqc_frame s blk2 qc in
            let a = update_hqc-Advances s blk2 qc in
            Locked-Traces s s' t p blk2 e heap b_lock (update_hqc-keeps s blk2 qc) (
              update_lock-Locked s' t blk2 (IsSameTree-IsForest a.same forest) (a.stored i)
                (rw (update, e, d, q) at r))
      ]
    ]
  ]
    where
      idle :
          ok s ≡ ok t
          → ((blk2 blk1 : Ptr)
              → (s.heap p).justify ≡ some blk2
              → (s.heap blk2).justify ≡ some blk1
              → ((s.heap blk2).decided ≡ true)
                ⊎ ((s.heap blk1).decided ≡ true)
                ⊎ ((s.heap blk1).height ≤ (s.heap s.b_lock).height))
          → Traces s t p
      idle e covers =
          subst (λ u. Traces s u p) (ok-injective e)
            (record {
              lock_from = inl refl;
              exec_from = inl refl;
              decided = λ x d. inl d;
              covers = covers;
            })
