-- ===== src/Agreement/Moved.antt =====
-- Moves of a replica that leave its tree and its votes as they are.
use hotstuff.Prelude.{◌≤◌, ◌≡◌, sym, ◌∙◌, ◌⊎◌, inl, inr, true, some, arith, Option-cases}
use hotstuff.Foreign.{Foreign}
use hotstuff.Block.{Ptr, Heap}
use hotstuff.Block.Tree.{IsSameTree, IsSameNode-trans}
use hotstuff.Consensus.Advance.{Advances}
use hotstuff.Consensus.Origin.{Traces}
use hotstuff.Consensus.Settled.{IsThreeChain}
use hotstuff.Consensus.Run.{Advances-IsSound}
use hotstuff.Consensus.{Core}
use hotstuff.Agreement.Tree.{IsTree, genesis_root}
use hotstuff.Agreement.Local.{OrGenesis, Known, IsCommitted, Covers, IsLocal}

module _ ⦃f : Foreign⦄ where
  -- The tree and the votes stay; lock, executed block and decided blocks move by the rules.
  pub record Moved (s t : Core) : Type 0 where
    pub advances : Advances s t
    pub lock_from : (t.b_lock ≡ s.b_lock) ⊎ ((b : Ptr) × ((s.heap b).justify ≡ some t.b_lock))
    pub exec_from :
        (t.b_exec ≡ s.b_exec)
        ⊎ ((p blk2 blk1 : Ptr) × ((s.heap p).justify ≡ some blk2)
            × ((s.heap blk2).justify ≡ some blk1)
            × IsThreeChain s.heap blk2 blk1 t.b_exec)
    pub decided :
        (x : Ptr)
        → (t.heap x).decided ≡ true
        → ((s.heap x).decided ≡ true) ⊎ ((s.heap x).height ≤ (s.heap t.b_lock).height)

  pub Traces-Moved : (s t : Core) (p : Ptr) → Advances s t → Traces s t p → Moved s t
  Traces-Moved s t p a r = record {
    advances = a;
    lock_from = r.lock_from;
    exec_from = elim r.exec_from [
      | inl e ↦ inl e
      | inr (blk2, blk1, e, k, c) ↦ inr (p, blk2, blk1, e, k, c)
    ];
    decided = r.decided;
  }

  same-Known : {h g : Heap} (p : Ptr) → IsSameTree h g → Known h p → Known g p
  same-Known p same (inl e) = inl e
  same-Known p same (inr k) = inr (λ e. k (sym (same p).justify ∙ e))

  pub justified-Known : (h : Heap) (p j : Ptr) → (h p).justify ≡ some j → Known h p
  justified-Known h p j e = inr (λ k. cc)

  module _ (tree : Heap) (is_tree : IsTree tree) (cert good : Ptr → Type 0) (s : Core)
      (i : IsLocal tree cert good s) where
    -- What is linked in the replica's heap is linked in the tree.
    pub tree_parent : (p q : Ptr) → (s.heap p).parent ≡ some q → (tree p).parent ≡ some q
    tree_parent p q e = elim (Option-cases (s.heap p).justify) [
      | inl k ↦ cc (i.blank p k, e)
      | inr (j, k) ↦ sym (i.view p (justified-Known s.heap p j k)).parent ∙ e
    ]

    pub tree_justify : (p j : Ptr) → (s.heap p).justify ≡ some j → (tree p).justify ≡ some j
    tree_justify p j e = sym (i.view p (justified-Known s.heap p j e)).justify ∙ e

    tree_chain :
        (blk2 blk1 blk : Ptr) → IsThreeChain s.heap blk2 blk1 blk → IsThreeChain tree blk2 blk1 blk
    tree_chain blk2 blk1 blk c = record {
      justified = tree_justify blk1 blk c.justified;
      parent2 = tree_parent blk2 blk1 c.parent2;
      parent1 = tree_parent blk1 blk c.parent1;
    }

    chain-IsCommitted :
        (p blk2 blk1 blk : Ptr)
        → (s.heap p).justify ≡ some blk2
        → (s.heap blk2).justify ≡ some blk1
        → IsThreeChain s.heap blk2 blk1 blk
        → IsCommitted tree cert blk
    chain-IsCommitted p blk2 blk1 blk e k c = elim (i.certified p blk2 e) [
      | inl at ↦
          let top : (tree 0).parent ≡ some blk1 = rw at at (tree_chain blk2 blk1 blk c).parent2 in
          cc (genesis_root tree is_tree, top)
      | inr signed ↦ (blk2, blk1, signed, tree_justify blk2 blk1 k, tree_chain blk2 blk1 blk c)
    ]

    pub Moved-IsLocal : (t : Core) → Moved s t → IsLocal tree cert good t
    Moved-IsLocal t m =
        let a = m.advances in
        let back = λ (p : Ptr) (k : Known t.heap p). same_back t m p k in
        record {
          sound = Advances-IsSound s t a i.sound;
          genesis = a.genesis ∙ i.genesis;
          view = λ p k. IsSameNode-trans (i.view p (back p k)) (a.same p);
          blank = λ p e. (a.same p).parent ∙ i.blank p (sym (a.same p).justify ∙ e);
          closed = λ p j e. same-Known j a.same (i.closed p j (sym (a.same p).justify ∙ e));
          certified = λ p j e. i.certified p j (sym (a.same p).justify ∙ e);
          lock_known = same-Known t.b_lock a.same (lock t m).0;
          lock_certified = (lock t m).1;
          low = λ x d. elim (m.decided x d) [
            | inl old ↦
                rw ((a.same x).height, (a.same t.b_lock).height)
                  (omega (arith, i.low x old, a.lock))
            | inr new ↦ rw ((a.same x).height, (a.same t.b_lock).height) new
          ];
          exec = elim m.exec_from [
            | inl old ↦ rw old i.exec
            | inr (p, blk2, blk1, e, k, c) ↦ inr (chain-IsCommitted p blk2 blk1 t.b_exec e k c)
          ];
          voted_known = λ v k. same-Known v a.same (i.voted_known v (rw a.voted at k));
          top = λ v k. rw a.vheight (i.top v (rw a.voted at k));
          once = λ v w k l. i.once v w (rw a.voted at k) (rw a.voted at l);
          rule = λ x k. rw a.voted (i.rule x (rw a.voted at k));
        }
      where
        same_back : (t : Core) → Moved s t → (p : Ptr) → Known t.heap p → Known s.heap p
        same_back t m p (inl e) = inl e
        same_back t m p (inr k) = inr (λ e. k ((m.advances.same p).justify ∙ e))

        lock : (t : Core) → Moved s t → Known s.heap t.b_lock × OrGenesis cert t.b_lock
        lock t m = elim m.lock_from [
          | inl old ↦ rw old (i.lock_known, i.lock_certified)
          | inr (b, e) ↦ (i.closed b t.b_lock e, i.certified b t.b_lock e)
        ]

    -- In terms of the tree, the lock does not fall back.
    pub Moved-lock : (t : Core) → Moved s t → (tree s.b_lock).height ≤ (tree t.b_lock).height
    Moved-lock t m =
        let j = Moved-IsLocal t m in
        let here = (i.view s.b_lock i.lock_known).height in
        let there = (j.view t.b_lock j.lock_known).height in
        omega (arith, here, there, (m.advances.same t.b_lock).height, m.advances.lock)

    pub Moved-Covers :
        (t : Core) (voted : Ptr → Type 0) → Moved s t → Covers tree s voted → Covers tree t voted
    Moved-Covers t voted m covers v b1 b0 k j1 j0 =
        omega (arith, Moved-lock t m, covers v b1 b0 k j1 j0)
