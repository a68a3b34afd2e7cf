-- ===== src/Consensus/Settled.antt =====
-- What the commit rule does: where the executed block comes from, and which blocks are decided.
use mathlib.Core.List.{reverse}
use mathlib.Core.Path.{subst}
use hotstuff.Prelude.{
  suc, ◌≡◌, refl, sym, ◌∙◌, ap, ◌⊎◌, inl, inr, true, some, List, [], ◌∷◌, arith, ◌==◌, ==_iff, ◌&&◌,
  All, Bool-cases, Option-cases, ok, ok-injective, throw-ne-ok,
}
use hotstuff.Foreign.{Foreign}
use hotstuff.Certs.{QuorumCertificate}
use hotstuff.Block.{Ptr, Heap, write, decide, get_justify_qc}
use hotstuff.Block.Tree.{IsForest, IsSameTree, Extends, up, Chain, Chain-Extends}
use hotstuff.Consensus.Walk.{collect-IsQueue}
use hotstuff.Consensus.Commit.{commit_all-Commits}
use hotstuff.Consensus.Update.{is_parent_sound}
use hotstuff.Consensus.{
  Core, call, commit_block, commit_all, is_parent, apply_queue, finish_commit, commit_chain,
  update_commit,
}

-- A block that commits is decided, and no other block becomes so.
commit_all-decided :
    (P : Ptr → Type 0) (s : Core) (bs : List Ptr)
    → All P bs
    → (x : Ptr) → ((commit_all s bs).heap x).decided ≡ true
    → ((s.heap x).decided ≡ true) ⊎ P x
unfolding commit_all commit_block call write decide
commit_all-decided P s [] a x d = inl d
commit_all-decided P s (b ∷ bs) a x d = elim (commit_all-decided P (commit_block s b) bs a.1 x d) [
  | inr p ↦ inr p
  | inl d' ↦ elim (Bool-cases (b == x)) [
    | inl e ↦ let at : b ≡ x = (==_iff b x).0 e in inr (rw (← at) a.0)
    | inr e ↦ inl (rw e at d')
  ]
]

Chain-All :
    (h : Heap) (a : Ptr) (xs : List Ptr) (b : Ptr) → Chain h a xs b → All (λ x. Extends h x b) xs
Chain-All h a [] b c = tt
Chain-All h a (x ∷ xs) b (e, rest) = (Chain-Extends h x xs b rest, Chain-All h x xs b rest)

-- The commit rule: `blk` is certified by its child `blk1`, a parent link, and `blk1` is the
-- parent of `blk2`.
pub record IsThreeChain (h : Heap) (blk2 blk1 blk : Ptr) : Type 0 where
  pub justified : (h blk1).justify ≡ some blk
  pub parent2 : (h blk2).parent ≡ some blk1
  pub parent1 : (h blk1).parent ≡ some blk

module _ ⦃f : Foreign⦄ where
  -- What the commit of a chain does beside the calls.
  pub record EndsAt (s t : Core) (blk : Ptr) : Type 0 where
    pub b_exec : t.b_exec ≡ blk
    pub b_lock : t.b_lock ≡ s.b_lock
    pub decided :
        (x : Ptr) → (t.heap x).decided ≡ true → ((s.heap x).decided ≡ true) ⊎ Extends s.heap x blk

  apply_queue-EndsAt :
      (s : Core) (blk : Ptr) (queue : List Ptr) (qc : QuorumCertificate)
      → Chain s.heap s.b_exec (reverse queue) blk
      → EndsAt s (apply_queue s blk queue qc) blk
  unfolding apply_queue call
  apply_queue-EndsAt s blk queue qc chain = record {
    b_exec = refl;
    b_lock = (commit_all-Commits _ (reverse queue)).b_lock;
    decided =
        commit_all-decided (λ x. Extends s.heap x blk) _ (reverse queue)
          (Chain-All s.heap s.b_exec (reverse queue) blk chain);
  }

  finish_commit-EndsAt :
      (s t : Core) (blk blk1 : Ptr) (queue : List Ptr)
      → Chain s.heap s.b_exec (reverse queue) blk
      → finish_commit s blk blk1 queue ≡ ok t
      → EndsAt s t blk
  unfolding finish_commit get_justify_qc
  finish_commit-EndsAt s t blk blk1 queue chain r = elim (Option-cases (s.heap blk1).parsed_qc) [
    | inl e ↦ absurd (throw-ne-ok (rw e at r))
    | inr (qc, e) ↦
        let made : apply_queue s blk queue qc ≡ t = ok-injective (rw e at r) in
        subst (λ u. EndsAt s u blk) made (apply_queue-EndsAt s blk queue qc chain)
  ]

  commit_chain-EndsAt :
      (s t : Core) (blk blk1 blk2 : Ptr)
      → IsForest s.heap
      → commit_chain s blk blk1 blk2 ≡ ok t
      → EndsAt s t blk
  unfolding commit_chain
  commit_chain-EndsAt s t blk blk1 blk2 forest r =
      let (queue, last, got, q) =
        collect-IsQueue (suc (s.heap blk).height) s.heap blk (s.heap s.b_exec).height forest
          (omega arith) in
      elim (Bool-cases (last == s.b_exec)) [
        | inr e ↦ absurd (throw-ne-ok (rw (got, e) at r))
        | inl e ↦
            let at : last ≡ s.b_exec = (==_iff last s.b_exec).0 e in
            finish_commit-EndsAt s t blk blk1 queue
              (subst (λ l. Chain s.heap l (reverse queue) blk) at q.chain) (rw (got, e) at r)
      ]

  -- What the commit rule does: nothing, or it commits up to the end of a chain.
  pub record Settles (s t : Core) (blk2 blk1 : Ptr) : Type 0 where
    pub b_lock : t.b_lock ≡ s.b_lock
    pub exec_from : (t.b_exec ≡ s.b_exec) ⊎ IsThreeChain s.heap blk2 blk1 t.b_exec
    pub decided :
        (x : Ptr) → (t.heap x).decided ≡ true → ((s.heap x).decided ≡ true) ⊎ Extends s.heap x blk1

  Settles-refl : (s : Core) (blk2 blk1 : Ptr) → Settles s s blk2 blk1
  Settles-refl s blk2 blk1 = record { b_lock = refl; exec_from = inl refl; decided = λ x d. inl d }

  pub update_commit-Settles :
      (s t : Core) (blk1 blk2 : Ptr)
      → IsForest s.heap
      → update_commit s blk1 blk2 ≡ ok t
      → Settles s t blk2 blk1
  unfolding update_commit
  update_commit-Settles s t blk1 blk2 forest r = elim (Option-cases (s.heap blk1).justify) [
    | inl e ↦ idle (rw (update_commit, e) at r)
    | inr (blk, e) ↦ elim (Bool-cases (s.heap blk).decided) [
      | inl d ↦ idle (rw (update_commit, e, d) at r)
      | inr d ↦ elim (Bool-cases (is_parent s.heap blk1 blk2 && is_parent s.heap blk blk1)) [
        | inr apart ↦ idle (rw (update_commit, e, d, apart) at r)
        | inl chain ↦
            let c =
              commit_chain-EndsAt s t blk blk1 blk2 forest (rw (update_commit, e, d, chain) at r) in
            let link : (s.heap blk1).parent ≡ some blk =
              is_parent_sound s.heap blk blk1 (ground arith) in
            record {
              b_lock = c.b_lock;
              exec_from = inr (record {
                justified = e ∙ ap some (sym c.b_exec);
                parent2 = is_parent_sound s.heap blk1 blk2 (ground arith);
                parent1 = link ∙ ap some (sym c.b_exec);
              });
              decided = λ x dx. elim (c.decided x dx) [
                | inl old ↦ inl old
                | inr under ↦ inr (up link under)
              ];
            }
      ]
    ]
  ]
    where
      idle : ok s ≡ ok t → Settles s t blk2 blk1
      idle e = subst (λ u. Settles s u blk2 blk1) (ok-injective e) (Settles-refl s blk2 blk1)

  pub IsThreeChain-tree :
      {h g : Heap} {blk2 blk1 blk : Ptr}
      → IsSameTree h g
      → IsThreeChain g blk2 blk1 blk
      → IsThreeChain h blk2 blk1 blk
  IsThreeChain-tree {blk2} {blk1} same c = record {
    justified = sym (same blk1).justify ∙ c.justified;
    parent2 = sym (same blk2).parent ∙ c.parent2;
    parent1 = sym (same blk1).parent ∙ c.parent1;
  }
