-- ===== src/Consensus/Commit.antt =====
-- The commit of a chain: `commit_all`, `finish_commit` and `commit_chain` of `Consensus`.
use mathlib.Core.List.{reverse, append-nil, append_assoc}
use hotstuff.Prelude.{
  suc, ◌≡◌, ◌≢◌, refl, sym, ◌∙◌, ap, ◌⊎◌, inl, inr, none, List, [], ◌∷◌, ◌++◌, arith, ◌==◌, ==_iff,
  Bool-cases, Option-cases, ok, throw, safety_breached,
}
use mathlib.Core.Path.{subst}
use mathlib.Core.Bool.{false≢true}
use hotstuff.Certs.{QuorumCertificate, serialize}
use hotstuff.Foreign.{Foreign}
use hotstuff.Block.{Ptr, Heap, Block, write, decide, get_justify_qc}
use hotstuff.Block.Tree.{
  IsForest, IsSameNode, IsSameTree, IsSameTree-refl, IsSameTree-trans, write-IsSameTree, Extends,
  Chain, Extends-eq,
}
use hotstuff.Consensus.Calls.{
  applied, applied-append, votes, votes-append, open_txn, set_qc_on_top_block, commit,
  notify_ok_to_prune_blocks,
}
use hotstuff.Consensus.Walk.{collect-IsQueue}
use hotstuff.Consensus.Advance.{IsStored-same, Advances, Advances-trans, call-Advances}
use hotstuff.Consensus.{
  Core, call, commit_block, commit_all, apply_queue, finish_commit, commit_chain,
}

decide-IsSameNode : (b : Block) → IsSameNode b (decide b)
unfolding decide
decide-IsSameNode b = record {
  parent = refl;
  height = refl;
  justify = refl;
  parsed_qc = refl;
  wire = refl;
  proposer = refl;
}

write-decide-written : (h : Heap) (p x : Ptr) → (write h p (decide (h p)) x).written ≡ (h x).written
unfolding write decide
write-decide-written h p x = ground arith

-- What committing the blocks of a list does to the state: they are applied in order.
pub record Commits (s : Core) (bs : List Ptr) (t : Core) : Type 0 where
  pub same : IsSameTree s.heap t.heap
  pub written : (x : Ptr) → (t.heap x).written ≡ (s.heap x).written
  pub log : applied t.calls ≡ applied s.calls ++ bs
  pub voted : votes t.calls ≡ votes s.calls
  pub disk : t.disk ≡ s.disk
  pub b_lock : t.b_lock ≡ s.b_lock
  pub hqc_block : t.hqc_block ≡ s.hqc_block
  pub vheight : t.vheight ≡ s.vheight
  pub genesis : t.genesis ≡ s.genesis

commit_block-Commits : (s : Core) (b : Ptr) → Commits s (b ∷ []) (commit_block s b)
unfolding commit_block call applied votes
commit_block-Commits s b = record {
  same = write-IsSameTree s.heap b _ (decide-IsSameNode (s.heap b));
  written = write-decide-written s.heap b;
  log = rw append_assoc (applied-append s.calls _);
  voted = rw append_assoc (votes-append s.calls _ ∙ append-nil (votes s.calls));
  disk = refl;
  b_lock = refl;
  hqc_block = refl;
  vheight = refl;
  genesis = refl;
}

Commits-nil : (s : Core) → Commits s [] s
Commits-nil s = record {
  same = IsSameTree-refl s.heap;
  written = λ x. refl;
  log = sym (append-nil (applied s.calls));
  voted = refl;
  disk = refl;
  b_lock = refl;
  hqc_block = refl;
  vheight = refl;
  genesis = refl;
}

Commits-trans :
    (s t u : Core) (xs ys : List Ptr) → Commits s xs t → Commits t ys u → Commits s (xs ++ ys) u
Commits-trans s t u xs ys a b = record {
  same = IsSameTree-trans a.same b.same;
  written = λ x. b.written x ∙ a.written x;
  log = b.log ∙ ap (λ l. l ++ ys) a.log ∙ append_assoc (applied s.calls) xs ys;
  voted = b.voted ∙ a.voted;
  disk = b.disk ∙ a.disk;
  b_lock = b.b_lock ∙ a.b_lock;
  hqc_block = b.hqc_block ∙ a.hqc_block;
  vheight = b.vheight ∙ a.vheight;
  genesis = b.genesis ∙ a.genesis;
}

pub commit_all-Commits : (s : Core) (bs : List Ptr) → Commits s bs (commit_all s bs)
unfolding commit_all
commit_all-Commits s [] = Commits-nil s
commit_all-Commits s (b ∷ bs) =
    Commits-trans s (commit_block s b) _ (b ∷ []) bs (commit_block-Commits s b)
      (commit_all-Commits (commit_block s b) bs)

module _ ⦃f : Foreign⦄ where
  Commits-Advances :
      (s t : Core) (bs : List Ptr) (blk : Ptr)
      → Commits s bs t
      → Chain s.heap s.b_exec bs blk
      → Advances s (record t { b_exec = blk })
  Commits-Advances s t bs blk c chain = record {
    same = c.same;
    path = bs;
    chain = chain;
    log = c.log;
    voted = c.voted;
    vheight = c.vheight;
    genesis = c.genesis;
    lock = rw c.b_lock (omega arith);
    hqc = rw c.hqc_block (omega arith);
    stored = IsStored-same s _ c.same c.written c.disk c.b_lock;
  }

  apply_queue-Advances :
      (s : Core) (blk : Ptr) (queue : List Ptr) (top_qc : QuorumCertificate)
      → Chain s.heap s.b_exec (reverse queue) blk
      → Advances s (apply_queue s blk queue top_qc)
  unfolding apply_queue applied votes
  apply_queue-Advances s blk queue top_qc chain =
      let s1 = call s open_txn in
      let bs = reverse queue in
      let t1 = record (commit_all s1 bs) { b_exec = blk } in
      let t2 = call t1 (set_qc_on_top_block (serialize top_qc)) in
      let t3 = call t2 commit in
      let opened = call-Advances s open_txn refl refl in
      let applies =
        Commits-Advances s1 (commit_all s1 bs) bs blk (commit_all-Commits s1 bs) chain in
      let ends = Advances-trans t1 t2 _ (call-Advances t1 _ refl refl) (
        Advances-trans t2 t3 _ (call-Advances t2 commit refl refl)
          (call-Advances t3 (notify_ok_to_prune_blocks (t3.heap blk).height) refl refl)) in
      Advances-trans s t1 _ (Advances-trans s s1 t1 opened applies) ends

  -- With a queue that leads from `b_exec` to the new block the commit goes through.
  finish_commit-Advances :
      (s : Core) (blk blk1 : Ptr) (queue : List Ptr)
      → (s.heap blk1).parsed_qc ≢ none
      → Chain s.heap s.b_exec (reverse queue) blk
      → (t : Core) × (finish_commit s blk blk1 queue ≡ ok t) × Advances s t
  unfolding finish_commit get_justify_qc
  finish_commit-Advances s blk blk1 queue has_qc chain =
      elim (Option-cases (s.heap blk1).parsed_qc) [
        | inl e ↦ absurd (has_qc e)
        | inr (qc, e) ↦
            (apply_queue s blk queue qc, rw e refl, apply_queue-Advances s blk queue qc chain)
      ]

  -- The commit of a chain of certificates: it goes through, or the blocks under `blk` do not lead
  -- to the last executed block.
  pub commit_chain-Advances :
      (s : Core) (blk blk1 blk2 : Ptr)
      → IsForest s.heap
      → (s.heap blk1).parsed_qc ≢ none
      → ((t : Core) × (commit_chain s blk blk1 blk2 ≡ ok t) × Advances s t)
        ⊎ ((commit_chain s blk blk1 blk2 ≡ throw safety_breached) × ¬ Extends s.heap s.b_exec blk)
  unfolding commit_chain
  commit_chain-Advances s blk blk1 blk2 forest has_qc =
      let (queue, last, r, q) =
        collect-IsQueue (suc (s.heap blk).height) s.heap blk (s.heap s.b_exec).height forest
          (omega arith) in
      elim (Bool-cases (last == s.b_exec)) [
        | inl e ↦
            let at : last ≡ s.b_exec = (==_iff last s.b_exec).0 e in
            let (t, r', a) =
              finish_commit-Advances s blk blk1 queue has_qc
                (subst (λ l. Chain s.heap l (reverse queue) blk) at q.chain) in
            inl (t, rw (r, e) r', a)
        | inr e ↦ inr (
          rw (r, e) refl,
          λ x.
              let at = Extends-eq forest (q.top s.b_exec x (omega arith)) q.reached in
              false≢true (sym e ∙ (==_iff last s.b_exec).1 (sym at)),
        )
      ]
