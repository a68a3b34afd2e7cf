-- ===== src/Consensus/Advance.antt =====
-- How the state may move in one call of `update`, as a relation that composes.
use mathlib.Core.List.{append-nil, append_assoc}
use hotstuff.Prelude.{◌≤◌, ◌≡◌, refl, sym, ◌∙◌, ap, true, List, [], ◌∷◌, ◌++◌, arith}
use hotstuff.Foreign.{Foreign}
use hotstuff.Block.{Ptr}
use hotstuff.Block.Tree.{
  IsSameTree, IsSameTree-refl, IsSameTree-sym, IsSameTree-trans, Chain, Chain-append, Chain-tree,
}
use hotstuff.Block.Disk.{IsClosed, IsDurable}
use hotstuff.Consensus.Calls.{Call, applied, applied-append, votes, votes-append}
use hotstuff.Consensus.{Core, call}

module _ ⦃f : Foreign⦄ where
  -- The files on disk cover every block that is marked as written, with its ancestors, and the
  -- locked block is so marked.
  pub record IsStored (s : Core) : Type 0 where
    pub closed : IsClosed s.heap
    pub durable : IsDurable s.heap s.disk
    pub locked : (s.heap s.b_lock).written ≡ true

  -- It stands on the tree, the flags of written blocks, the disk and the locked block alone.
  pub IsStored-same :
      (s t : Core)
      → IsSameTree s.heap t.heap
      → ((x : Ptr) → (t.heap x).written ≡ (s.heap x).written)
      → t.disk ≡ s.disk
      → t.b_lock ≡ s.b_lock
      → IsStored s
      → IsStored t
  IsStored-same s t same written disk b_lock i = record {
    closed = λ x q w e. written q ∙ i.closed x q (sym (written x) ∙ w) (sym (same x).parent ∙ e);
    durable = λ x w e.
        rw ((same x).wire, disk) (i.durable x (sym (written x) ∙ w) λ k. e ((same x).parent ∙ k));
    locked = rw (b_lock, written s.b_lock) i.locked;
  }

  -- From `s` to `t`: the tree stays, `b_exec` moves down a chain of children which are applied in
  -- that order, and neither the lock nor the highest certificate falls back.
  pub record Advances (s t : Core) : Type 0 where
    pub same : IsSameTree s.heap t.heap
    pub path : List Ptr
    pub chain : Chain s.heap s.b_exec path t.b_exec
    pub log : applied t.calls ≡ applied s.calls ++ path
    pub voted : votes t.calls ≡ votes s.calls
    pub vheight : t.vheight ≡ s.vheight
    pub genesis : t.genesis ≡ s.genesis
    pub lock : (s.heap s.b_lock).height ≤ (s.heap t.b_lock).height
    pub hqc : (s.heap s.hqc_block).height ≤ (s.heap t.hqc_block).height
    pub stored : IsStored s → IsStored t

  pub Advances-refl : (s : Core) → Advances s s
  Advances-refl s = record {
    same = IsSameTree-refl s.heap;
    path = [];
    chain = refl;
    log = sym (append-nil (applied s.calls));
    voted = refl;
    vheight = refl;
    genesis = refl;
    lock = omega arith;
    hqc = omega arith;
    stored = λ i. i;
  }

  pub Advances-trans : (s t u : Core) → Advances s t → Advances t u → Advances s u
  Advances-trans s t u a b = record {
    same = IsSameTree-trans a.same b.same;
    path = a.path ++ b.path;
    chain =
        Chain-append s.heap s.b_exec a.path t.b_exec b.path u.b_exec a.chain
          (Chain-tree t.heap s.heap t.b_exec b.path u.b_exec (IsSameTree-sym a.same) b.chain);
    log = b.log ∙ ap (λ l. l ++ b.path) a.log ∙ append_assoc (applied s.calls) a.path b.path;
    voted = b.voted ∙ a.voted;
    vheight = b.vheight ∙ a.vheight;
    genesis = b.genesis ∙ a.genesis;
    lock = omega (arith, a.lock, b.lock, (a.same t.b_lock).height, (a.same u.b_lock).height);
    hqc = omega (arith, a.hqc, b.hqc, (a.same t.hqc_block).height, (a.same u.hqc_block).height);
    stored = λ i. b.stored (a.stored i);
  }

  -- A call that neither applies a block nor votes.
  pub call-Advances :
      (s : Core) (c : Call) → applied (c ∷ []) ≡ [] → votes (c ∷ []) ≡ [] → Advances s (call s c)
  unfolding call
  call-Advances s c quiet silent = record {
    same = IsSameTree-refl s.heap;
    path = [];
    chain = refl;
    log = applied-append s.calls (c ∷ []) ∙ ap (◌++◌ (applied s.calls)) quiet;
    voted =
        votes-append s.calls (c ∷ [])
        ∙ ap (◌++◌ (votes s.calls)) silent
        ∙ append-nil (votes s.calls);
    vheight = refl;
    genesis = refl;
    lock = omega arith;
    hqc = omega arith;
    stored = λ i. record { closed = i.closed; durable = i.durable; locked = i.locked };
  }
