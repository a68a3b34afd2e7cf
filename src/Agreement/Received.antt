-- ===== src/Agreement/Received.antt =====
-- A new block enters the heap of a replica.
use hotstuff.Prelude.{◌≡◌, ◌≢◌, sym, ◌⊎◌, inl, inr, arith, Bool-cases, ◌==◌, ==_iff}
use hotstuff.Foreign.{Foreign}
use hotstuff.Block.{Ptr, Block, Heap, write}
use hotstuff.Block.Tree.{IsSameNode}
use hotstuff.Consensus.Reach.{IsFresh, insert, insert-at, insert-other, insert-IsSound}
use hotstuff.Consensus.{Core}
use hotstuff.Agreement.Local.{Known, IsLocal}
use hotstuff.Agreement.Moves.{IsAdmitted}

module _ ⦃f : Foreign⦄ (tree : Heap) (cert good : Ptr → Type 0) (s : Core) (p : Ptr) (b : Block)
    (j : Ptr) (fresh : IsFresh s p b) (admitted : IsAdmitted tree cert s p b j) where
  abbrev grown : Heap
  grown = write s.heap p b

  -- A block of the heap after the insertion is the new one, or was there.
  grown-cases : (x : Ptr) → ((x ≡ p) × (grown x ≡ b)) ⊎ ((p ≢ x) × (grown x ≡ s.heap x))
  grown-cases x = elim (Bool-cases (p == x)) [
    | inl e ↦ let at : p ≡ x = (==_iff p x).0 e in inl (sym at, rw (← at) (insert-at s.heap p b))
    | inr e ↦ let ne : p ≢ x = ground arith in inr (ne, insert-other s.heap p b x ne)
  ]

  still-Known : (x : Ptr) → Known s.heap x → Known grown x
  still-Known x (inl e) = inl e
  still-Known x (inr k) = elim (grown-cases x) [
    | inl (at, same) ↦ absurd (k (rw at admitted.new))
    | inr (ne, same) ↦ inr (rw same k)
  ]

  grown-view :
      ((x : Ptr) → Known s.heap x → IsSameNode (tree x) (s.heap x))
      → (x : Ptr) → Known grown x
      → IsSameNode (tree x) (grown x)
  grown-view view x k = elim (grown-cases x) [
    | inl (at, same) ↦ rw (same, at) admitted.same
    | inr (ne, same) ↦ rw same (view x (elim k [ inl e ↦ inl e | inr n ↦ inr (rw same at n) ]))
  ]

  pub insert-IsLocal : IsLocal tree cert good s → IsLocal tree cert good (insert s p b)
  insert-IsLocal i =
      let lock = insert-other s.heap p b s.b_lock fresh.not_locked in
      record {
        sound = insert-IsSound s p b fresh i.sound;
        genesis = i.genesis;
        view = grown-view i.view;
        blank = λ x e. elim (grown-cases x) [
          | inl (at, same) ↦ cc (rw same at e, admitted.justified)
          | inr (ne, same) ↦ rw same (i.blank x (rw same at e))
        ];
        closed = λ x q e. elim (grown-cases x) [
          | inl (at, same) ↦
              let to : j ≡ q = cc (rw same at e, admitted.justified) in
              still-Known q (rw (← to) admitted.known)
          | inr (ne, same) ↦ still-Known q (i.closed x q (rw same at e))
        ];
        certified = λ x q e. elim (grown-cases x) [
          | inl (at, same) ↦
              let to : j ≡ q = cc (rw same at e, admitted.justified) in rw (← to) admitted.certified
          | inr (ne, same) ↦ i.certified x q (rw same at e)
        ];
        lock_known = still-Known s.b_lock i.lock_known;
        lock_certified = i.lock_certified;
        low = λ x d. elim (grown-cases x) [
          | inl (at, same) ↦ cc (rw same at d, admitted.undecided)
          | inr (ne, same) ↦ rw (same, lock) (i.low x (rw same at d))
        ];
        exec = i.exec;
        voted_known = λ v k. still-Known v (i.voted_known v k);
        top = i.top;
        once = i.once;
        rule = i.rule;
      }
