-- ===== src/Consensus/Reach.antt =====
-- The states that a replica can reach, and what holds in all of them.
use hotstuff.Prelude.{
  ℕ, ◌≡◌, ◌≢◌, refl, sym, ap, ◌∙◌, true, false, none, some, List, [], ◌∷◌, arith, ==_refl, has, ok,
}
use hotstuff.Foreign.{Foreign}
use hotstuff.Wire.{PartialCertificate}
use hotstuff.Config.{ReplicaConfig}
use hotstuff.Block.{Ptr, Block, Heap, write, genesis_block}
use hotstuff.Block.Tree.{IsForest, Chain}
use hotstuff.Consensus.Calls.{applied, votes}
use hotstuff.Consensus.Advance.{IsStored}
use hotstuff.Consensus.Run.{IsSound, Advances-IsSound, voted, voted-IsSound, proposal-Advances}
use hotstuff.Consensus.Votes.{on_receive_vote-Advances}
use hotstuff.Consensus.{Core, init, on_receive_vote, on_receive_proposal}

-- A new block at an address that nothing refers to, such as the block store links into the tree.
pub record IsFresh (s : Core) (p : Ptr) (b : Block) : Type 0 where
  pub no_child : (x : Ptr) → (s.heap x).parent ≢ some p
  pub unlinked : (s.heap p).parent ≡ none
  pub not_locked : p ≢ s.b_lock
  pub not_voted : has p (votes s.calls) ≡ false
  pub unwritten : b.written ≡ false
  pub forest : IsForest (write s.heap p b)

abbrev pub insert : Core → Ptr → Block → Core
insert s p b = record s { heap = write s.heap p b }

module _ ⦃f : Foreign⦄ where
  -- One event: a vote, a proposal, or a block that enters the store. An event that ends in an
  -- exception has no successor.
  pub data Step (s t : Core) : Type 0 where
    votes_for :
        (cert : PartialCertificate) (b : Ptr) (voter : ℕ)
        → on_receive_vote s cert b voter ≡ ok t
        → Step s t
    proposes : (p : Ptr) (proposer : ℕ) → on_receive_proposal s p proposer ≡ ok t → Step s t
    inserts : (p : Ptr) (b : Block) → IsFresh s p b → t ≡ insert s p b → Step s t

  pub data Reach (s : Core) : Core → Type 0 where
    here : Reach s s
    next : {t u : Core} → Reach s t → Step t u → Reach s u

  pub insert-at : (h : Heap) (p : Ptr) (b : Block) → write h p b p ≡ b
  unfolding write
  insert-at h p b = rw (==_refl p)

  pub insert-other : (h : Heap) (p : Ptr) (b : Block) (x : Ptr) → p ≢ x → write h p b x ≡ h x
  unfolding write
  insert-other h p b x ne = ground arith

  insert-Chain :
      (s : Core) (p : Ptr) (b : Block) (a : Ptr) (xs : List Ptr) (c : Ptr)
      → IsFresh s p b
      → Chain s.heap a xs c
      → Chain (write s.heap p b) a xs c
  insert-Chain s p b a [] c new e = e
  insert-Chain s p b a (x ∷ xs) c new (e, rest) =
      let other : p ≢ x = λ at. cc (rw (← at) at e, new.unlinked) in
      (rw (insert-other s.heap p b x other) e, insert-Chain s p b x xs c new rest)

  -- What is marked as written is not the new block.
  insert-cases :
      (s : Core) (p : Ptr) (b : Block)
      → IsFresh s p b
      → (x : Ptr) → (write s.heap p b x).written ≡ true
      → (p ≢ x) × (write s.heap p b x ≡ s.heap x)
  insert-cases s p b new x w =
      let ne : p ≢ x = λ at. cc (rw (← at, insert-at s.heap p b) at w, new.unwritten) in
      (ne, insert-other s.heap p b x ne)

  insert-IsStored :
      (s : Core) (p : Ptr) (b : Block) → IsFresh s p b → IsStored s → IsStored (insert s p b)
  insert-IsStored s p b new i = record {
    closed = λ x q w e.
        let (ne, same) = insert-cases s p b new x w in
        let link : (s.heap x).parent ≡ some q = ap (λ (c : Block). c.parent) (sym same) ∙ e in
        let apart : p ≢ q = λ at. new.no_child x (link ∙ ap some (sym at)) in
        rw (insert-other s.heap p b q apart)
          (i.closed x q (ap (λ (c : Block). c.written) (sym same) ∙ w) link);
    durable = λ x w e.
        let (ne, same) = insert-cases s p b new x w in
        rw same (
          i.durable x (ap (λ (c : Block). c.written) (sym same) ∙ w)
            λ k. e (ap (λ (c : Block). c.parent) same ∙ k));
    locked = rw (insert-other s.heap p b s.b_lock new.not_locked) i.locked;
  }

  pub insert-IsSound :
      (s : Core) (p : Ptr) (b : Block) → IsFresh s p b → IsSound s → IsSound (insert s p b)
  insert-IsSound s p b new i = record {
    forest = new.forest;
    stored = insert-IsStored s p b new i.stored;
    log = insert-Chain s p b s.genesis (applied s.calls) s.b_exec new i.log;
  }

  Step-IsSound : {s t : Core} → Step s t → IsSound s → IsSound t
  Step-IsSound {s} {t} (votes_for cert b voter r) i =
      Advances-IsSound s t (on_receive_vote-Advances s t cert b voter r) i
  Step-IsSound {s} {t} (proposes p proposer r) i =
      let (agrees, o, a) = proposal-Advances s t p proposer i r in
      Advances-IsSound (voted s p proposer agrees) t a (voted-IsSound s p proposer agrees i)
  Step-IsSound {s} (inserts p b new e) i = rw e (insert-IsSound s p b new i)

  pub Reach-IsSound : {s t : Core} → Reach s t → IsSound s → IsSound t
  Reach-IsSound here i = i
  Reach-IsSound (next r st) i = Step-IsSound st (Reach-IsSound r i)

  pub init-IsSound : (config : ReplicaConfig) (self_id : ℕ) → IsSound (init config self_id)
  unfolding init genesis_block applied
  init-IsSound config self_id = record {
    forest = record { linked = λ p q e. cc; rooted = λ p e. refl; certified = λ p j e. j refl };
    stored = record { closed = λ x q w e. cc; durable = λ x w e. absurd (e refl); locked = refl };
    log = refl;
  }

  pub run-IsSound :
      (config : ReplicaConfig) (self_id : ℕ) (t : Core) → Reach (init config self_id) t → IsSound t
  run-IsSound config self_id t r = Reach-IsSound r (init-IsSound config self_id)
