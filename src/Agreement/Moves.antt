-- ===== src/Agreement/Moves.antt =====
-- The moves of a replica in a group, and that votes are such a move of the lock and the log.
use hotstuff.Prelude.{ℕ, ◌<◌, ◌^◌, ◌≡◌, ◌≢◌, refl, sym, ◌∙◌, inl, false, none, some, arith, ok}
use hotstuff.Foreign.{Foreign}
use hotstuff.Wire.{PartialCertificate}
use hotstuff.Certs.{QuorumCertificate}
use hotstuff.Block.{Ptr, Block, Heap, write}
use hotstuff.Block.Tree.{IsSameNode}
use hotstuff.Consensus.Origin.{hqc_frame}
use hotstuff.Consensus.Update.{update_hqc-keeps}
use hotstuff.Consensus.Ballots.{with_qc, announced, with_qc-Advances, announced-Advances}
use hotstuff.Consensus.Votes.{on_receive_vote-returns}
use hotstuff.Consensus.Reach.{IsFresh, insert}
use hotstuff.Consensus.{Core, call, on_receive_vote, on_receive_proposal}
use hotstuff.Agreement.Local.{OrGenesis, Known}
use hotstuff.Agreement.Moved.{Moved}

-- A new block of the tree whose certificate has been checked.
pub record IsAdmitted (tree : Heap) (cert : Ptr → Type 0) (s : Core) (p : Ptr) (b : Block) (j : Ptr)
    : Type 0 where
  pub same : IsSameNode (tree p) b
  pub justified : b.justify ≡ some j
  pub known : Known s.heap j
  pub certified : OrGenesis cert j
  pub undecided : b.decided ≡ false
  pub new : (s.heap p).justify ≡ none
  pub not_genesis : p ≢ 0

module _ ⦃f : Foreign⦄ where
  pub data Move (tree : Heap) (cert : Ptr → Type 0) (s t : Core) : Type 0 where
    hears_vote :
        (vote : PartialCertificate) (b : Ptr) (voter : ℕ)
        → on_receive_vote s vote b voter ≡ ok t
        → Move tree cert s t
    hears_proposal :
        (p : Ptr) (proposer : ℕ)
        → (s.heap p).justify ≢ none
        → (tree p).height < 2 ^ 32
        → on_receive_proposal s p proposer ≡ ok t
        → Move tree cert s t
    receives :
        (p : Ptr) (b : Block) (j : Ptr)
        → IsFresh s p b
        → IsAdmitted tree cert s p b j
        → t ≡ insert s p b
        → Move tree cert s t

  with_qc-decided :
      (s : Core) (b : Ptr) (qc : QuorumCertificate) (x : Ptr)
      → ((with_qc s b qc).heap x).decided ≡ (s.heap x).decided
  unfolding write
  with_qc-decided s b qc x = ground arith

  counted-Moved : (s : Core) (b : Ptr) (qc : QuorumCertificate) → Moved s (with_qc s b qc)
  counted-Moved s b qc =
      let same = with_qc-decided s b qc in
      record {
        advances = with_qc-Advances s b qc;
        lock_from = inl refl;
        exec_from = inl refl;
        decided = λ x d. inl (sym (same x) ∙ d);
      }

  announced-Moved :
      (s : Core) (b : Ptr) (qc : QuorumCertificate) → Moved s (announced (with_qc s b qc) b qc)
  unfolding call
  announced-Moved s b qc =
      let u = with_qc s b qc in
      let (heap, b_lock) = hqc_frame u b qc in
      let same = with_qc-decided s b qc in
      record {
        advances = announced-Advances s b qc;
        lock_from = inl b_lock;
        exec_from = inl (update_hqc-keeps u b qc);
        decided = λ x d. inl (sym (same x) ∙ (rw heap at d));
      }

  pub vote-Moved :
      (s t : Core) (cert : PartialCertificate) (b : Ptr) (voter : ℕ)
      → on_receive_vote s cert b voter ≡ ok t
      → Moved s t
  vote-Moved s t cert b voter r =
      on_receive_vote-returns (Moved s) s t cert b voter r (λ old. counted-Moved s b _)
        (λ new. announced-Moved s b _)
