-- ===== src/Consensus/Ballots.antt =====
-- `on_receive_vote`: which votes are accepted, and the states that they lead to.
use mathlib.Core.List.{append-nil}
use hotstuff.Prelude.{
  ℕ, ◌≤◌, ◌<◌, ◌≡◌, ◌≢◌, refl, sym, ◌⊎◌, inl, inr, Bool, true, false, not, [], arith, leb, leb→le,
  ◌==◌, ==_iff, ◌&&◌, Bool-cases, ok, throw, wrong_certificate, invalid_replica,
}
use hotstuff.Foreign.{Foreign}
use hotstuff.Wire.{PartialCertificate, max_replicas}
use hotstuff.Certs.{QuorumCertificate, add_partial_certificate, has_quorum, emplace}
use hotstuff.Block.{Ptr, write, get_hash}
use hotstuff.Block.Tree.{IsSameTree, write-IsSameTree}
use hotstuff.Consensus.Calls.{applied, votes, on_new_qc}
use hotstuff.Consensus.Advance.{IsStored-same, Advances, Advances-trans, call-Advances}
use hotstuff.Consensus.Update.{update_hqc-Advances}
use hotstuff.Consensus.{Core, call, update_hqc, on_receive_vote}

module _ ⦃f : Foreign⦄ where
  -- The block `b` with the vote added to its certificate.
  abbrev pub certified : Core → Ptr → PartialCertificate → ℕ → QuorumCertificate
  certified s b cert voter = record {
    obj_hash = (s.heap b).self_qc.obj_hash;
    sigs = emplace voter cert.sig (s.heap b).self_qc.sigs;
  }

  abbrev pub with_qc : Core → Ptr → QuorumCertificate → Core
  with_qc s b qc = record s { heap = write s.heap b (record (s.heap b) { self_qc = qc }) }

  pub with_qc-tree :
      (s : Core) (b : Ptr) (qc : QuorumCertificate) → IsSameTree s.heap (with_qc s b qc).heap
  with_qc-tree s b qc = write-IsSameTree s.heap b _ (record {
    parent = refl;
    height = refl;
    justify = refl;
    parsed_qc = refl;
    wire = refl;
    proposer = refl;
  })

  write-qc-written :
      (s : Core) (b : Ptr) (qc : QuorumCertificate) (x : Ptr)
      → ((with_qc s b qc).heap x).written ≡ (s.heap x).written
  unfolding write
  write-qc-written s b qc x = ground arith

  pub with_qc-Advances : (s : Core) (b : Ptr) (qc : QuorumCertificate) → Advances s (with_qc s b qc)
  with_qc-Advances s b qc = record {
    same = with_qc-tree s b qc;
    path = [];
    chain = refl;
    log = sym (append-nil (applied s.calls));
    voted = refl;
    vheight = refl;
    genesis = refl;
    lock = omega arith;
    hqc = omega arith;
    stored = IsStored-same s _ (with_qc-tree s b qc) (write-qc-written s b qc) refl refl;
  }

  -- The vote adds a quorum to a certificate that had none.
  abbrev pub adds_quorum : Core → PartialCertificate → Ptr → ℕ → Bool
  adds_quorum s cert b voter =
      has_quorum s.config (certified s b cert voter) && not (has_quorum s.config (s.heap b).self_qc)

  -- A state whose new certificate has become known to the application.
  abbrev pub announced : Core → Ptr → QuorumCertificate → Core
  announced t b qc = call (update_hqc t b qc) (on_new_qc (get_hash (t.heap b)))

  pub announced-Advances :
      (s : Core) (b : Ptr) (qc : QuorumCertificate) → Advances s (announced (with_qc s b qc) b qc)
  unfolding applied votes
  announced-Advances s b qc =
      let t = with_qc s b qc in
      Advances-trans s t _ (with_qc-Advances s b qc) (
        Advances-trans t (update_hqc t b qc) _ (update_hqc-Advances t b qc)
          (call-Advances _ _ refl refl))

  -- What a vote that is accepted makes of a state.
  abbrev pub Accepted : Core → PartialCertificate → Ptr → ℕ → Core → Type 0
  Accepted s cert b voter t =
      let qc = certified s b cert voter in
      ((adds_quorum s cert b voter ≡ false) × (t ≡ with_qc s b qc))
      ⊎ ((adds_quorum s cert b voter ≡ true) × (t ≡ announced (with_qc s b qc) b qc))

  abbrev pub Outcome : (Core → Type 0) → Core → PartialCertificate → Ptr → ℕ → Type 0
  Outcome P s cert b voter =
      ((cert.hash ≢ (s.heap b).self_qc.obj_hash)
        × (on_receive_vote s cert b voter ≡ throw wrong_certificate))
      ⊎ (((cert.hash ≡ (s.heap b).self_qc.obj_hash) × (max_replicas ≤ voter))
          × (on_receive_vote s cert b voter ≡ throw invalid_replica))
      ⊎ (((cert.hash ≡ (s.heap b).self_qc.obj_hash) × (voter < max_replicas))
          × (t : Core) × (on_receive_vote s cert b voter ≡ ok t)
          × P t)

  pub on_receive_vote-Accepted :
      (s : Core) (cert : PartialCertificate) (b : Ptr) (voter : ℕ)
      → Outcome (Accepted s cert b voter) s cert b voter
  unfolding on_receive_vote add_partial_certificate
  on_receive_vote-Accepted s cert b voter =
      elim (Bool-cases (cert.hash == (s.heap b).self_qc.obj_hash)) [
        | inr other ↦
            inl (λ e. ground arith, rw (on_receive_vote, add_partial_certificate, other) refl)
        | inl same ↦
            let hash = (==_iff _ _).0 same in
            elim (Bool-cases (leb max_replicas voter)) [
              | inl big ↦ inr (
                  inl (
                    (hash, leb→le _ _ big),
                    rw (on_receive_vote, add_partial_certificate, same, big) refl,
                  ))
              | inr small ↦
                  let fits : voter < max_replicas = ground arith in
                  elim (Bool-cases (adds_quorum s cert b voter)) [
                    | inr old ↦ inr (
                        inr (
                          (hash, fits),
                          _,
                          rw (on_receive_vote, add_partial_certificate, same, small, old) refl,
                          inl (old, refl),
                        ))
                    | inl new ↦ inr (
                        inr (
                          (hash, fits),
                          _,
                          rw (on_receive_vote, add_partial_certificate, same, small, new) refl,
                          inr (new, refl),
                        ))
                  ]
            ]
      ]
