-- ===== src/Consensus/Votes.antt =====
-- The accepted votes as moves of the state, and the certificates that they announce.
use mathlib.Core.Path.{subst}
use mathlib.Core.Bool.{false≢true}
use mathlib.Core.List.{append-nil}
use hotstuff.Prelude.{
  ℕ, ◌+◌, ◌≡◌, ◌↔◌, refl, sym, ◌∙◌, ap, ◌⊎◌, inl, inr, true, false, [], ◌∷◌, ◌++◌, arith, has,
  length, ok, ok-injective, throw-ne-ok, ==_refl,
}
use hotstuff.Foreign.{Foreign, IsAscending}
use hotstuff.Wire.{PartialCertificate}
use hotstuff.Certs.{QuorumCertificate, has_quorum, ids}
use hotstuff.Certs.Sigs.{length-emplace}
use hotstuff.Block.{Ptr, write, get_hash}
use hotstuff.Consensus.Calls.{new_qcs, new_qcs-append, on_new_qc, notify_vm_of_qc_on_nonself_block}
use hotstuff.Consensus.Advance.{Advances}
use hotstuff.Consensus.Ballots.{
  certified, with_qc, adds_quorum, announced, Outcome, Accepted, on_receive_vote-Accepted,
  with_qc-Advances, announced-Advances,
}
use hotstuff.Consensus.{Core, call, update_hqc, on_receive_vote}

module _ ⦃f : Foreign⦄ where
  on_receive_vote-takes :
      (P : Core → Type 0) (s t : Core) (cert : PartialCertificate) (b : Ptr) (voter : ℕ)
      → on_receive_vote s cert b voter ≡ ok t
      → Outcome P s cert b voter
      → P t
  on_receive_vote-takes P s t cert b voter r (inl (ne, e)) = absurd (throw-ne-ok (sym e ∙ r))
  on_receive_vote-takes P s t cert b voter r (inr (inl (big, e))) = absurd (throw-ne-ok (sym e ∙ r))
  on_receive_vote-takes P s t cert b voter r (inr (inr (fits, u, e, p))) =
      subst P (ok-injective (sym e ∙ r)) p

  -- What holds after a vote that is counted, and after one that adds a quorum, holds after any
  -- vote that returns.
  pub on_receive_vote-returns :
      (P : Core → Type 0) (s t : Core) (cert : PartialCertificate) (b : Ptr) (voter : ℕ)
      → on_receive_vote s cert b voter ≡ ok t
      → (adds_quorum s cert b voter ≡ false → P (with_qc s b (certified s b cert voter)))
      → (adds_quorum s cert b voter ≡ true
          → P (announced (with_qc s b (certified s b cert voter)) b (certified s b cert voter)))
      → P t
  on_receive_vote-returns P s t cert b voter r counted added =
      elim (on_receive_vote-takes (Accepted s cert b voter) s t cert b voter r
        (on_receive_vote-Accepted s cert b voter)) [
          | inl (old, at) ↦ subst P (sym at) (counted old)
          | inr (new, at) ↦ subst P (sym at) (added new)
        ]

  pub on_receive_vote-Advances :
      (s t : Core) (cert : PartialCertificate) (b : Ptr) (voter : ℕ)
      → on_receive_vote s cert b voter ≡ ok t
      → Advances s t
  on_receive_vote-Advances s t cert b voter r =
      on_receive_vote-returns (Advances s) s t cert b voter r (λ old. with_qc-Advances s b _)
        (λ new. announced-Advances s b _)

  update_hqc-new_qcs :
      (s : Core) (p : Ptr) (qc : QuorumCertificate)
      → new_qcs (update_hqc s p qc).calls ≡ new_qcs s.calls
  unfolding update_hqc call new_qcs
  update_hqc-new_qcs s p qc = ground (
    arith,
    new_qcs-append s.calls (notify_vm_of_qc_on_nonself_block p ∷ []),
    append-nil (new_qcs s.calls),
  )

  -- The vote that completes the quorum: of a new id, with one signature missing before it.
  abbrev pub IsCompleting : Core → Ptr → ℕ → Type 0
  IsCompleting s b voter =
      (has voter (ids (s.heap b).self_qc.sigs) ≡ false)
      × (length (s.heap b).self_qc.sigs + 1 ≡ s.config.nmajority)

  get_hash-with_qc :
      (s : Core) (b : Ptr) (qc : QuorumCertificate)
      → get_hash ((with_qc s b qc).heap b) ≡ qc.obj_hash
  unfolding write get_hash
  get_hash-with_qc s b qc = rw (==_refl b)

  called :
      (s : Core) (b : Ptr) (qc : QuorumCertificate)
      → qc.obj_hash ≡ (s.heap b).self_qc.obj_hash
      → let t = with_qc s b qc in
        new_qcs (call (update_hqc t b qc) (on_new_qc (get_hash (t.heap b)))).calls
        ≡ new_qcs s.calls ++ (s.heap b).self_qc.obj_hash ∷ []
  unfolding call new_qcs
  called s b qc e =
      let t = with_qc s b qc in
      new_qcs-append (update_hqc t b qc).calls _
      ∙ ap (λ h. new_qcs (update_hqc t b qc).calls ++ h ∷ []) (get_hash-with_qc s b qc ∙ e)
      ∙ ap (λ l. l ++ (s.heap b).self_qc.obj_hash ∷ []) (update_hqc-new_qcs t b qc)

  crossing :
      (s : Core) (cert : PartialCertificate) (b : Ptr) (voter : ℕ)
      → IsAscending (ids (s.heap b).self_qc.sigs)
      → (adds_quorum s cert b voter ≡ true) ↔ IsCompleting s b voter
  unfolding has_quorum
  crossing s cert b voter ascending =
      let grown = length-emplace voter cert.sig (s.heap b).self_qc.sigs ascending in
      (λ e. ground (arith, grown), λ c. ground (arith, grown))

  -- When `on_receive_vote` returns for a vote on a block whose signatures are in ascending order
  -- of ids, a new certificate is announced, once and for the block's hash, if the voter is new and
  -- one signature was missing to the quorum; otherwise none is.
  pub new_qcs-on_receive_vote :
      (s t : Core) (cert : PartialCertificate) (b : Ptr) (voter : ℕ)
      → IsAscending (ids (s.heap b).self_qc.sigs)
      → on_receive_vote s cert b voter ≡ ok t
      → (IsCompleting s b voter
          × (new_qcs t.calls ≡ new_qcs s.calls ++ (s.heap b).self_qc.obj_hash ∷ []))
        ⊎ ((¬ IsCompleting s b voter) × (new_qcs t.calls ≡ new_qcs s.calls))
  new_qcs-on_receive_vote s t cert b voter ascending r =
      let exact = crossing s cert b voter ascending in
      on_receive_vote-returns
        (λ u.
          (IsCompleting s b voter
            × (new_qcs u.calls ≡ new_qcs s.calls ++ (s.heap b).self_qc.obj_hash ∷ []))
          ⊎ ((¬ IsCompleting s b voter) × (new_qcs u.calls ≡ new_qcs s.calls)))
        s t cert b voter r (λ old. inr (λ c. false≢true (sym old ∙ exact.1 c), refl))
        (λ new. inl (exact.0 new, called s b (certified s b cert voter) refl))
