-- ===== src/Consensus/Quorum.antt =====
-- `on_receive_vote`: votes add up to a certificate.
use mathlib.Core.Bool.{false≢true}
use hotstuff.Prelude.{
  ℕ, ◌<◌, ◌≡◌, ◌≢◌, refl, sym, ◌∙◌, ap, ◌⊎◌, inl, inr, true, false, arith, ltb, ◌==◌, ==_refl,
  Bool-cases,
}
use hotstuff.Foreign.{Foreign}
use hotstuff.Wire.{PartialCertificate}
use hotstuff.Certs.{QuorumCertificate, serialize}
use hotstuff.Block.{Ptr, Heap, write}
use hotstuff.Consensus.Ballots.{
  certified, with_qc, adds_quorum, announced, Outcome, on_receive_vote-Accepted, with_qc-tree,
}
use hotstuff.Consensus.{Core, call, update_hqc}

module _ ⦃f : Foreign⦄ where
  -- The vote adds a quorum, to a block above that of the highest certificate.
  abbrev pub IsHighest : Core → PartialCertificate → Ptr → ℕ → Type 0
  IsHighest s cert b voter =
      (adds_quorum s cert b voter ≡ true) × ((s.heap s.hqc_block).height < (s.heap b).height)

  -- The vote is added to the certificate of its block and changes no other block; the block and
  -- its certificate become the highest and the leaf, or not.
  pub record Counts (s : Core) (cert : PartialCertificate) (b : Ptr) (voter : ℕ) (t : Core)
      : Type 0 where
    pub added : (t.heap b).self_qc ≡ certified s b cert voter
    pub others : (x : Ptr) → b ≢ x → t.heap x ≡ s.heap x
    pub highest :
        (IsHighest s cert b voter
          × ((t.hqc_block ≡ b) × (t.b_leaf ≡ b) × (t.hqc ≡ serialize (certified s b cert voter))))
        ⊎ ((¬ IsHighest s cert b voter)
            × ((t.hqc_block ≡ s.hqc_block) × (t.b_leaf ≡ s.b_leaf) × (t.hqc ≡ s.hqc)))
    pub kept : (t.vheight ≡ s.vheight) × (t.b_lock ≡ s.b_lock) × (t.b_exec ≡ s.b_exec)

  added_at : (s : Core) (b : Ptr) (qc : QuorumCertificate) → ((with_qc s b qc).heap b).self_qc ≡ qc
  unfolding write
  added_at s b qc = rw (==_refl b) refl

  other_at :
      (s : Core) (b : Ptr) (qc : QuorumCertificate) (x : Ptr)
      → b ≢ x
      → (with_qc s b qc).heap x ≡ s.heap x
  unfolding write
  other_at s b qc x ne = ground arith

  update_hqc-cases :
      (t : Core) (b : Ptr) (qc : QuorumCertificate)
      → let u = update_hqc t b qc in
        (u.heap ≡ t.heap)
        × ((u.vheight ≡ t.vheight) × (u.b_lock ≡ t.b_lock) × (u.b_exec ≡ t.b_exec))
        × ((((t.heap t.hqc_block).height < (t.heap b).height)
              × ((u.hqc_block ≡ b) × (u.b_leaf ≡ b) × (u.hqc ≡ serialize qc)))
            ⊎ ((¬ ((t.heap t.hqc_block).height < (t.heap b).height))
                × ((u.hqc_block ≡ t.hqc_block) × (u.b_leaf ≡ t.b_leaf) × (u.hqc ≡ t.hqc))))
  unfolding update_hqc call
  update_hqc-cases t b qc = elim (Bool-cases (ltb (t.heap t.hqc_block).height (t.heap b).height)) [
    | inr low ↦
        rw (update_hqc, low)
          (refl, (refl, refl, refl), inr (λ lt. ground arith, (refl, refl, refl)))
    | inl high ↦
        let above : (t.heap t.hqc_block).height < (t.heap b).height = ground arith in
        elim (Bool-cases ((t.heap b).proposer == t.self_id)) [
          | inl own ↦
              rw (update_hqc, high, own) (refl, (refl, refl, refl), inl (above, (refl, refl, refl)))
          | inr foreign ↦
              rw (update_hqc, high, foreign)
                (refl, (refl, refl, refl), inl (above, (refl, refl, refl)))
        ]
  ]

  with_qc-Counts :
      (s : Core) (cert : PartialCertificate) (b : Ptr) (voter : ℕ)
      → adds_quorum s cert b voter ≡ false
      → Counts s cert b voter (with_qc s b (certified s b cert voter))
  with_qc-Counts s cert b voter old = record {
    added = added_at s b _;
    others = other_at s b _;
    highest = inr (λ above. false≢true (sym old ∙ above.0), (refl, refl, refl));
    kept = (refl, refl, refl);
  }

  announced-Counts :
      (s : Core) (cert : PartialCertificate) (b : Ptr) (voter : ℕ)
      → adds_quorum s cert b voter ≡ true
      → Counts s cert b voter
          (announced (with_qc s b (certified s b cert voter)) b (certified s b cert voter))
  unfolding call
  announced-Counts s cert b voter new =
      let qc = certified s b cert voter in
      let t = with_qc s b qc in
      let (heap, kept, highest) = update_hqc-cases t b qc in
      let same = with_qc-tree s b qc in
      record {
        added = ap (λ (h : Heap). (h b).self_qc) heap ∙ added_at s b qc;
        others = λ x ne. ap (λ (h : Heap). h x) heap ∙ other_at s b qc x ne;
        highest = elim highest [
          | inl (above, is) ↦
              inl ((new, omega (arith, above, (same s.hqc_block).height, (same b).height)), is)
          | inr (below, is) ↦ inr (
            λ more. below (omega (arith, more.1, (same s.hqc_block).height, (same b).height)),
            is,
          )
        ];
        kept = kept;
      }

  -- A vote for another hash throws `wrong_certificate`, whoever the voter; a vote on the hash by
  -- an id from the limit on throws `invalid_replica`; and for any other vote the call returns a
  -- state in which the block's certificate has the voter's signature added, every other block,
  -- `vheight`, `b_lock` and `b_exec` are as before, and the block and its certificate have become
  -- the highest ones and the leaf just if the vote gives the certificate the quorum that it lacked
  -- and the block is above the highest certified one.
  pub on_receive_vote-cases :
      (s : Core) (cert : PartialCertificate) (b : Ptr) (voter : ℕ)
      → Outcome (Counts s cert b voter) s cert b voter
  on_receive_vote-cases s cert b voter = elim (on_receive_vote-Accepted s cert b voter) [
    | inl e ↦ inl e
    | inr (inl e) ↦ inr (inl e)
    | inr (inr (fits, t, e, inl (old, at))) ↦
        inr (inr (fits, t, e, rw at (with_qc-Counts s cert b voter old)))
    | inr (inr (fits, t, e, inr (new, at))) ↦
        inr (inr (fits, t, e, rw at (announced-Counts s cert b voter new)))
  ]
