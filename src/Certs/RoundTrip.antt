-- ===== src/Certs/RoundTrip.antt =====
-- The wire form of a certificate.
use mathlib.Core.Path.{subst}
use mathlib.Core.List.{append-nil, append_assoc}
use hotstuff.Prelude.{
  ℕ, ◌+◌, ◌≤◌, ◌<◌, ◌≡◌, refl, sym, ap, ◌∙◌, true, List, [], ◌∷◌, ◌++◌, map, arith, ◌==◌, ==_refl,
  All, length, ◌≢◌, ◌⊎◌, inl, inr, ==_iff, Bool-cases,
}
use hotstuff.Foreign.{Foreign, IsAscending, IsAbove, PopsInOrder}
use hotstuff.Wire.{QuorumCertificateWire, max_replicas}
use hotstuff.Certs.{
  Sigs, ids, QuorumCertificate, emplace, emplace_all, empty_qc, serialize, deserialize,
}

abbrev AllBelow : ℕ → Sigs → Type 0
AllBelow rid = All λ e. e.0 < rid

AllBelow-mono : (m n : ℕ) (sigs : Sigs) → m ≤ n → AllBelow m sigs → AllBelow n sigs
AllBelow-mono m n [] le a = tt
AllBelow-mono m n (e ∷ sigs) le a = (omega arith, AllBelow-mono m n sigs le a.1)

AllBelow-snoc :
    (rid n sig : ℕ) (sigs : Sigs)
    → rid < n
    → AllBelow rid sigs
    → AllBelow n (sigs ++ (rid, sig) ∷ [])
AllBelow-snoc rid n sig [] lt a = (lt, tt)
AllBelow-snoc rid n sig (e ∷ sigs) lt a = (omega arith, AllBelow-snoc rid n sig sigs lt a.1)

-- An id above all others goes to the end.
emplace-append :
    (rid sig : ℕ) (sigs : Sigs) → AllBelow rid sigs → emplace rid sig sigs ≡ sigs ++ (rid, sig) ∷ []
unfolding emplace
emplace-append rid sig [] a = refl
emplace-append rid sig ((r, s) ∷ sigs) a = ground (arith, emplace-append rid sig sigs a.1)

emplace_all-append :
    (sigs acc : Sigs) (rid : ℕ)
    → IsAbove rid (ids sigs)
    → AllBelow (rid + 1) acc
    → emplace_all (ids sigs) (map (λ e. e.1) sigs) acc ≡ acc ++ sigs
unfolding emplace_all
emplace_all-append [] acc rid a below = sym (append-nil acc)
emplace_all-append ((r, s) ∷ sigs) acc rid a below =
    rw (emplace-append r s acc (AllBelow-mono (rid + 1) r acc (omega arith) below)) (
      emplace_all-append sigs (acc ++ (r, s) ∷ []) r a.1 (
        AllBelow-snoc r (r + 1) s acc (omega arith)
          (AllBelow-mono (rid + 1) r acc (omega arith) below))
      ∙ append_assoc acc ((r, s) ∷ []) sigs)

emplace_all-ids :
    (sigs : Sigs) → IsAscending (ids sigs) → emplace_all (ids sigs) (map (λ e. e.1) sigs) [] ≡ sigs
unfolding emplace_all emplace
emplace_all-ids [] a = refl
emplace_all-ids ((r, s) ∷ sigs) a = emplace_all-append sigs ((r, s) ∷ []) r a (omega arith, tt)

length-ids : (sigs : Sigs) → length (ids sigs) ≡ length (map (λ e. e.1) sigs)
length-ids [] = refl
length-ids (e ∷ sigs) = omega (arith, length-ids sigs)

-- As many ids as signatures are the parts of one list.
pair_up :
    (rids sigs : List ℕ)
    → length rids ≡ length sigs
    → (l : Sigs) × (ids l ≡ rids) × (map (λ e. e.1) l ≡ sigs)
pair_up [] [] same = ([], refl, refl)
pair_up [] (sig ∷ sigs) same = absurd (omega (arith, same))
pair_up (rid ∷ rids) [] same = absurd (omega (arith, same))
pair_up (rid ∷ rids) (sig ∷ sigs) same =
    let (l, left, right) = pair_up rids sigs (omega (arith, same)) in
    ((rid, sig) ∷ l, ap (λ xs. rid ∷ xs) left, ap (λ xs. sig ∷ xs) right)

emplace_all-pairs :
    (rids sigs : List ℕ)
    → length rids ≡ length sigs
    → IsAscending rids
    → (ids (emplace_all rids sigs []) ≡ rids) × (map (λ e. e.1) (emplace_all rids sigs []) ≡ sigs)
emplace_all-pairs rids sigs same ascending =
    let (l, left, right) = pair_up rids sigs same in
    let built : emplace_all rids sigs [] ≡ l =
      ap (λ xs. emplace_all xs sigs []) (sym left)
      ∙ ap (λ ys. emplace_all (ids l) ys []) (sym right)
      ∙ emplace_all-ids l (subst IsAscending (sym left) ascending) in
    (ap ids built ∙ left, ap (map (λ e. e.1)) built ∙ right)

module _ ⦃f : Foreign⦄ where
  -- If the bit vector yields the ids that were added, lowest first, then a certificate whose ids
  -- are in ascending order and below the limit is read back from its wire form.
  pub deserialize-serialize :
      (q : QuorumCertificate)
      → PopsInOrder f
      → IsAscending (ids q.sigs)
      → All (λ id. id < max_replicas) (ids q.sigs)
      → deserialize (serialize q) ≡ q
  unfolding deserialize serialize
  deserialize-serialize q pops ascending small =
      let packed = pops (ids q.sigs) ascending small in
      let lengths : (length (ids q.sigs) == length (map (λ e. e.1) q.sigs)) ≡ true =
        rw (length-ids q.sigs) (==_refl (length (map (λ e. e.1) q.sigs))) in
      let sigs_back = emplace_all-ids q.sigs ascending in
      rw (packed, lengths)
        (ap {B = QuorumCertificate} (λ sigs. record { obj_hash = q.obj_hash; sigs = sigs })
          sigs_back)

  -- If the bit vector of a wire form yields ids in ascending order, then the certificate that is
  -- read has the hash of the wire form and, where there are as many ids as signatures, just those
  -- ids with those signatures, the first with the first and so on, and otherwise no signature.
  pub deserialize-pairs :
      (wire : QuorumCertificateWire)
      → IsAscending (f.unpack wire.bmp)
      → ((deserialize wire).obj_hash ≡ wire.justify)
        × (((length (f.unpack wire.bmp) ≡ length wire.sigs)
              × (ids (deserialize wire).sigs ≡ f.unpack wire.bmp)
              × (map (λ e. e.1) (deserialize wire).sigs ≡ wire.sigs))
            ⊎ ((length (f.unpack wire.bmp) ≢ length wire.sigs) × ((deserialize wire).sigs ≡ [])))
  unfolding deserialize empty_qc
  deserialize-pairs wire ascending =
      elim (Bool-cases (length (f.unpack wire.bmp) == length wire.sigs)) [
        | inl same ↦
            let equal = (==_iff _ _).0 same in
            let (rids, sigs) = emplace_all-pairs (f.unpack wire.bmp) wire.sigs equal ascending in
            rw (deserialize, same) (refl, inl (equal, rids, sigs))
        | inr other ↦ rw (deserialize, other) (refl, inr (λ e. ground arith, refl))
      ]
