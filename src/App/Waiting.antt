-- ===== src/App/Waiting.antt =====
-- The proposer that waits for a certificate.
use hotstuff.Prelude.{
  ℕ, ◌≡◌, refl, inl, inr, Bool, false, ◌&&◌, not, some, none, ◌==◌, if◌then◌else◌, Bool-cases,
}
use hotstuff.App.{App, on_new_qc, cancel_wait_for_new_qc, wait_for_new_qc}
use hotstuff.App.Pacemaker.{Pacemaker, get_last_proposer, wait_for_qc}

module _ {B : Type 0} where
  -- What a wait leads to when it ends: the proposer stays or gives way to the last one.
  abbrev pub Wakes : App B → Pacemaker → (stays : Bool) → Type 0
  Wakes a m stays =
      (a' : App B) × (wait_for_qc a m
        ≡ some (a', record m { proposer = if stays then m.proposer else get_last_proposer a }))
      × (a'.cancel_wait ≡ false)

  -- After a new certificate is announced, the pacemaker's wait ends: the proposer stays if the
  -- certificate is on the expected hash and the wait was not cancelled, and else gives way to the
  -- last proposer. After a cancellation it ends, and the proposer gives way. Either way no
  -- cancellation is left over.
  pub wait_for_qc-Wakes :
      (a : App B) (m : Pacemaker) (hash : ℕ)
      → Wakes (on_new_qc a hash) m (not a.cancel_wait && (hash == m.expected_hash))
        × Wakes (cancel_wait_for_new_qc a) m false
  unfolding wait_for_qc wait_for_new_qc on_new_qc cancel_wait_for_new_qc get_last_proposer
  wait_for_qc-Wakes a m hash = (
    elim (Bool-cases a.cancel_wait) [
      | inl cancelled ↦
          (record a { latest_new_qc = some hash; cancel_wait = false }, rw cancelled refl, refl)
      | inr going ↦ elim (Bool-cases (hash == m.expected_hash)) [
        | inl same ↦ (record a { latest_new_qc = none }, rw (going, same) refl, going)
        | inr other ↦ (record a { latest_new_qc = none }, rw (going, other) refl, going)
      ]
    ],
    (record a { cancel_wait = false }, refl, refl),
  )
