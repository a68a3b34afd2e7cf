-- ===== src/Prelude/Results.antt =====
-- The exceptions that the code throws, its undefined behaviour, and a result type for both.
use mathlib.Core.Path.{◌≡◌, refl}
use mathlib.Core.Logic.{◌⊎◌, inl, inr}
use mathlib.Core.Option.{Option, none, some}

-- `null_pointer` is a read through an empty pointer or optional, `deadlock` a mutex that its own
-- thread locks again, and `out_of_fuel` a loop that has not ended; the others are `throw`
-- statements.
pub data Fault : Type 0 where
  null_pointer out_of_fuel : Fault
  safety_breached : Fault
  wrong_certificate invalid_replica sign_failed : Fault
  unknown_replica duplicate_replica : Fault
  missing_block failed_insert : Fault
  empty_speculation commit_gap : Fault
  uninitialized_vm woke_early deadlock : Fault
  flushed_body short_value missing_qc : Fault
  mismatched_vote unknown_client : Fault
  unimplemented failed_save failed_clear invalid_service : Fault

pub data Result {ℓ} (A : Type ℓ) : Type ℓ where
  throw : Fault → Result A
  ok : A → Result A

abbrev pub or_throw {ℓ} : {V : Type ℓ} → Option V → Fault → Result V
or_throw (some v) fault = ok v
or_throw none fault = throw fault

module _ {ℓ κ} {V : Type ℓ} {W : Type κ} where
  infixl 5 ◌>>=◌
  abbrev pub ◌>>=◌ : Result V → (V → Result W) → Result W
  throw fault >>= rest = throw fault
  ok v >>= rest = rest v

  -- If the whole returns, so did its first part.
  pub first_returns :
      {w : W} (r : Result V) (rest : V → Result W)
      → (r >>= rest) ≡ ok w
      → (v : V) × (r ≡ ok v) × (rest v ≡ ok w)
  first_returns (throw fault) rest e = cc
  first_returns (ok v) rest e = (v, refl, e)

module _ {ℓ} {V : Type ℓ} where
  pub Result-cases : (r : Result V) → ((v : V) × (r ≡ ok v)) ⊎ ((fault : Fault) × (r ≡ throw fault))
  Result-cases (throw fault) = inr (fault, refl)
  Result-cases (ok v) = inl (v, refl)

  pub ok-injective : {v w : V} → ok v ≡ ok w → v ≡ w
  ok-injective e = cc

  pub throw-ne-ok : {fault : Fault} {v : V} → throw fault ≡ ok v → ⊥
  throw-ne-ok e = cc
