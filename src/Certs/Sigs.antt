-- ===== src/Certs/Sigs.antt =====
-- The signatures of a certificate, as an ordered map.
use hotstuff.Prelude.{
  ℕ, ◌+◌, ◌≤◌, ◌<◌, ◌≡◌, refl, false, List, [], ◌∷◌, arith, if◌then◌else◌, has, length,
}
use hotstuff.Foreign.{IsAbove, IsAscending}
use hotstuff.Certs.{Sigs, ids, emplace}

pub IsAbove-mono : (m n : ℕ) (xs : List ℕ) → m ≤ n → IsAbove n xs → IsAbove m xs
IsAbove-mono m n [] le a = tt
IsAbove-mono m n (x ∷ xs) le a = (omega arith, a.1)

pub IsAbove-IsAscending : (n : ℕ) (xs : List ℕ) → IsAbove n xs → IsAscending xs
IsAbove-IsAscending n [] a = tt
IsAbove-IsAscending n (x ∷ xs) a = a.1

-- An id below all of a list is not in it.
pub has-IsAbove : (n : ℕ) (xs : List ℕ) (rid : ℕ) → IsAbove n xs → rid ≤ n → has rid xs ≡ false
has-IsAbove n [] rid a le = refl
has-IsAbove n (x ∷ xs) rid a le = ground (arith, has-IsAbove x xs rid a.1)

pub emplace-IsAbove :
    (n rid sig : ℕ) (sigs : Sigs)
    → n < rid
    → IsAbove n (ids sigs)
    → IsAbove n (ids (emplace rid sig sigs))
unfolding emplace
emplace-IsAbove n rid sig [] lt a = (lt, tt)
emplace-IsAbove n rid sig ((r, s) ∷ sigs) lt a = ground (arith, emplace-IsAbove r rid sig sigs)

-- Adding a signature keeps the ids in ascending order.
pub emplace-IsAscending :
    (rid sig : ℕ) (sigs : Sigs) → IsAscending (ids sigs) → IsAscending (ids (emplace rid sig sigs))
unfolding emplace
emplace-IsAscending rid sig [] a = tt
emplace-IsAscending rid sig ((r, s) ∷ sigs) a = ground (arith, emplace-IsAbove r rid sig sigs)

length-emplace_of_above :
    (n rid sig : ℕ) (sigs : Sigs)
    → IsAbove n (ids sigs)
    → length (emplace rid sig sigs) ≡ length sigs + (if has rid (ids sigs) then 0 else 1)
unfolding emplace
length-emplace_of_above n rid sig [] a = refl
length-emplace_of_above n rid sig ((r, s) ∷ sigs) a =
    ground (arith, length-emplace_of_above r rid sig sigs a.1, has-IsAbove r (ids sigs) rid a.1)

-- Only a new id makes the map larger.
pub length-emplace :
    (rid sig : ℕ) (sigs : Sigs)
    → IsAscending (ids sigs)
    → length (emplace rid sig sigs) ≡ length sigs + (if has rid (ids sigs) then 0 else 1)
unfolding emplace
length-emplace rid sig [] a = refl
length-emplace rid sig ((r, s) ∷ sigs) a =
    ground (arith, length-emplace_of_above r rid sig sigs a, has-IsAbove r (ids sigs) rid a)
