-- ===== src/Examples/Bits.antt =====
-- The bit vector of `Toy` yields the ids that it was given.
use native.Mathlib.Nat.{pow-succ'}
use hotstuff.Prelude.{
  ℕ, zero, suc, ◌+◌, ◌-◌, ◌*◌, ◌/◌, ◌%◌, ◌^◌, ◌≤◌, ◌<◌, ◌≡◌, refl, ◌∙◌, ap, inl, inr, List, [], ◌∷◌,
  arith, ltb, ltb→lt, ltb→le, All, Bool-cases,
}
use hotstuff.Foreign.{IsAbove, IsAscending, PopsInOrder}
use hotstuff.Wire.{max_replicas}
use hotstuff.Certs.Sigs.{IsAbove-mono}
use hotstuff.Examples.Toy.{toy, add_bits, bits_from}

-- The bits of ids from a position on.
abbrev shifted : ℕ → List ℕ → ℕ
shifted position [] = 0
shifted position (id ∷ ids) = 2 ^ (id - position) + shifted position ids

abbrev IsFrom : ℕ → List ℕ → Type 0
IsFrom position [] = Unit {0}
IsFrom position (id ∷ ids) = (position ≤ id) × IsAbove id ids

IsAbove-IsFrom : (position : ℕ) (ids : List ℕ) → IsAbove position ids → IsFrom (position + 1) ids
IsAbove-IsFrom position [] a = tt
IsAbove-IsFrom position (id ∷ ids) (lt, a) = (omega (arith, lt), a)

power_step : (position id : ℕ) → position < id → 2 ^ (id - position) ≡ 2 * 2 ^ (id - (position + 1))
power_step position id lt =
    let at : id - position ≡ suc (id - (position + 1)) = omega (arith, lt) in
    ap (λ n. 2 ^ n) at ∙ pow-succ' 2 (id - (position + 1))

shifted_next :
    (position : ℕ) (ids : List ℕ)
    → IsAbove position ids
    → shifted position ids ≡ 2 * shifted (position + 1) ids
shifted_next position [] above = refl
shifted_next position (id ∷ ids) (lt, above) = omega (
  arith,
  power_step position id lt,
  shifted_next position ids (IsAbove-mono position id ids (omega (arith, lt)) above),
)

bits_from_zero : (fuel position : ℕ) → bits_from fuel position 0 ≡ []
bits_from_zero zero position = refl
bits_from_zero (suc fuel) position = bits_from_zero fuel (position + 1)

-- The three shapes of the next bit.
next_bit_set :
    (fuel position rest : ℕ)
    → bits_from (suc fuel) position (1 + 2 * rest) ≡ position ∷ bits_from fuel (position + 1) rest
next_bit_set fuel position rest =
    let odd : (1 + 2 * rest) % 2 ≡ 1 = omega arith in
    let half : (1 + 2 * rest) / 2 ≡ rest = omega arith in rw (odd, half) refl

next_bit_unset :
    (fuel position rest : ℕ)
    → bits_from (suc fuel) position (2 * rest) ≡ bits_from fuel (position + 1) rest
next_bit_unset fuel position rest =
    let even : (2 * rest) % 2 ≡ 0 = omega arith in
    let half : (2 * rest) / 2 ≡ rest = omega arith in rw (even, half) refl

shifted_head : (position id rest : ℕ) → id ≡ position → 2 ^ (id - position) + rest ≡ 1 + rest
shifted_head position id rest at =
    let gap : id - position ≡ 0 = omega (arith, at) in ap (λ n. 2 ^ n + rest) gap

bits_from-shifted :
    (fuel position limit : ℕ) (ids : List ℕ)
    → position + fuel ≡ limit
    → IsFrom position ids
    → All (λ id. id < limit) ids
    → bits_from fuel position (shifted position ids) ≡ ids
bits_from-shifted fuel position limit [] e from below = bits_from_zero fuel position
bits_from-shifted zero position limit (id ∷ ids) e from below =
    absurd (omega (arith, e, from.0, below.0))
bits_from-shifted (suc fuel) position limit (id ∷ ids) e from below =
    elim (Bool-cases (ltb position id)) [
      | inl lt ↦
          let above : position < id = ltb→lt position id lt in
          rw (shifted_next position (id ∷ ids) (above, from.1)) (
            next_bit_unset fuel position (shifted (position + 1) (id ∷ ids))
            ∙ bits_from-shifted fuel (position + 1) limit (id ∷ ids) (omega (arith, e))
                (omega (arith, above), from.1) below)
      | inr ge ↦
          let at : id ≡ position = omega (arith, ltb→le position id ge, from.0) in
          let higher : IsAbove position ids = rw (← at) (from.1) in
          rw (shifted_head position id (shifted position ids) at, shifted_next position ids higher)
            (next_bit_set fuel position (shifted (position + 1) ids)
              ∙ rw at (
                  ap (λ xs. position ∷ xs)
                    (bits_from-shifted fuel (position + 1) limit ids (omega (arith, e))
                      (IsAbove-IsFrom position ids higher) (below.1))))
    ]

add_bits-shifted : (ids : List ℕ) → add_bits ids ≡ shifted 0 ids
add_bits-shifted [] = refl
add_bits-shifted (id ∷ ids) =
    let gap : id ≡ id - 0 = omega arith in
    rw (add_bits-shifted ids) (ap (λ n. 2 ^ n + shifted 0 ids) gap)

pub toy-PopsInOrder : PopsInOrder toy
toy-PopsInOrder ids ascending below =
    ap (bits_from 32 0) (add_bits-shifted ids)
    ∙ bits_from-shifted 32 0 max_replicas ids refl (ascending-IsFrom ids ascending) below
  where
    ascending-IsFrom : (ids : List ℕ) → IsAscending ids → IsFrom 0 ids
    ascending-IsFrom [] a = tt
    ascending-IsFrom (id ∷ ids) a = (omega arith, a)
