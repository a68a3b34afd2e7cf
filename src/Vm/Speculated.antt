-- ===== src/Vm/Speculated.antt =====
-- The entries of the gadget are the heights above the committed one, without gap.
use hotstuff.Prelude.{
  ℕ, suc, ◌+◌, ◌%◌, ◌^◌, ◌<◌, ◌≡◌, refl, ap, none, some, true, false, List, [], ◌∷◌, ◌++◌, arith,
  ◌==◌, ==_iff, ==_refl, not, if_cases,
}
use hotstuff.Vm.{VmBlockId, same_bytes, same_id}
use hotstuff.Vm.Gadget.{Gadget, add_height_pair}

same_bytes_sound : (xs ys : List ℕ) → same_bytes xs ys ≡ true → xs ≡ ys
unfolding same_bytes
same_bytes_sound [] [] e = refl
same_bytes_sound [] (y ∷ ys) e = cc
same_bytes_sound (x ∷ xs) [] e = cc
same_bytes_sound (x ∷ xs) (y ∷ ys) e = ground (arith, same_bytes_sound xs ys, ==_iff x y)

same_bytes_refl : (xs : List ℕ) → same_bytes xs xs ≡ true
unfolding same_bytes
same_bytes_refl [] = refl
same_bytes_refl (x ∷ xs) = rw (==_refl x) (same_bytes_refl xs)

pub same_id_sound : (a b : VmBlockId) → same_id a b ≡ true → a ≡ b
unfolding same_id
same_id_sound none none e = refl
same_id_sound none (some ys) e = cc
same_id_sound (some xs) none e = cc
same_id_sound (some xs) (some ys) e = ap some (same_bytes_sound xs ys e)

pub same_id_refl : (a : VmBlockId) → same_id a a ≡ true
unfolding same_id
same_id_refl none = refl
same_id_refl (some xs) = same_bytes_refl xs

-- The heights from the one after `committed` up to the one before `head`.
abbrev pub IsRun : ℕ → List (ℕ × VmBlockId) → ℕ → Type 0
IsRun committed [] head = head ≡ suc committed
IsRun committed ((height, id) ∷ rest) head =
    (height ≡ suc committed) × IsRun (suc committed) rest head

pub IsRun-snoc :
    (committed : ℕ) (xs : List (ℕ × VmBlockId)) (head : ℕ) (id : VmBlockId)
    → IsRun committed xs head
    → IsRun committed (xs ++ (head, id) ∷ []) (suc head)
IsRun-snoc committed [] head id run = (run, ap suc run)
IsRun-snoc committed ((height, v) ∷ rest) head id (at, run) =
    (at, IsRun-snoc (suc committed) rest head id run)

-- The gadget of a thread that does not hold its mutex.
pub record IsContiguous (g : Gadget) : Type 0 where
  pub run : IsRun g.highest_committed_height g.height_map g.speculation_head_hotstuff_height
  pub unlocked : g.locked ≡ false

-- An entry is added at the next height, or not at all.
pub add_height_pair-IsContiguous :
    (g : Gadget) (height : ℕ) (id : VmBlockId)
    → IsContiguous g
    → suc g.speculation_head_hotstuff_height < 2 ^ 64
    → IsContiguous (add_height_pair g height id)
unfolding add_height_pair
add_height_pair-IsContiguous g height id c room =
    if_cases IsContiguous (not (g.speculation_head_hotstuff_height == height)) (λ e. c)
      λ e.
        let at : g.speculation_head_hotstuff_height ≡ height = ground arith in
        let next : (g.speculation_head_hotstuff_height + 1) % 2 ^ 64 ≡ suc height =
          omega (arith, at, room) in
        record {
          run = rw next (IsRun-snoc _ g.height_map height id (rw at at c.run));
          unlocked = c.unlocked;
        }
