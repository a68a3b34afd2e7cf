-- ===== src/Vm/Gadget.antt =====
-- hotstuff/vm/speculative_exec_gadget.h: the blocks that the machine has run ahead of commitment.
-- `last_elt_iter` points at the last entry of the list, or at its end when it is empty, and is not
-- kept apart from it. `locked` tells whether the calling thread holds the mutex, which is not
-- recursive: to lock it again is a deadlock.
use hotstuff.Prelude.{
  ℕ, ◌+◌, ◌%◌, ◌^◌, Bool, true, false, List, [], ◌∷◌, ◌++◌, ◌==◌, not, if◌then◌else◌, Result, ok,
  throw, ◌>>=◌, empty_speculation, commit_gap, deadlock,
}
use hotstuff.Vm.{VmBlockId}

pub record Gadget : Type 0 where
  pub height_map : List (ℕ × VmBlockId)
  pub speculation_head_hotstuff_height : ℕ
  pub highest_committed_height : ℕ
  pub locked : Bool

unfoldable pub empty_gadget : Gadget
empty_gadget = record {
  height_map = [];
  speculation_head_hotstuff_height = 1;
  highest_committed_height = 0;
  locked = false;
}

unfoldable pub lock : Gadget → Result Gadget
lock g = if g.locked then throw deadlock else ok (record g { locked = true })

unfoldable pub unlock : Gadget → Gadget
unlock g = record g { locked = false }

unfoldable pub empty : Gadget → Bool
empty g = elim g.height_map [ [] ↦ true | _ ∷ _ ↦ false ]

unfoldable pub add_height_pair : Gadget → ℕ → VmBlockId → Gadget
add_height_pair g hotstuff_height vm_value =
    if not (g.speculation_head_hotstuff_height == hotstuff_height) then g else record g {
      speculation_head_hotstuff_height = (g.speculation_head_hotstuff_height + 1) % 2 ^ 64;
      height_map = g.height_map ++ (hotstuff_height, vm_value) ∷ [];
    }

unfoldable pub get_lowest_speculative_hotstuff_height : Gadget → Result (ℕ × VmBlockId)
get_lowest_speculative_hotstuff_height g = elim g.height_map [
  | [] ↦ throw empty_speculation
  | front ∷ _ ↦ ok front
]

-- `on_commit_hotstuff`, once it holds the mutex.
unfoldable pub commit_front : Gadget → ℕ → Result (Gadget × VmBlockId)
commit_front g hotstuff_height = elim g.height_map [
  | [] ↦ throw empty_speculation
  | (height, out) ∷ rest ↦
      if not (hotstuff_height == height)
      then throw commit_gap
      else ok (record g { height_map = rest; highest_committed_height = height }, out)
]

unfoldable pub on_commit_hotstuff : Gadget → ℕ → Result (Gadget × VmBlockId)
unfolding lock unlock commit_front
on_commit_hotstuff g hotstuff_height = do
  held ← lock g
  (done, out) ← commit_front held hotstuff_height
  ok (unlock done, out)

unfoldable pub clear : Gadget → Result Gadget
unfolding lock unlock
clear g = do
  held ← lock g
  ok (
      unlock (record held {
        height_map = [];
        speculation_head_hotstuff_height = (g.highest_committed_height + 1) % 2 ^ 64;
      }))

unfoldable pub init_from_disk : Gadget → ℕ → Result Gadget
unfolding clear
init_from_disk g highest_decided_height =
    clear (record g { highest_committed_height = highest_decided_height })
