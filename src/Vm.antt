-- ===== src/Vm.antt =====
-- hotstuff/vm and include/hotstuff/vm: the replicated state machine, speculation on blocks that
-- are not yet committed, and the bridge that consensus calls.
-- `VMBase` and `VMBlock` are abstract: a machine with states `S` and blocks `V` is a parameter.
pub mod Gadget
pub mod InTurn
pub mod Interface
pub mod Bridge
pub mod Nonspeculative
pub mod Served
pub mod Proposed
pub mod Speculated
pub mod Committed
use hotstuff.Prelude.{ℕ, Option, none, some, Bool, true, false, List, [], ◌∷◌, ◌==◌, ◌&&◌}

-- `VMBlockID`: bytes, or the null id.
abbrev pub VmBlockId : Type 0
VmBlockId = Option (List ℕ)

unfoldable pub same_bytes : List ℕ → List ℕ → Bool
same_bytes [] [] = true
same_bytes [] (y ∷ ys) = false
same_bytes (x ∷ xs) [] = false
same_bytes (x ∷ xs) (y ∷ ys) = (x == y) && same_bytes xs ys

-- The default `operator==`.
unfoldable pub same_id : VmBlockId → VmBlockId → Bool
unfolding same_bytes
same_id none none = true
same_id none (some ys) = false
same_id (some xs) none = false
same_id (some xs) (some ys) = same_bytes xs ys

unfoldable pub serialize_id : VmBlockId → List ℕ
serialize_id none = []
serialize_id (some value) = value

unfoldable pub is_nonempty : VmBlockId → Bool
is_nonempty none = false
is_nonempty (some value) = true

unfoldable pub empty_block_id : VmBlockId
empty_block_id = none

-- The virtual functions of a machine and of its blocks; a null pointer to a block is `none`.
pub record Machine (S V : Type 0) : Type 0 where
  pub get_id : V → VmBlockId
  pub serialize : V → List ℕ
  pub try_parse : List ℕ → Option V
  pub init_clean : S → S
  pub propose : S → S × Option V
  pub exec_block : S → V → S
  pub log_commitment : S → VmBlockId → S
  pub rewind_to_last_commit : S → S

module _ {S V : Type 0} (m : Machine S V) where
  unfoldable pub get_block_id : Option V → VmBlockId
  unfolding empty_block_id
  get_block_id none = empty_block_id
  get_block_id (some blk) = m.get_id blk
