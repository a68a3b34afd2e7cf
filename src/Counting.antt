-- ===== src/Counting.antt =====
-- examples/vm/counting_vm.h and counting_vm.cc: a machine that counts the blocks it runs.
-- Its block is its `value`. xdrpp is outside of the repository: the encoding of a 64-bit number is
-- a parameter, whose decoder throws.
pub mod Replayed
pub mod Followed
use hotstuff.Prelude.{
  ℕ, suc, length, ◌+◌, ◌%◌, ◌^◌, Option, none, some, List, [], ◌∷◌, ◌==◌, if◌then◌else◌, Result, ok,
  throw, ◌>>=◌,
}
use hotstuff.Block.{Disk}
use hotstuff.Vm.{VmBlockId, is_nonempty}
use hotstuff.Log.{get_hs_hash_and_vm_data, load_vm_block}
use hotstuff.Log.Cursor.{Iterator, for_each}

-- `xdr_to_opaque` and `xdr_from_opaque` of a `uint64_t`.
pub record Opaque : Type 0 where
  pub to_opaque : ℕ → List ℕ
  pub from_opaque : List ℕ → Result ℕ

pub record CountingVm : Type 0 where
  pub state : ℕ
  pub last_committed_state : ℕ

unfoldable pub new_counting_vm : CountingVm
new_counting_vm = record { state = 0; last_committed_state = 0 }

unfoldable pub get_last_committed_height : CountingVm → ℕ
get_last_committed_height vm = vm.last_committed_state

unfoldable pub get_speculative_height : CountingVm → ℕ
get_speculative_height vm = vm.state

unfoldable pub init_clean : CountingVm → CountingVm
init_clean vm = record { state = 0; last_committed_state = 0 }

-- With the value of the proposed block.
unfoldable pub propose : CountingVm → CountingVm × ℕ
propose vm =
    let state = (vm.state + 1) % 2 ^ 64 in
    (record { state = state; last_committed_state = vm.last_committed_state }, state)

unfoldable pub exec_block : CountingVm → ℕ → CountingVm
exec_block vm value =
    if value == (vm.state + 1) % 2 ^ 64
    then record { state = (vm.state + 1) % 2 ^ 64; last_committed_state = vm.last_committed_state }
    else vm

unfoldable pub rewind_to_last_commit : CountingVm → CountingVm
rewind_to_last_commit vm = record vm { state = vm.last_committed_state }

module _ (c : Opaque) where
  unfoldable pub get_id : ℕ → VmBlockId
  get_id value = some (c.to_opaque value)

  unfoldable pub serialize : ℕ → List ℕ
  serialize value = c.to_opaque value

  -- The constructor that decodes a body.
  unfoldable pub make_block : List ℕ → Result ℕ
  make_block v = c.from_opaque v

  unfoldable pub try_parse : List ℕ → Option ℕ
  try_parse body = elim (c.from_opaque body) [ throw _ ↦ none | ok res ↦ some res ]

  unfoldable pub log_commitment : CountingVm → VmBlockId → Result CountingVm
  log_commitment vm none = ok vm
  log_commitment vm (some value) = do
    res ← c.from_opaque value
    ok (record vm { last_committed_state = res })

  -- One round of the loop over the log.
  unfoldable pub load_entry : CountingVm → Disk → List ℕ × List ℕ → Result CountingVm
  unfolding get_hs_hash_and_vm_data load_vm_block is_nonempty make_block exec_block log_commitment
  load_entry vm disk entry = do
    (hash, id) ← get_hs_hash_and_vm_data entry
    let replay : Result CountingVm = (do
      loaded_block ← load_vm_block make_block disk hash
      log_commitment (exec_block vm loaded_block) id)
    if is_nonempty id then replay else ok vm

  -- From the iterator that the log begins with.
  unfoldable pub init_from_disk : CountingVm → Disk → Iterator → Result CountingVm
  unfolding load_entry for_each
  init_from_disk vm disk it = for_each (suc (length it)) it (λ v entry. load_entry v disk entry) vm
