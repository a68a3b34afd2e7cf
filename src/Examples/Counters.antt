-- ===== src/Examples/Counters.antt =====
-- The counting machine at concrete inputs.
use hotstuff.Prelude.{
  ◌≡◌, refl, List, [], ◌∷◌, some, All, arith, ok, throw, short_value, ◌==◌, if◌then◌else◌,
}
use hotstuff.Block.{Block, Disk, get_hash}
use hotstuff.Counting.{
  Opaque, CountingVm, new_counting_vm, exec_block, log_commitment, get_id, rewind_to_last_commit,
}
use hotstuff.Counting.Followed.{IsCodec, proposals, follow, told, follow-told}
use hotstuff.Counting.Replayed.{
  IsOnDisk, ReadsBack, Replays, load_log, run_blocks, init_from_disk-Replays,
}
use hotstuff.Examples.Toy.{chain_heap, wire_of}
use hotstuff.Examples.Records.{bytes}

abbrev one_word : Opaque
one_word = record {
  to_opaque = λ n. n ∷ [];
  from_opaque = λ b. elim b [ [] ↦ throw short_value | n ∷ rest ↦ ok n ];
}

one_word-IsCodec : IsCodec one_word
one_word-IsCodec n low = refl

one_word-ReadsBack : ReadsBack one_word
one_word-ReadsBack body n e = refl

follow-told_example :
    (g : CountingVm) × (follow one_word new_counting_vm (proposals 2 new_counting_vm).1 ≡ ok g)
    × (told one_word (proposals 2 new_counting_vm).0 (proposals 2 new_counting_vm).1 ≡ ok g)
    × (g.state ≡ 2)
    × (rewind_to_last_commit g ≡ g)
unfolding new_counting_vm
follow-told_example =
    follow-told one_word one_word-IsCodec 1 new_counting_vm new_counting_vm refl (omega arith)

-- Blocks 1 and 2, and an empty block on top of them.
abbrev empty_third : Block
empty_third = record (chain_heap 3) { wire = record (wire_of 2) { body = [] } }

abbrev decided : List Block
decided = chain_heap 1 ∷ chain_heap 2 ∷ empty_third ∷ []

abbrev three_files : Disk
three_files hash =
    if hash == 1
    then some (wire_of 0)
    else if hash == 2
    then some (wire_of 1)
    else some empty_third.wire

decided-IsOnDisk : All (IsOnDisk three_files) decided
unfolding get_hash
decided-IsOnDisk = (
  (omega arith, wire_of 0, refl, refl),
  ((omega arith, wire_of 1, refl, refl), ((omega arith, empty_third.wire, refl, refl), _)),
)

init_from_disk-Replays_example :
    (w : CountingVm) × (run_blocks one_word new_counting_vm decided ≡ ok w)
    × Replays one_word (load_log one_word three_files) bytes new_counting_vm decided w
init_from_disk-Replays_example =
    init_from_disk-Replays one_word one_word-ReadsBack bytes three_files new_counting_vm decided
      decided-IsOnDisk

-- An unexpected value is not executed, and yet the machine is rewound to it once it is committed.
jumps :
    log_commitment one_word (exec_block new_counting_vm 7) (get_id one_word 7)
    ≡ ok (record { state = 0; last_committed_state = 7 })
unfolding log_commitment exec_block get_id new_counting_vm
jumps = refl
