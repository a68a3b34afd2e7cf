-- ===== src/Counting/Replayed.antt =====
-- What `init_from_disk` makes of a log of decided blocks.
use hotstuff.Prelude.{
  ℕ, ◌^◌, ◌<◌, ◌≡◌, ◌≢◌, refl, ◌∙◌, ◌⊎◌, inl, inr, none, some, List, [], ◌∷◌, All, Result, ok,
  throw, ◌>>=◌, Result-cases, Fault,
}
use hotstuff.Wire.{HotstuffBlockWire}
use hotstuff.Block.{Block, Disk, get_hash}
use hotstuff.Vm.{VmBlockId, serialize_id, is_nonempty}
use hotstuff.Log.{Encoding, hash_size, decided_value, get_hs_hash_and_vm_data, load_vm_block}
use hotstuff.Log.Cursor.{visit, for_each-visit}
use hotstuff.Log.Written.{get_hs_hash_and_vm_data-decided_value}
use hotstuff.Counting.{
  Opaque, CountingVm, get_id, make_block, try_parse, exec_block, log_commitment, load_entry,
  init_from_disk,
}

-- The file of a block has its body, and its name is 32 bytes long.
abbrev pub IsOnDisk : Disk → Block → Type 0
IsOnDisk disk blk =
    (get_hash blk < 256 ^ hash_size)
    × (w : HotstuffBlockWire) × (disk (get_hash blk) ≡ some w)
    × (w.body ≡ blk.wire.body)

module _ (c : Opaque) where
  -- The id of a body, which is null if the body is not parsed.
  abbrev pub body_id : List ℕ → VmBlockId
  body_id body = elim (try_parse c body) [ none ↦ none | some value ↦ get_id c value ]

  -- A machine that executes and commits a decided block: one that is not parsed is not executed.
  unfoldable pub run_block : CountingVm → List ℕ → Result CountingVm
  unfolding try_parse exec_block log_commitment get_id
  run_block vm body = elim (try_parse c body) [
    | none ↦ log_commitment c vm none
    | some value ↦ log_commitment c (exec_block vm value) (get_id c value)
  ]

  unfoldable pub run_blocks : CountingVm → List Block → Result CountingVm
  unfolding run_block
  run_blocks vm [] = ok vm
  run_blocks vm (blk ∷ blks) = do next ← run_block vm blk.wire.body; run_blocks next blks

  -- The log of the blocks.
  unfoldable pub log_of : Encoding → List Block → List (List ℕ × List ℕ)
  unfolding try_parse get_id decided_value serialize_id
  log_of e [] = []
  log_of e (blk ∷ blks) =
      (e.write_big_endian blk.height, decided_value blk (serialize_id (body_id blk.wire.body)))
      ∷ log_of e blks

  -- A number that is read is read back.
  abbrev pub ReadsBack : Type 0
  ReadsBack =
      (body : List ℕ) (n : ℕ) → c.from_opaque body ≡ ok n → c.from_opaque (c.to_opaque n) ≡ ok n

  abbrev pub IsParsed : Block → Type 0
  IsParsed blk = try_parse c blk.wire.body ≢ none

  try_parse-ok : (body : List ℕ) (n : ℕ) → c.from_opaque body ≡ ok n → try_parse c body ≡ some n
  unfolding try_parse
  try_parse-ok body n e = rw (e, try_parse) refl

  try_parse-throw :
      (body : List ℕ) (fault : Fault) → c.from_opaque body ≡ throw fault → try_parse c body ≡ none
  unfolding try_parse
  try_parse-throw body fault e = rw (e, try_parse) refl

  module _ (codec : ReadsBack) (disk : Disk) (key : List ℕ) (vm : CountingVm) (blk : Block)
      (on_disk : IsOnDisk disk blk) where
    abbrev entry : List ℕ × List ℕ
    entry = (key, decided_value blk (serialize_id (body_id blk.wire.body)))

    entry_lem :
        get_hs_hash_and_vm_data entry
        ≡ ok (get_hash blk, some (serialize_id (body_id blk.wire.body)))
    entry_lem = get_hs_hash_and_vm_data-decided_value blk _ on_disk.0 key

    load-IsParsed :
        (n : ℕ)
        → c.from_opaque blk.wire.body ≡ ok n
        → (next : CountingVm) × (run_block vm blk.wire.body ≡ ok next)
          × (load_entry c vm disk entry ≡ ok next)
          × IsParsed blk
    unfolding run_block load_entry log_commitment load_vm_block make_block get_id is_nonempty
        serialize_id
    load-IsParsed n read =
        let (fits, w, file, body) = on_disk in
        let parsed = try_parse-ok blk.wire.body n read in
        let back = codec _ n read in
        (
          record (exec_block vm n) { last_committed_state = n },
          rw (run_block, parsed, log_commitment, get_id, back) refl,
          rw (entry_lem, file, body, read, log_commitment, serialize_id, back) refl,
          λ e. cc (parsed, e),
        )

    load_unparsed :
        (fault : Fault)
        → c.from_opaque blk.wire.body ≡ throw fault
        → (run_block vm blk.wire.body ≡ ok vm)
          × (load_entry c vm disk entry ≡ throw fault)
          × (try_parse c blk.wire.body ≡ none)
    unfolding run_block load_entry log_commitment load_vm_block make_block is_nonempty
    load_unparsed fault refused =
        let (fits, w, file, body) = on_disk in
        let unparsed = try_parse-throw blk.wire.body fault refused in
        (rw (run_block, unparsed) refl, rw (entry_lem, file, body, refused) refl, unparsed)

  -- The entries of a log loaded in turn.
  abbrev load_all : Disk → CountingVm → List (List ℕ × List ℕ) → Result CountingVm
  load_all disk = visit (λ vm entry. load_entry c vm disk entry)

  -- What the log of the blocks gives, against what the machine has done.
  abbrev pub Replays :
      (CountingVm → List (List ℕ × List ℕ) → Result CountingVm)
      → Encoding
      → CountingVm
      → List Block
      → CountingVm
      → Type 0
  Replays load e vm blks w =
      (All IsParsed blks × (load vm (log_of e blks) ≡ ok w))
      ⊎ ((¬ All IsParsed blks) × ((fault : Fault) × (load vm (log_of e blks) ≡ throw fault)))

  load_all-Replays :
      (codec : ReadsBack) (e : Encoding) (disk : Disk) (vm : CountingVm) (blks : List Block)
      → All (IsOnDisk disk) blks
      → (w : CountingVm) × (run_blocks vm blks ≡ ok w) × Replays (load_all disk) e vm blks w
  unfolding run_blocks log_of
  load_all-Replays codec e disk vm [] on_disk = (vm, refl, inl (_, refl))
  load_all-Replays codec e disk vm (blk ∷ blks) (first, rest) =
      elim (Result-cases (c.from_opaque blk.wire.body)) [
        | inl (n, read) ↦
            let (next, run, load, parsed) =
              load-IsParsed codec disk (e.write_big_endian blk.height) vm blk first n read in
            let (w, runs, loads) = load_all-Replays codec e disk next blks rest in
            (
              w,
              rw (run_blocks, run) runs,
              elim loads [
                | inl (all, done) ↦ inl ((parsed, all), rw (log_of, load) done)
                | inr (some_not, (fault, thrown)) ↦
                    inr (λ all. some_not all.1, (fault, rw (log_of, load) thrown))
              ],
            )
        | inr (fault, refused) ↦
            let (run, load, unparsed) =
              load_unparsed codec disk (e.write_big_endian blk.height) vm blk first fault refused in
            let (w, runs, loads) = load_all-Replays codec e disk vm blks rest in
            (
              w,
              rw (run_blocks, run) runs,
              inr (λ all. all.0 unparsed, (fault, rw (log_of, load) refl)),
            )
      ]

  -- `init_from_disk` from the beginning of a log.
  abbrev pub load_log : Disk → CountingVm → List (List ℕ × List ℕ) → Result CountingVm
  load_log disk vm it = init_from_disk c vm disk it

  load_log-visit :
      (disk : Disk) (vm : CountingVm) (it : List (List ℕ × List ℕ))
      → load_log disk vm it ≡ load_all disk vm it
  unfolding init_from_disk
  load_log-visit disk vm it = for_each-visit (λ v entry. load_entry c v disk entry) it vm

  -- With an encoding that reads back the numbers that it has read, and blocks of 32-byte hashes
  -- whose files have their bodies: executing and committing the blocks in turn returns; if each
  -- body is parsed, loading the counting machine from their log leads from the same state to the
  -- same state, and if one, such as an empty one, is not, it throws.
  pub init_from_disk-Replays :
      (codec : ReadsBack) (e : Encoding) (disk : Disk) (vm : CountingVm) (blks : List Block)
      → All (IsOnDisk disk) blks
      → (w : CountingVm) × (run_blocks vm blks ≡ ok w) × Replays (load_log disk) e vm blks w
  init_from_disk-Replays codec e disk vm blks on_disk =
      let (w, runs, loads) = load_all-Replays codec e disk vm blks on_disk in
      let same = load_log-visit disk vm (log_of e blks) in
      (
        w,
        runs,
        elim loads [
          | inl (all, done) ↦ inl (all, same ∙ done)
          | inr (some_not, (fault, thrown)) ↦ inr (some_not, (fault, same ∙ thrown))
        ],
      )
