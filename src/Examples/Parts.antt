-- ===== src/Examples/Parts.antt =====
-- Configuration, certificates and storage at concrete inputs.
use hotstuff.Prelude.{
  List, ℕ, zero, suc, length, map, Result-cases, ◌/◌, ◌%◌, ◌^◌, ◌+◌, ◌<◌, ◌≤◌, ◌≡◌, ◌≢◌, refl, sym,
  ◌⊎◌, true, false, none, some, [], ◌∷◌, arith, Result, ok, throw, duplicate_replica, deadlock,
  Option, inl, inr, Bool-cases, ◌==◌, ==_iff,
}
use hotstuff.Foreign.{IsAscending}
use hotstuff.Config.{
  ReplicaInfo, ReplicaConfig, add_replica, get_info, get_publickey, find, is_valid_replica,
  finish_init,
}
use hotstuff.Config.Laws.{IsConfig, add_replica-IsConfig}
use hotstuff.Certs.{QuorumCertificate, ids, check_sig, serialize, deserialize, verify}
use hotstuff.Certs.RoundTrip.{deserialize-serialize, deserialize-pairs}
use hotstuff.Certs.Majority.{common, verify-common}
use hotstuff.Block.{Ptr, Heap, genesis_block, get_hash, get_parent_hash}
use hotstuff.Storage.Collector.{Collector, invoke_gc}
use hotstuff.Storage.Collector
use hotstuff.Storage.Collected.{IsRound, run_round-IsRound}
use hotstuff.Storage.Store.{Store, MissingDependencies, insert_block, new_store, get_block}
use hotstuff.Storage.Inserted.{IsStore, IsUncached, IsInserted, insert_block-IsInserted}
use hotstuff.Vm.{Machine, is_nonempty}
use hotstuff.Wire.{QuorumCertificateWire}
use hotstuff.Vm.Interface.{
  Interface, AsyncWorker, new_interface, set_proposer, request_proposal, get_proposal,
  await_proposal, exists_work_to_do, add_proposal, pass_commitment, validate_all, take_proposal,
  is_empty,
}
use hotstuff.Vm.Interface.{run_round}
use hotstuff.Vm.Served.{
  IsServed, IsWait, Runs, rests, runs, here, next, proposing, requests, Reach-run_round,
}
use mathlib.Core.Path.{subst}
use hotstuff.Vm.InTurn.{
  IsQuiet, IsPatient, submit_all, run_in_turn, state_of, round-after_round, after_round-rests,
  submit_all-run_in_turn,
}
use hotstuff.Vm.Proposed.{Answers, get_proposal-Answers}
use hotstuff.Vm.Bridge.{apply_block}
use hotstuff.Vm.Committed.{ready, IsExpected, IsConflicting, Commits, apply_block-cases}
use hotstuff.Vm.Nonspeculative.{buffering, get_next_proposal, get_next_proposal-add_proposal}
use hotstuff.Vm.Nonspeculative
use hotstuff.Examples.Toy.{toy, chain_heap, qc_on}
use hotstuff.Examples.Bits.{toy-PopsInOrder}

abbrev pub replica : ℕ → ReplicaInfo
replica n = record { id = n; pk = n }

abbrev pub three : ReplicaConfig
three = record {
  replica_map = replica 3 ∷ replica 2 ∷ replica 1 ∷ [];
  nreplicas = 3;
  nmajority = 0;
}

pub three-IsConfig : IsConfig three
unfolding find
three-IsConfig = record { counted = refl; distinct = (refl, (refl, (refl, tt))) }

add_replica-IsConfig_example :
    ((is_valid_replica three 4 ≡ true) × (add_replica three (replica 4) ≡ throw duplicate_replica))
    ⊎ ((is_valid_replica three 4 ≡ false)
        × ((d : ReplicaConfig) × (add_replica three (replica 4) ≡ ok d)
            × IsConfig d
            × (get_info d 4 ≡ ok (replica 4))))
add_replica-IsConfig_example = add_replica-IsConfig three (replica 4) three-IsConfig

-- Certificates on blocks 5 and 7 by replicas 1 and 2, and 2 and 3.
abbrev on_five : QuorumCertificate
on_five = record { obj_hash = 5; sigs = (1, 6) ∷ (2, 7) ∷ [] }

abbrev on_seven : QuorumCertificate
on_seven = record { obj_hash = 7; sigs = (2, 9) ∷ (3, 10) ∷ [] }

verify-common_example :
    (3 / 3 ≤ common three on_five on_seven) × (3 % 3 ≢ 0 → 3 / 3 < common three on_five on_seven)
unfolding verify finish_init get_publickey find check_sig
verify-common_example =
    verify-common three on_five on_seven three-IsConfig (omega arith, tt) (omega arith, tt)
      (omega arith) (omega arith) refl refl

deserialize-serialize_example : deserialize (serialize on_five) ≡ on_five
deserialize-serialize_example =
    deserialize-serialize on_five toy-PopsInOrder (omega arith, tt) (omega arith, (omega arith, tt))

-- Two ids, and one signature.
abbrev short_wire : QuorumCertificateWire
short_wire = record { justify = 9; bmp = toy.pack (1 ∷ 3 ∷ []); sigs = 8 ∷ [] }

short-IsAscending : IsAscending (toy.unpack short_wire.bmp)
short-IsAscending = (omega arith, tt)

deserialize-pairs_example :
    ((deserialize short_wire).obj_hash ≡ 9)
    × (((length (toy.unpack short_wire.bmp) ≡ 1)
          × (ids (deserialize short_wire).sigs ≡ toy.unpack short_wire.bmp)
          × (map (λ e. e.1) (deserialize short_wire).sigs ≡ 8 ∷ []))
        ⊎ ((length (toy.unpack short_wire.bmp) ≢ 1) × ((deserialize short_wire).sigs ≡ [])))
deserialize-pairs_example = deserialize-pairs short_wire short-IsAscending

-- Blocks 1 and 3 are listed and block 2 is in the buffer.
abbrev waiting : Collector
waiting = record { hotstuff_height_to_gc = none; gc_list = 1 ∷ 3 ∷ []; gc_list_buffer = 2 ∷ [] }

run_round-IsRound_example :
    (g : Heap) × (d : Collector) × (Collector.run_round chain_heap (invoke_gc waiting 3)
      ≡ ok (g, d))
    × IsRound chain_heap waiting 3 g d
run_round-IsRound_example = run_round-IsRound chain_heap waiting 3

abbrev pub genesis_hash : ℕ
genesis_hash = 0

abbrev pub stored : Store
stored = new_store chain_heap 0

pub stored-cases :
    (hash : ℕ) (p : Ptr) → get_block stored hash ≡ some p → (genesis_hash ≡ hash) × (0 ≡ p)
unfolding get_block new_store genesis_block
stored-cases hash p e = elim (Bool-cases (genesis_hash == hash)) [
  | inl same ↦ ((==_iff _ _).0 same, cc (rw same at e))
  | inr other ↦ cc (rw other at e)
]

pub stored-IsStore : IsStore chain_heap stored
unfolding genesis_block get_hash
stored-IsStore = record {
  named = λ hash p e. let (key, at) = stored-cases hash p e in rw (← at) key;
  linked = λ hash p e.
      let (key, at) = stored-cases hash p e in
      rw (← at) (record {
        parent_found = λ q k. cc;
        one_above = λ q k. cc;
        justify_found = λ qc j k l. cc;
      });
}

pub stored-IsUncached : IsUncached stored 1
stored-IsUncached hash e = let (key, at) = stored-cases hash 1 e in absurd (omega (arith, at))

pub stored-room :
    (q : Ptr)
    → get_block stored (get_parent_hash (chain_heap 1)) ≡ some q
    → suc (chain_heap q).height < 2 ^ 64
unfolding genesis_block
stored-room q e = let (key, at) = stored-cases _ q e in rw (← at) (omega arith)

insert_block-IsInserted_example :
    (g : Heap) × (t : Store) × (m : MissingDependencies) × (insert_block chain_heap stored 1
      ≡ ok (g, t, m))
    × IsInserted chain_heap stored 1 (qc_on 0) g t m
insert_block-IsInserted_example =
    insert_block-IsInserted chain_heap stored 1 (qc_on 0) stored-IsStore stored-IsUncached refl
      stored-room

-- A machine that sums up the blocks that it runs.
abbrev pub adder : Machine ℕ ℕ
adder = record {
  get_id = λ v. some (v ∷ []);
  serialize = λ v. v ∷ [];
  try_parse = λ body. elim body [ [] ↦ none | v ∷ rest ↦ some v ];
  init_clean = λ s. 0;
  propose = λ s. (s + 1, some s);
  exec_block = λ s v. s + v;
  log_commitment = λ s id. s;
  rewind_to_last_commit = λ s. s;
}

-- A wait for as many rounds as there is work for.
abbrev drain : ℕ → Interface ℕ ℕ → Interface ℕ ℕ
drain zero i = i
drain (suc rounds) i = elim (run_round adder i) [ ok j ↦ drain rounds j | throw e ↦ i ]

instance abbrev pub drained : AsyncWorker ℕ ℕ
drained = record { wait_for_async_task = λ i. drain (suc i.additional_proposal_requests) i }

drain-Runs : (rounds : ℕ) (i : Interface ℕ ℕ) → Runs adder i (drain rounds i)
drain-Runs zero i = rests
drain-Runs (suc rounds) i = elim (Result-cases (run_round adder i)) [
  | inl (j, e) ↦ rw (drain, e) (runs e (drain-Runs rounds j))
  | inr (fault, e) ↦ rw (drain, e) rests
]

drained-IsWait : IsWait adder drained
drained-IsWait i = drain-Runs (suc i.additional_proposal_requests) i

drained-IsPatient : IsPatient adder drained
drained-IsPatient i quiet =
    subst (λ n. exists_work_to_do (drain (suc n) i) ≡ false) (sym quiet.1)
      (rw (drain, round-after_round adder i quiet) (after_round-rests adder i quiet))

abbrev started : Interface ℕ ℕ
started = new_interface 5 2 true

-- The thread's queues after `set_proposer` and the request of `get_proposal`.
abbrev requested : Interface ℕ ℕ
requested = (request_proposal (set_proposer started)).0

Reach-run_round_example : (j : Interface ℕ ℕ) × (run_round adder requested ≡ ok j) × IsServed 2 j
Reach-run_round_example =
    Reach-run_round adder 5 2 true requested drained-IsWait (next (next here proposing) requests)

started-IsQuiet : IsQuiet adder started
unfolding new_interface
started-IsQuiet = (refl, refl)

-- Two blocks, with one between them that is not parsed.
submit_all-run_in_turn_example :
    IsQuiet adder (submit_all adder started (some 3 ∷ none ∷ some 4 ∷ []))
    × (state_of adder (submit_all adder started (some 3 ∷ none ∷ some 4 ∷ []))
        ≡ run_in_turn adder (state_of adder started) (some 3 ∷ none ∷ some 4 ∷ []))
submit_all-run_in_turn_example =
    submit_all-run_in_turn adder drained-IsWait drained-IsPatient started
      (some 3 ∷ none ∷ some 4 ∷ []) started-IsQuiet

abbrev proposal_of : Result (Interface ℕ ℕ × Option ℕ) → Option ℕ
proposal_of (ok r) = r.1
proposal_of (throw e) = none

proposes_its_state : proposal_of (get_proposal adder 2 (set_proposer started)) ≡ some 5
unfolding get_proposal request_proposal await_proposal set_proposer new_interface run_round
    exists_work_to_do add_proposal pass_commitment validate_all take_proposal is_nonempty is_empty
proposes_its_state = refl

-- Block 1 holds the value 1; it has been speculated on.
apply_block-cases_example :
    (IsExpected adder ((1, some (1 ∷ [])) ∷ []) 2 0 started 1 (chain_heap 1) []
      × Commits adder ((1, some (1 ∷ [])) ∷ []) 2 0 started 1 (chain_heap 1) [])
    ⊎ (IsConflicting adder ((1, some (1 ∷ [])) ∷ []) 2 0 started 1 (chain_heap 1) []
        × (apply_block adder (ready ((1, some (1 ∷ [])) ∷ []) 2 0 started) 1 (chain_heap 1) []
            ≡ throw deadlock))
apply_block-cases_example =
    apply_block-cases adder ((1, some (1 ∷ [])) ∷ []) 2 0 started 1 (chain_heap 1) [] (refl, refl)
      (omega arith) refl

abbrev one_proposal : List (List ℕ)
one_proposal = (7 ∷ []) ∷ []

abbrev five : ℕ
five = 5

get_next_proposal-add_proposal_example :
    ((one_proposal ≡ [])
      × (get_next_proposal (Nonspeculative.add_proposal (buffering five one_proposal) (8 ∷ []))
          ≡ ok (buffering five [], 8 ∷ [])))
    ⊎ ((x : List ℕ) × (rest : List (List ℕ)) × (get_next_proposal (buffering five one_proposal)
          ≡ ok (buffering five rest, x))
        × (get_next_proposal (Nonspeculative.add_proposal (buffering five one_proposal) (8 ∷ []))
            ≡ ok (Nonspeculative.add_proposal (buffering five rest) (8 ∷ []), x)))
get_next_proposal-add_proposal_example = get_next_proposal-add_proposal five one_proposal (8 ∷ [])

get_proposal-Answers_example : Answers adder (get_proposal adder 2 (set_proposer started))
get_proposal-Answers_example = get_proposal-Answers adder (set_proposer started)
