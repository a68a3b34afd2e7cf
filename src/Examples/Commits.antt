-- ===== src/Examples/Commits.antt =====
-- Commits on the bridges and on the log, at concrete inputs.
use hotstuff.Prelude.{
  ℕ, ◌+◌, ==_refl, some, ◌≡◌, refl, false, none, List, [], ◌∷◌, ◌++◌, All, map, arith, ok, throw,
  unimplemented,
}
use hotstuff.App.{App, do_vote}
use hotstuff.App.Voted.{IsKeyPair, Travels, do_vote-Travels}
use hotstuff.Config.{find}
use hotstuff.Wire.{PartialCertificate}
use hotstuff.Examples.Traffic.{listening}
use hotstuff.Certs.{serialize}
use hotstuff.Block.{Ptr, get_hash, genesis_block}
use hotstuff.Consensus.{apply_queue}
use hotstuff.Consensus.Calls.{Call}
use hotstuff.Vm.Interface.{Interface}
use hotstuff.Vm.Bridge.{Bridge}
use hotstuff.Vm.Committed.{ready}
use hotstuff.Log.Sequence.{Fits}
use hotstuff.App.Effects.{Node, hotstuff_app, not_implemented, run_calls, init_from_disk}
use hotstuff.App.Decided.{Decides, apply_queue-Decides}
use hotstuff.App.Promised.{id_of, hotstuff_promise}
use hotstuff.Examples.Toy.{toy, chain_heap, chained, qc_on}
use hotstuff.Examples.Parts.{adder, drained, replica}
use hotstuff.Examples.Application.{
  launched, two_files, two_entries, signed_two, rebooted-IsLoading, rebooted-IsChain,
  top_certificate, genesis_height,
}
use hotstuff.App.Restarted.{Restarts, init_from_disk-Restarts}
use hotstuff.Storage.Store.{get_block, new_store}
use hotstuff.Examples.Records.{Table, tables, bytes, tables-IsLmdb}

abbrev idle : Interface ℕ ℕ
idle = record {
  vm_instance = 0;
  immediately_refill_proposal_buffer = false;
  proposal_buffer_target = 1;
  blocks_to_validate = [];
  proposal_buffer = [];
  additional_proposal_requests = 0;
  is_proposer = false;
  highest_committed_id = none;
  done_flag = false;
}

abbrev node : Node (Bridge ℕ ℕ) Table Table
node = record {
  app = record {
    core = chained;
    block_store = launched.block_store;
    hotstuff_events = [];
    protocol_manager = launched.protocol_manager;
    secret_key = 9;
    latest_new_qc = none;
    cancel_wait = false;
    vm_bridge = ready [] 1 0 idle;
  };
  decided_hash_index = λ d k. none;
  txn = none;
}

two_blocks-Fits : All Fits (map chain_heap (1 ∷ 2 ∷ []))
unfolding get_hash
two_blocks-Fits = ((omega arith, omega arith), ((omega arith, omega arith), _))

apply_queue-Decides_example :
    (cs : List Call) × (n : Node (Bridge ℕ ℕ) Table Table) × ((apply_queue chained 2
        (2 ∷ 1 ∷ [])
        (qc_on 2)).calls
      ≡ [] ++ cs)
    × (run_calls (hotstuff_app adder 0) tables bytes node cs ≡ ok n)
    × Decides
        (hotstuff_app adder 0)
        tables
        bytes
        tables-IsLmdb
        (id_of adder)
        (hotstuff_promise adder 0)
        node
        (1 ∷ 2 ∷ [])
        (serialize (qc_on 2))
        2
        n
unfolding hotstuff_promise apply_queue
apply_queue-Decides_example =
    apply_queue-Decides (hotstuff_app adder 0) tables bytes tables-IsLmdb (id_of adder)
      (hotstuff_promise adder 0) chained 2 (2 ∷ 1 ∷ []) (qc_on 2) node
      ([], 1, 0, idle, refl, refl, (refl, (refl, _)), _, omega arith) two_blocks-Fits
      (omega arith, _)

no_proposals_to_add :
    (hotstuff_app adder 0).add_proposal (ready [] 1 0 idle) (1 ∷ []) ≡ throw unimplemented
unfolding hotstuff_app not_implemented
no_proposals_to_add = refl

-- Replica 1, whose key is 1, votes for a block of replica 2.
abbrev voting : App ℕ
voting = record launched { secret_key = 1 }

toy-IsKeyPair : IsKeyPair 1 1
toy-IsKeyPair hash = (hash + 1, refl, ==_refl (hash + 1))

replica_1_known : find 1 listening.config.replica_map ≡ some (replica 1)
unfolding find
replica_1_known = refl

do_vote-Travels_example :
    (cert : PartialCertificate) × (a : App ℕ) × (do_vote voting 1 2 ≡ ok a)
    × Travels voting 1 2 [] listening cert a
do_vote-Travels_example =
    do_vote-Travels voting 1 2 [] listening (replica 1) toy-IsKeyPair refl refl replica_1_known

-- The speculative application, restarted from the log of blocks 1 and 2.
abbrev crashed : App (Bridge ℕ ℕ)
crashed = record (node.app) { core = record chained { disk = two_files } }

genesis_cached : get_block crashed.block_store 0 ≡ some 0
unfolding get_block new_store genesis_block get_hash
genesis_cached = refl

init_from_disk-Restarts_example :
    (n : Node (Bridge ℕ ℕ) Table Table) × (top : Ptr) × (init_from_disk
        (hotstuff_app adder 0)
        two_entries
        bytes
        crashed
        1
        signed_two
        3
      ≡ ok n)
    × Restarts adder crashed signed_two 0 (1 ∷ 2 ∷ []) (qc_on 2) 3 (chain_heap 3 ∷ []) n top
init_from_disk-Restarts_example =
    init_from_disk-Restarts adder 0 bytes two_entries signed_two crashed 1 0 0 1 (2 ∷ []) (qc_on 2)
      3 (chain_heap 3 ∷ []) rebooted-IsLoading genesis_cached (genesis_height, refl)
      rebooted-IsChain top_certificate refl refl (refl, _) (omega arith)
