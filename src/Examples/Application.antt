-- ===== src/Examples/Application.antt =====
-- The application at concrete inputs.
use hotstuff.Prelude.{
  Option, Result, throw, if◌then◌else◌, ℕ, ◌≡◌, refl, ◌&&◌, not, ◌==◌, none, some, false, [], ◌∷◌,
  ok, arith,
}
use hotstuff.Certs.{deserialize}
use hotstuff.Block.{Heap, Disk, genesis_block, get_hash, mint_block, receive_block}
use hotstuff.Storage.Store.{get_block, new_store}
use hotstuff.Storage.Collector.{Collector, run_round}
use hotstuff.App.Kept.{Keeps, notify_ok_to_prune_blocks-Keeps}
use hotstuff.App.{App, notify_ok_to_prune_blocks, propose_body, on_new_qc, cancel_wait_for_new_qc}
use hotstuff.App.Proposing.{Proposes, minted, propose_body-Proposes}
use hotstuff.App.Pacemaker.{Pacemaker}
use hotstuff.App.Waiting.{Wakes, wait_for_qc-Wakes}
use hotstuff.Examples.Toy.{toy, qc_on, chain_heap, chained, wire_of}
use hotstuff.Log.{Lmdb, data_dbi, spell, read_entry, get_highest_qc}
use hotstuff.App.Restart.{reload_decided_blocks}
use hotstuff.App.Reloaded.{IsLoading, IsChain}
use hotstuff.Examples.Records.{Table, tables, bytes}
use hotstuff.Examples.Parts.{stored, stored-cases, stored-IsStore, stored-IsUncached}

abbrev pub launched : App ℕ
launched = record {
  core = chained;
  block_store = stored;
  hotstuff_events = [];
  protocol_manager = record { self_id = 1; other_clients = (2, []) ∷ [] };
  secret_key = 9;
  latest_new_qc = none;
  cancel_wait = false;
  vm_bridge = 0;
}

genesis_is_leaf : get_block stored (get_hash (chained.heap chained.b_leaf)) ≡ some 0
unfolding get_hash genesis_block get_block new_store
genesis_is_leaf = refl

genesis_is_certified : get_block stored (deserialize chained.hqc).obj_hash ≡ some 0
unfolding deserialize genesis_block get_block new_store
genesis_is_certified = refl

hash_is_free : get_block stored (get_hash (minted launched 1 (5 ∷ []))) ≡ none
unfolding get_hash mint_block receive_block genesis_block get_block new_store
hash_is_free = refl

propose_body-Proposes_example :
    (b : App ℕ) × (propose_body launched 1 (5 ∷ []) ≡ ok (b, get_hash (minted launched 1 (5 ∷ []))))
    × Proposes launched 1 (5 ∷ []) 0 b
unfolding genesis_block
propose_body-Proposes_example =
    propose_body-Proposes launched 1 (5 ∷ []) 0 stored-IsStore stored-IsUncached genesis_is_leaf
      genesis_is_certified (omega arith) hash_is_free

abbrev pacing : Pacemaker
pacing = record { expected_hash = 5; proposer = 1 }

wait_for_qc-Wakes_example :
    Wakes (on_new_qc launched 5) pacing (not launched.cancel_wait && (5 == pacing.expected_hash))
    × Wakes (cancel_wait_for_new_qc launched) pacing false
wait_for_qc-Wakes_example = wait_for_qc-Wakes launched pacing 5

notify_ok_to_prune_blocks-Keeps_example :
    (g : Heap) × (d : Collector) × (run_round chain_heap
        (notify_ok_to_prune_blocks launched 103).block_store.gc_collector
      ≡ ok (g, d))
    × Keeps chain_heap 103 g launched.block_store.gc_collector
notify_ok_to_prune_blocks-Keeps_example = notify_ok_to_prune_blocks-Keeps launched chain_heap 103

-- A replica that restarts with blocks 1 and 2 in its log and on its disk.
abbrev pub two_files : Disk
two_files hash =
    if hash == 1 then some (wire_of 0) else if hash == 2 then some (wire_of 1) else none

abbrev rebooted : App ℕ
rebooted = record launched { core = record chained { disk = two_files } }

abbrev pub two_entries : Lmdb Table Table
two_entries = record tables { entries = λ e d. ([], spell 32 1) ∷ ([], spell 32 2) ∷ [] }

abbrev pub signed_two : Table
signed_two d k = some (2 ∷ 0 ∷ [])

abbrev where_from : Result (App ℕ × ℕ) → Option (ℕ × ℕ × ℕ × ℕ)
where_from (throw e) = none
where_from (ok (a, highest)) = some (a.core.b_exec, a.core.b_lock, a.core.vheight, highest)

restarts_at_two :
    where_from (reload_decided_blocks bytes two_entries rebooted 1 signed_two) ≡ some (2, 2, 2, 2)
unfolding reload_decided_blocks spell new_store genesis_block
restarts_at_two = refl

pub rebooted-IsLoading : IsLoading chain_heap stored 1 (0 ∷ [])
unfolding get_block new_store genesis_block
rebooted-IsLoading = record {
  stored = stored-IsStore;
  below = λ hash q e. let (key, at) = stored-cases hash q e in omega (arith, at);
  known = λ hash e. (0, grind arith);
  only = λ hash q e. let (key, at) = stored-cases hash q e in rw (← key) refl;
}

pub rebooted-IsChain :
    IsChain bytes two_files 0 (0 ∷ []) (two_entries.entries signed_two data_dbi) (1 ∷ 2 ∷ [])
unfolding spell read_entry deserialize
rebooted-IsChain = (
  0,
  wire_of 0,
  refl,
  record { file = refl; named = refl; child = refl; certified = refl; new = refl },
  (
    0,
    wire_of 1,
    refl,
    record { file = refl; named = refl; child = refl; certified = refl; new = refl },
    _,
  ),
)

pub top_certificate : get_highest_qc two_entries bytes signed_two ≡ ok (qc_on 2)
unfolding get_highest_qc deserialize
top_certificate = refl

pub genesis_height : (chain_heap 0).height ≡ 0
unfolding genesis_block
genesis_height = refl
