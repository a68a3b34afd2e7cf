-- ===== src/Examples/Traffic.antt =====
-- Network events and requests at concrete inputs.
use hotstuff.Prelude.{none, ℕ, ◌≡◌, refl, ◌||◌, true, false, List, [], ◌∷◌, has, Bool, ok}
use hotstuff.Config.{find, is_valid_replica}
use hotstuff.Network.Events.{NetEvent, vote_net_event, proposal_net_event}
use hotstuff.Network.Fetch.{FetchManager, FetchQueue, new_manager, add_fetch_request, deliver_block}
use hotstuff.Network.Parked.{new_manager-IsManager}
use hotstuff.Network.Asked.{IsParked, add_fetch_request-IsParked}
use hotstuff.Network.Freed.{IsFreed, deliver_block-IsFreed}
use hotstuff.Network.Queue.{Net, on_event}
use hotstuff.Network.Handled.{IsNet, Handles, on_event-Handles}
use hotstuff.Network.Worker.{extract_reqs, readd_request, run_fetch}
use hotstuff.Network.Outbound.{Message, vote_message, do_work}
use hotstuff.Network.Retries.{run_fetch-readds}
use hotstuff.Examples.Toy.{toy, chain_heap, qc_on}
use hotstuff.Examples.Parts.{three, stored, stored-IsStore, stored-IsUncached, stored-room}

abbrev vote_on : ℕ → NetEvent
vote_on hash = vote_net_event (record { hash = hash; sig = 5 }) 2

abbrev asked_three : FetchManager
asked_three = new_manager three

add_fetch_request-IsParked_example :
    (m' : FetchManager) × (add_fetch_request three asked_three 9 2 (vote_on 9 ∷ []) ≡ ok m')
    × IsParked three asked_three 9 2 (vote_on 9 ∷ []) m'
unfolding is_valid_replica find
add_fetch_request-IsParked_example =
    add_fetch_request-IsParked three asked_three 9 2 (vote_on 9 ∷ []) (new_manager-IsManager three)
      refl

-- The manager that a request leads to.
requests_nine :
    (m' : FetchManager) × (add_fetch_request three asked_three 9 2 (vote_on 9 ∷ []) ≡ ok m')
    × IsParked three asked_three 9 2 (vote_on 9 ∷ []) m'
unfolding is_valid_replica find
requests_nine =
    add_fetch_request-IsParked three asked_three 9 2 (vote_on 9 ∷ []) (new_manager-IsManager three)
      refl

deliver_block-IsFreed_example :
    IsFreed three requests_nine.0 9
      (deliver_block requests_nine.0 9).0
      (deliver_block requests_nine.0 9).1
deliver_block-IsFreed_example =
    deliver_block-IsFreed three requests_nine.0 9 requests_nine.2.manager

-- Block 1 waits to be inserted above the genesis block.
abbrev pub listening : Net
listening = record {
  heap = chain_heap;
  block_store = stored;
  block_fetch_manager = asked_three;
  config = three;
  events = [];
  hotstuff_events = [];
}

listening-IsNet : IsNet listening
listening-IsNet = record { manager = new_manager-IsManager three; store = stored-IsStore }

on_event-Handles_example :
    (n' : Net) × (on_event listening (proposal_net_event 1 2) ≡ ok n')
    × Handles listening (proposal_net_event 1 2) n'
    × IsNet n'
unfolding is_valid_replica find
on_event-Handles_example =
    on_event-Handles listening (proposal_net_event 1 2) listening-IsNet
      (refl, (qc_on 0, record { new = stored-IsUncached; has_qc = refl; room = stored-room }))

abbrev asking : List ℕ → FetchQueue
asking hashes = record { outstanding_reqs = []; worker_reqs = hashes }

run_fetch-readds_example :
    ((q : FetchQueue) × (run_fetch (asking (3 ∷ 7 ∷ [])) listening 9 2 none ≡ ok (q, listening))
      × (q.outstanding_reqs ≡ [])
      × ((x : ℕ) → has x q.worker_reqs ≡ has x (3 ∷ 7 ∷ [])))
    × ((meanwhile : FetchQueue) (x : ℕ)
        → has x (readd_request meanwhile (extract_reqs (asking (3 ∷ 7 ∷ []))).1).worker_reqs
          ≡ has x (3 ∷ 7 ∷ []) || has x meanwhile.worker_reqs)
run_fetch-readds_example = run_fetch-readds (asking (3 ∷ 7 ∷ [])) listening 9 2

abbrev to_send : List Message
to_send = vote_message (record { vote = record { hash = 4; sig = 6 }; voter = 2 }) ∷ []

abbrev outcomes : List Bool
outcomes = false ∷ true ∷ []

sends_on_retry : (do_work outcomes to_send).1 ≡ []
unfolding do_work
sends_on_retry = refl
