-- ===== src/Network/Fetch.antt =====
-- hotstuff/block_storage/block_fetch_manager.cc and its header: the blocks asked for, and the
-- events that wait for them.
-- A `request_ctx_ptr` is the address of a context on a heap of its own.
use hotstuff.Prelude.{
  ℕ, zero, suc, ◌+◌, ◌/◌, ◌%◌, ◌^◌, Option, none, some, Bool, true, false, List, [], ◌∷◌, ◌++◌, ltb,
  ◌==◌, not, if◌then◌else◌, length, Result, ok, throw, ◌>>=◌, out_of_fuel, unknown_client,
}
use hotstuff.Config.{ReplicaInfo, ReplicaConfig, list_info, is_valid_replica}
use hotstuff.Storage.Collector.{refill}
use hotstuff.Network.Events.{NetEvent}

pub record RequestContext : Type 0 where
  pub request : ℕ
  pub block_is_received : Bool
  pub dependent_network_events : List NetEvent
  pub requested_from : ℕ

unfoldable pub new_context : ℕ → RequestContext
new_context request = record {
  request = request;
  block_is_received = false;
  dependent_network_events = [];
  requested_from = 0;
}

unfoldable pub was_requested_from : RequestContext → ℕ → Bool
was_requested_from c rid = (c.requested_from / 2 ^ rid) % 2 == 1

unfoldable pub mark_received : RequestContext → RequestContext
mark_received c = record c { block_is_received = true }

unfoldable pub add_network_events : RequestContext → List NetEvent → RequestContext
add_network_events c events = record c {
  dependent_network_events = c.dependent_network_events ++ events;
}

abbrev pub Contexts : Type 0
Contexts = ℕ → RequestContext

unfoldable pub write_context : Contexts → ℕ → RequestContext → Contexts
write_context cs a c b = if a == b then c else cs b

-- The queue of one replica, with the set of hashes that its worker has to ask for, in ascending
-- order.
pub record FetchQueue : Type 0 where
  pub outstanding_reqs : List ℕ
  pub worker_reqs : List ℕ

-- `std::set::insert`.
unfoldable pub insert_req : ℕ → List ℕ → List ℕ
insert_req hash [] = hash ∷ []
insert_req hash (x ∷ xs) =
    if ltb hash x then hash ∷ x ∷ xs else if x == hash then x ∷ xs else x ∷ insert_req hash xs

-- The loop of `do_gc` from its index on: a received request gives way to the last one.
unfoldable pub do_gc : ℕ → Contexts → List ℕ → Result (List ℕ)
unfolding refill
do_gc zero cs reqs = throw out_of_fuel
do_gc (suc fuel) cs [] = ok []
do_gc (suc fuel) cs (req ∷ reqs) =
    let dropped : Result (List ℕ) = do_gc fuel cs (refill reqs) in
    let kept : Result (List ℕ) = (do rest ← do_gc fuel cs reqs; ok (req ∷ rest)) in
    if (cs req).block_is_received then dropped else kept

-- `GC_FREQ`
abbrev pub gc_freq : ℕ
gc_freq = 10

unfoldable pub add_request : Contexts → FetchQueue → ℕ → Result FetchQueue
unfolding insert_req do_gc
add_request cs q req =
    let pushed = q.outstanding_reqs ++ req ∷ [] in
    let worker_reqs = insert_req (cs req).request q.worker_reqs in
    let collected : Result FetchQueue = (do
      reqs ← do_gc (suc (length pushed)) cs pushed
      ok (record { outstanding_reqs = reqs; worker_reqs = worker_reqs })) in
    if ltb gc_freq (length pushed)
    then collected
    else ok (record { outstanding_reqs = pushed; worker_reqs = worker_reqs })

pub record FetchManager : Type 0 where
  pub queues : List (ℕ × FetchQueue)
  pub outstanding_reqs : List (ℕ × ℕ)
  pub contexts : Contexts
  -- the next free address of a context
  pub next_context : ℕ

unfoldable pub new_queues : List ReplicaInfo → List (ℕ × FetchQueue)
new_queues [] = []
new_queues (info ∷ infos) =
    (info.id, record { outstanding_reqs = []; worker_reqs = [] }) ∷ new_queues infos

-- The constructor and `init_configs`, which adds the queue of each replica.
unfoldable pub new_manager : ReplicaConfig → FetchManager
unfolding new_queues list_info new_context
new_manager config = record {
  queues = new_queues (list_info config);
  outstanding_reqs = [];
  contexts = λ _. new_context 0;
  next_context = 0;
}

-- `outstanding_reqs.find`, and `erase` of what it finds.
unfoldable pub find_request : List (ℕ × ℕ) → ℕ → Option ℕ
find_request [] hash = none
find_request ((key, a) ∷ reqs) hash = if key == hash then some a else find_request reqs hash

unfoldable pub erase_request : List (ℕ × ℕ) → ℕ → List (ℕ × ℕ)
erase_request [] hash = []
erase_request ((key, a) ∷ reqs) hash =
    if key == hash then reqs else (key, a) ∷ erase_request reqs hash

-- `queues.at(target)->add_request(ctx)`.
unfoldable pub add_request_at :
    Contexts → List (ℕ × FetchQueue) → ℕ → ℕ → Result (List (ℕ × FetchQueue))
unfolding add_request
add_request_at cs [] target req = throw unknown_client
add_request_at cs ((rid, q) ∷ queues) target req =
    let here : Result (List (ℕ × FetchQueue)) = (do
      q' ← add_request cs q req
      ok ((rid, q') ∷ queues)) in
    let further : Result (List (ℕ × FetchQueue)) = (do
      rest ← add_request_at cs queues target req
      ok ((rid, q) ∷ rest)) in
    if rid == target then here else further

-- The context of a hash, which is made if there is none.
unfoldable pub context_of : FetchManager → ℕ → FetchManager × ℕ
unfolding find_request write_context new_context
context_of m requested_block = elim (find_request m.outstanding_reqs requested_block) [
  | some a ↦ (m, a)
  | none ↦ (
    record m {
      outstanding_reqs = (requested_block, m.next_context) ∷ m.outstanding_reqs;
      contexts = write_context m.contexts m.next_context (new_context requested_block);
      next_context = m.next_context + 1;
    },
    m.next_context,
  )
]

-- `add_fetch_request` once the context is at hand.
unfoldable pub request_context : FetchManager → ℕ → ℕ → List NetEvent → Result FetchManager
unfolding add_request_at was_requested_from write_context add_network_events
request_context m a request_target dependent_events = do
  let added : FetchManager = record m {
    contexts = write_context m.contexts a (add_network_events (m.contexts a) dependent_events);
  }
  let asked : Result FetchManager = (do
    queues ← add_request_at m.contexts m.queues request_target a
    ok (record added { queues = queues }))
  if not (was_requested_from (m.contexts a) request_target) then asked else ok added

unfoldable pub add_fetch_request :
    ReplicaConfig → FetchManager → ℕ → ℕ → List NetEvent → Result FetchManager
unfolding is_valid_replica context_of request_context
add_fetch_request config m requested_block request_target dependent_events =
    let (m', a) = context_of m requested_block in
    if not (is_valid_replica config request_target)
    then ok m
    else request_context m' a request_target dependent_events

unfoldable pub deliver_block : FetchManager → ℕ → FetchManager × List NetEvent
unfolding find_request erase_request write_context mark_received
deliver_block m hash = elim (find_request m.outstanding_reqs hash) [
  | none ↦ (m, [])
  | some a ↦ (
    record m {
      contexts = write_context m.contexts a (mark_received (m.contexts a));
      outstanding_reqs = erase_request m.outstanding_reqs hash;
    },
    (m.contexts a).dependent_network_events,
  )
]
