-- ===== src/Network/Queue.antt =====
-- hotstuff/network_event_queue.cc and its header, and the handlers of hotstuff/protocol/
-- hotstuff_server.cc: what a replica does with a message of another.
use hotstuff.Prelude.{
  ℕ, Option, none, some, Bool, List, [], ◌∷◌, ◌++◌, not, if◌then◌else◌, Result, ok, ◌>>=◌,
}
use hotstuff.Foreign.{Foreign}
use hotstuff.Wire.{VoteMessage, ProposeMessage}
use hotstuff.Config.{ReplicaConfig, is_valid_replica}
use hotstuff.Block.{Ptr, Heap, get_hash}
use hotstuff.Storage.Store.{Store, MissingDependencies, insert_block, get_block, has_missing}
use hotstuff.Network.Events.{
  Event, vote_event, proposal_event, add_valid_event, NetEvent, vote_net_event, proposal_net_event,
  receive_net_event, validate_net_event, vote_message_event, propose_message_event,
}
use hotstuff.Network.Fetch.{FetchManager, add_fetch_request, deliver_block}

pub record Net : Type 0 where
  pub heap : Heap
  pub block_store : Store
  pub block_fetch_manager : FetchManager
  pub config : ReplicaConfig
  -- the network events that wait for their thread
  pub events : List NetEvent
  -- the events that wait for the thread of the state machine
  pub hotstuff_events : List Event

-- `hotstuff_event_queue.validate_and_add_event`.
unfoldable pub pass_on : Net → Event → Result Net
unfolding add_valid_event
pass_on n e = do
  events ← add_valid_event n.heap n.hotstuff_events e
  ok (record n { hotstuff_events = events })

-- `block_fetch_manager.deliver_block`.
unfoldable pub deliver : Net → Ptr → Net × List NetEvent
unfolding deliver_block get_hash
deliver n blk =
    let (m, events) = deliver_block n.block_fetch_manager (get_hash (n.heap blk)) in
    (record n { block_fetch_manager = m }, events)

-- `block_fetch_manager.add_fetch_request`.
unfoldable pub fetch : Net → ℕ → ℕ → List NetEvent → Result Net
unfolding add_fetch_request
fetch n requested_block request_target dependent_events = do
  m ←
      add_fetch_request n.config n.block_fetch_manager requested_block request_target
        dependent_events
  ok (record n { block_fetch_manager = m })

-- The request for the missing justifying block, if there is one.
unfoldable pub fetch_justify : Net → Option ℕ → ℕ → List NetEvent → Result Net
unfolding fetch
fetch_justify n none from dep_events = ok n
fetch_justify n (some justify_hash) from dep_events = fetch n justify_hash from dep_events

-- The requests for missing dependencies; the events wait for the first of them.
unfoldable pub fetch_missing : Net → MissingDependencies → ℕ → List NetEvent → Result Net
unfolding fetch fetch_justify
fetch_missing n m from dep_events = elim m.parent_hash [
  | none ↦ fetch_justify n m.justify_hash from dep_events
  | some parent_hash ↦ (do
    n' ← fetch n parent_hash from dep_events
    fetch_justify n' m.justify_hash from [])
]

-- The part that a proposal and a received block share, once the block is inserted: the events that
-- waited for it are queued, or wait with the event for what is missing.
unfoldable pub settle : Net → Ptr → MissingDependencies → ℕ → NetEvent → Result Net
unfolding deliver fetch_missing has_missing
settle n blk missing from event =
    let (n', dep_events) = deliver n blk in
    let waits = fetch_missing n' missing from (dep_events ++ event ∷ []) in
    if not (has_missing missing) then ok (record n' { events = n'.events ++ dep_events }) else waits

-- `block_store.insert_block` and what follows it for either kind of event.
unfoldable pub insert_and_settle : Net → Ptr → ℕ → NetEvent → Result (Net × Bool)
unfolding insert_block settle has_missing
insert_and_settle n blk from event = do
  (h, s, missing) ← insert_block n.heap n.block_store blk
  n' ← settle (record n { heap = h; block_store = s }) blk missing from event
  ok (n', not (has_missing missing))

unfoldable pub on_event : Net → NetEvent → Result Net
unfolding get_block pass_on fetch insert_and_settle
on_event n (vote_net_event cert voter) = elim (get_block n.block_store cert.hash) [
  | some block ↦ pass_on n (vote_event cert block voter)
  | none ↦ fetch n cert.hash voter (vote_net_event cert voter ∷ [])
]
on_event n (proposal_net_event blk proposer) = do
  (n', inserted) ← insert_and_settle n blk proposer (proposal_net_event blk proposer)
  let passed : Result Net = pass_on n' (proposal_event blk proposer)
  if inserted then passed else ok n'
on_event n (receive_net_event blk sender) = do
  (n', inserted) ← insert_and_settle n blk sender (receive_net_event blk sender)
  ok n'

-- `run_events` of the network event queue.
unfoldable pub run_net_events : Net → List NetEvent → Result Net
unfolding on_event
run_net_events n [] = ok n
run_net_events n (e ∷ es) = do n' ← on_event n e; run_net_events n' es

-- One round of the queue's thread: it takes all events at once.
unfoldable pub run_round : Net → Result Net
unfolding run_net_events
run_round n = run_net_events (record n { events = [] }) n.events

module _ ⦃f : Foreign⦄ where
  unfoldable pub validate_and_add_event : Net → NetEvent → Result Net
  unfolding validate_net_event
  validate_and_add_event n e = do
    (h, valid) ← validate_net_event n.heap n.config e
    ok (record n { heap = h; events = if valid then n.events ++ e ∷ [] else n.events })

  -- `HotstuffProtocolHandler::vote` and `propose`; a proposed block goes to the new address `p`.
  unfoldable pub handle_vote : Net → VoteMessage → Result Net
  unfolding is_valid_replica validate_and_add_event vote_message_event
  handle_vote n v =
      if not (is_valid_replica n.config v.voter)
      then ok n
      else validate_and_add_event n (vote_message_event v)

  unfoldable pub handle_propose : Net → Ptr → ProposeMessage → Result Net
  unfolding is_valid_replica validate_and_add_event propose_message_event
  handle_propose n p m =
      let (h, e) = propose_message_event n.heap p m in
      if not (is_valid_replica n.config m.proposer)
      then ok n
      else validate_and_add_event (record n { heap = h }) e
