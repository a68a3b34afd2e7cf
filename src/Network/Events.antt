-- ===== src/Network/Events.antt =====
-- hotstuff/event.cc, network_event.cc, event_queue.cc and generic_event_queue.h: events, their
-- checks, and the queues whose threads handle them. A queue is the list of its events; its thread
-- takes all of them at once, and handles them in order outside of the lock.
use hotstuff.Prelude.{
  ℕ, Bool, true, false, List, [], ◌∷◌, ◌++◌, ◌==◌, not, if◌then◌else◌, Result, ok, throw, ◌>>=◌,
  mismatched_vote,
}
use hotstuff.Foreign.{Foreign}
use hotstuff.Wire.{PartialCertificate, VoteMessage, ProposeMessage}
use hotstuff.Config.{ReplicaConfig, get_info}
use hotstuff.Certs.{validate}
use hotstuff.Block.{Ptr, Heap, write, get_hash, receive_block, validate_hotstuff}
use hotstuff.Consensus.{Core, on_receive_vote, on_receive_proposal}

pub data Event : Type 0 where
  vote_event : PartialCertificate → Ptr → ℕ → Event
  proposal_event : Ptr → ℕ → Event

-- `Event::validate`.
unfoldable pub validate_event : Heap → Event → Result Bool
unfolding get_hash
validate_event h (vote_event cert block rid) =
    if not (get_hash (h block) == cert.hash) then throw mismatched_vote else ok true
validate_event h (proposal_event block rid) = if (h block).height == 0 then ok false else ok true

-- `EventQueue::validate_and_add_event`.
unfoldable pub add_valid_event : Heap → List Event → Event → Result (List Event)
unfolding validate_event
add_valid_event h events e = do
  valid ← validate_event h e
  ok (if not valid then events else events ++ e ∷ [])

module _ ⦃f : Foreign⦄ where
  -- `Event::operator()`.
  unfoldable pub run_event : Core → Event → Result Core
  run_event core (vote_event cert block rid) = on_receive_vote core cert block rid
  run_event core (proposal_event block rid) = on_receive_proposal core block rid

  -- `run_events` of the event queue.
  unfoldable pub run_events : Core → List Event → Result Core
  unfolding run_event
  run_events core [] = ok core
  run_events core (e ∷ es) = do core' ← run_event core e; run_events core' es

pub data NetEvent : Type 0 where
  vote_net_event : PartialCertificate → ℕ → NetEvent
  proposal_net_event : Ptr → ℕ → NetEvent
  receive_net_event : Ptr → ℕ → NetEvent

unfoldable pub vote_message_event : VoteMessage → NetEvent
vote_message_event v = vote_net_event v.vote v.voter

module _ ⦃f : Foreign⦄ where
  -- The proposed block is put at the new address `p`.
  unfoldable pub propose_message_event : Heap → Ptr → ProposeMessage → Heap × NetEvent
  unfolding write receive_block
  propose_message_event h p m =
      (write h p (receive_block m.proposal m.proposer), proposal_net_event p m.proposer)

  -- `validate_hotstuff` on a block of the heap, which caches a verdict in it.
  unfoldable pub validate_block : Heap → ReplicaConfig → Ptr → Result (Heap × Bool)
  unfolding validate_hotstuff write
  validate_block h config p = do
    (b, valid) ← validate_hotstuff config (h p)
    ok (write h p b, valid)

  -- `NetEvent::validate`.
  unfoldable pub validate_net_event : Heap → ReplicaConfig → NetEvent → Result (Heap × Bool)
  unfolding validate_block validate get_info
  validate_net_event h config (vote_net_event cert voter) = do
    info ← get_info config voter
    ok (h, validate cert info)
  validate_net_event h config (proposal_net_event block proposer) = validate_block h config block
  validate_net_event h config (receive_net_event block sender) = validate_block h config block
