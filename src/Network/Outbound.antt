-- ===== src/Network/Outbound.antt =====
-- hotstuff/protocol/hotstuff_protocol_manager.cc and hotstuff_protocol_client.cc: messages to the
-- other replicas and to the replica itself.
use hotstuff.Prelude.{
  ℕ, Bool, true, false, List, [], ◌∷◌, ◌++◌, ◌==◌, not, if◌then◌else◌, Result, ok, throw, ◌>>=◌,
  unknown_client,
}
use hotstuff.Wire.{PartialCertificate, VoteMessage, ProposeMessage}
use hotstuff.Config.{ReplicaInfo, ReplicaConfig, list_info}
use hotstuff.Block.{Ptr, Heap}
use hotstuff.Network.Events.{Event, vote_event, proposal_event, add_valid_event}

pub data Message : Type 0 where
  vote_message : VoteMessage → Message
  propose_message : ProposeMessage → Message

-- The clients of the other replicas, each as the list `work` of what it has to send.
pub record ProtocolManager : Type 0 where
  pub self_id : ℕ
  pub other_clients : List (ℕ × List Message)

unfoldable pub clients_of : ℕ → List ReplicaInfo → List (ℕ × List Message)
clients_of self_id [] = []
clients_of self_id (info ∷ infos) =
    if not (info.id == self_id)
    then (info.id, []) ∷ clients_of self_id infos
    else clients_of self_id infos

unfoldable pub new_protocol_manager : ReplicaConfig → ℕ → ProtocolManager
unfolding clients_of list_info
new_protocol_manager config self_id = record {
  self_id = self_id;
  other_clients = clients_of self_id (list_info config);
}

-- `other_clients.at(target)`, and the call of the client, which queues the message.
unfoldable pub send_to : List (ℕ × List Message) → ℕ → Message → Result (List (ℕ × List Message))
send_to [] target msg = throw unknown_client
send_to ((rid, work) ∷ clients) target msg =
    let further : Result (List (ℕ × List Message)) = (do
      rest ← send_to clients target msg
      ok ((rid, work) ∷ rest)) in
    if rid == target then ok ((rid, work ++ msg ∷ []) ∷ clients) else further

unfoldable pub send_to_all : List (ℕ × List Message) → Message → List (ℕ × List Message)
send_to_all [] msg = []
send_to_all ((rid, work) ∷ clients) msg = (rid, work ++ msg ∷ []) ∷ send_to_all clients msg

-- `send_vote_to`: to itself, as an event; to another, as a message.
unfoldable pub send_vote_to :
    ProtocolManager
    → Heap
    → List Event
    → Ptr
    → PartialCertificate
    → ℕ
    → Result (ProtocolManager × List Event)
unfolding add_valid_event send_to
send_vote_to m h events block pc target =
    let own : Result (ProtocolManager × List Event) = (do
      events' ← add_valid_event h events (vote_event pc block m.self_id)
      ok (m, events')) in
    let sent : Result (ProtocolManager × List Event) = (do
      clients ←
          send_to m.other_clients target (vote_message (record { vote = pc; voter = m.self_id }))
      ok (record m { other_clients = clients }, events)) in
    if target == m.self_id then own else sent

-- `broadcast_proposal`: to itself first.
unfoldable pub broadcast_proposal :
    ProtocolManager → Heap → List Event → Ptr → Result (ProtocolManager × List Event)
unfolding add_valid_event send_to_all
broadcast_proposal m h events block = do
  events' ← add_valid_event h events (proposal_event block m.self_id)
  ok (
    record m {
      other_clients =
          send_to_all m.other_clients
            (propose_message (record { proposal = (h block).wire; proposer = m.self_id }));
    },
    events',
  )

-- `do_work`: each message is tried until the remote call succeeds. The outcomes of the tries are an
-- argument: the client makes no more of them when it is told to stop, which it looks up after a
-- failed one. The result is what was sent and what was left.
unfoldable pub do_work : List Bool → List Message → List Message × List Message
do_work outcomes [] = ([], [])
do_work [] (msg ∷ todo) = ([], msg ∷ todo)
do_work (true ∷ outcomes) (msg ∷ todo) =
    let (sent, left) = do_work outcomes todo in (msg ∷ sent, left)
do_work (false ∷ outcomes) (msg ∷ todo) = do_work outcomes (msg ∷ todo)
