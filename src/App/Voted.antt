-- ===== src/App/Voted.antt =====
-- The way of a vote, from `do_vote` to the network queue of the proposer.
use hotstuff.Prelude.{
  ℕ, ◌≡◌, refl, ap, Option, none, some, true, false, List, [], ◌∷◌, ◌++◌, ◌==◌, if◌then◌else◌,
  Bool-cases, inl, inr, ok,
}
use hotstuff.Foreign.{Foreign}
use hotstuff.Wire.{PartialCertificate}
use hotstuff.Config.{ReplicaInfo, find, is_valid_replica, get_info}
use hotstuff.Certs.{sign, validate, check_sig}
use hotstuff.Block.{Ptr, get_hash}
use hotstuff.Network.Events.{vote_net_event, vote_message_event, validate_net_event}
use hotstuff.Network.Outbound.{Message, vote_message, send_to, send_vote_to}
use hotstuff.Network.Queue.{Net, validate_and_add_event, handle_vote}
use hotstuff.App.{App, do_vote}

-- What the client of a replica has to send.
abbrev pub work_of : List (ℕ × List Message) → ℕ → Option (List Message)
work_of [] rid = none
work_of ((r, work) ∷ clients) rid = if r == rid then some work else work_of clients rid

send_to-work_of :
    (clients : List (ℕ × List Message)) (rid : ℕ) (msg : Message) (work : List Message)
    → work_of clients rid ≡ some work
    → (sent : List (ℕ × List Message)) × (send_to clients rid msg ≡ ok sent)
      × (work_of sent rid ≡ some (work ++ msg ∷ []))
unfolding send_to
send_to-work_of [] rid msg work e = cc
send_to-work_of ((r, w) ∷ clients) rid msg work e = elim (Bool-cases (r == rid)) [
  | inl same ↦
      let at : w ≡ work = cc (rw same at e) in
      ((r, w ++ msg ∷ []) ∷ clients, rw same refl, rw (same, at) refl)
  | inr other ↦
      let (sent, done, found) = send_to-work_of clients rid msg work (rw other at e) in
      ((r, w) ∷ sent, rw (other, done) refl, rw other found)
]

module _ ⦃f : Foreign⦄ where
  -- The key signs what its public key verifies.
  abbrev pub IsKeyPair : ℕ → ℕ → Type 0
  IsKeyPair sk pk =
      (hash : ℕ)
      → (sig : ℕ) × (f.sign_detached hash sk ≡ some sig) × (f.verify_detached sig hash pk ≡ true)

  -- A vote on its way: it waits for the proposer's client behind the messages that do, and once it
  -- is received it waits, as valid, behind the events of the proposer.
  pub record Travels {B : Type 0} (a : App B) (block : Ptr) (proposer : ℕ) (work : List Message)
      (n : Net) (cert : PartialCertificate) (a' : App B) : Type 0 where
    pub on_block : cert.hash ≡ get_hash (a.core.heap block)
    pub queued :
        work_of a'.protocol_manager.other_clients proposer
        ≡ some
            (work ++ vote_message (record { vote = cert; voter = a.protocol_manager.self_id }) ∷ [])
    pub no_event : a'.hotstuff_events ≡ a.hotstuff_events
    pub received :
        handle_vote n (record { vote = cert; voter = a.protocol_manager.self_id })
        ≡ ok (record n { events = n.events ++ vote_net_event cert a.protocol_manager.self_id ∷ [] })

  vote_net_event-valid :
      (n : Net) (cert : PartialCertificate) (voter : ℕ) (info : ReplicaInfo)
      → find voter n.config.replica_map ≡ some info
      → f.verify_detached cert.sig cert.hash info.pk ≡ true
      → validate_net_event n.heap n.config (vote_net_event cert voter) ≡ ok (n.heap, true)
  unfolding validate_net_event get_info validate check_sig
  vote_net_event-valid n cert voter info known valid =
      rw (get_info, known) (ap (λ b. ok (n.heap, b)) valid)

  add_valid_vote :
      (n : Net) (cert : PartialCertificate) (voter : ℕ) (info : ReplicaInfo)
      → find voter n.config.replica_map ≡ some info
      → f.verify_detached cert.sig cert.hash info.pk ≡ true
      → validate_and_add_event n (vote_net_event cert voter)
        ≡ ok (record n { events = n.events ++ vote_net_event cert voter ∷ [] })
  unfolding validate_and_add_event
  add_valid_vote n cert voter info known valid =
      rw (vote_net_event-valid n cert voter info known valid) refl

  handle_vote-valid :
      (n : Net) (cert : PartialCertificate) (voter : ℕ) (info : ReplicaInfo)
      → find voter n.config.replica_map ≡ some info
      → f.verify_detached cert.sig cert.hash info.pk ≡ true
      → handle_vote n (record { vote = cert; voter = voter })
        ≡ ok (record n { events = n.events ++ vote_net_event cert voter ∷ [] })
  unfolding handle_vote is_valid_replica vote_message_event
  handle_vote-valid n cert voter info known valid =
      rw (is_valid_replica, known) (add_valid_vote n cert voter info known valid)

  -- With a key that signs what its public key verifies, a client for the proposer, which is
  -- another replica, and a proposer that knows the voter under that public key: `do_vote` returns,
  -- the vote is on the block and is queued for the proposer behind the messages that wait, no
  -- event is added, and the proposer, once it receives the vote, finds it valid and queues it.
  pub do_vote-Travels :
      {B : Type 0} (a : App B) (block : Ptr) (proposer : ℕ) (work : List Message) (n : Net)
      (info : ReplicaInfo)
      → IsKeyPair a.secret_key info.pk
      → (proposer == a.protocol_manager.self_id) ≡ false
      → work_of a.protocol_manager.other_clients proposer ≡ some work
      → find a.protocol_manager.self_id n.config.replica_map ≡ some info
      → (cert : PartialCertificate) × (a' : App B) × (do_vote a block proposer ≡ ok a')
        × Travels a block proposer work n cert a'
  unfolding do_vote sign send_vote_to
  do_vote-Travels a block proposer work n info pair other client known =
      let (sig, signed, verified) = pair (get_hash (a.core.heap block)) in
      let cert : PartialCertificate = record { hash = get_hash (a.core.heap block); sig = sig } in
      let self = a.protocol_manager.self_id in
      let msg = vote_message (record { vote = cert; voter = self }) in
      let (sent, queued, found) =
        send_to-work_of a.protocol_manager.other_clients proposer msg work client in
      (
        cert,
        record a { protocol_manager = record (a.protocol_manager) { other_clients = sent } },
        rw (signed, other, queued) refl,
        record {
          on_block = refl;
          queued = found;
          no_event = refl;
          received = handle_vote-valid n cert self info known verified;
        },
      )
