-- ===== src/Network/Answered.antt =====
-- What a replica gets that asks another one for blocks.
use hotstuff.Prelude.{
  ℕ, ◌+◌, ◌<◌, ◌≡◌, ◌≢◌, refl, sym, ◌∙◌, ap, inl, inr, Bool, true, false, none, some, List, [], ◌∷◌,
  ◌++◌, map, All, arith, ◌==◌, ==_iff, not, if◌then◌else◌, Bool-cases, Option-cases, has, ok,
}
use mathlib.Core.List.{append_assoc, append-nil}
use hotstuff.Foreign.{Foreign}
use hotstuff.Wire.{HotstuffBlockWire}
use hotstuff.Config.{ReplicaConfig}
use hotstuff.Certs.{deserialize, verify}
use hotstuff.Block.{
  Ptr, Block, Heap, write, get_hash, receive_block, validate_hash, validate_hotstuff,
  get_justify_qc, genesis_block,
}
use hotstuff.Consensus.Reach.{insert-at, insert-other}
use hotstuff.Storage.Store.{Store, get_block}
use hotstuff.Network.Events.{NetEvent, receive_net_event, validate_block, validate_net_event}
use hotstuff.Network.Fetch.{FetchQueue}
use hotstuff.Network.Queue.{Net, validate_and_add_event}
use hotstuff.Network.Worker.{
  extract_reqs, received_at, receive_responses, run_fetch, respond, fetch_blocks,
}

module _ ⦃f : Foreign⦄ where
  abbrev pub name_of : HotstuffBlockWire → ℕ
  name_of w = f.hash_header w.header

  -- A cached block that still has its body.
  abbrev pub is_available : Heap → Store → ℕ → Bool
  is_available h s hash = elim (get_block s hash) [ none ↦ false | some p ↦ not (h p).flushed ]

  abbrev pub available : Heap → Store → List ℕ → List ℕ
  available h s [] = []
  available h s (hash ∷ hashes) =
      let rest = available h s hashes in if is_available h s hash then hash ∷ rest else rest

  -- A cached block other than the genesis block stands under the hash of its header.
  abbrev pub IsNamed : Heap → Store → Type 0
  IsNamed h s =
      (hash : ℕ) (p : Ptr)
      → get_hash genesis_block ≢ hash
      → get_block s hash ≡ some p
      → name_of (h p).wire ≡ hash

  abbrev pub asks_genesis : List ℕ → Bool
  asks_genesis hashes = has (get_hash genesis_block) hashes

  respond_step :
      (h : Heap) (s : Store) (hash : ℕ) (hashes : List ℕ)
      → (p : Ptr) → get_block s hash ≡ some p
      → respond h s (hash ∷ hashes)
        ≡ (if not (h p).flushed then (h p).wire ∷ respond h s hashes else respond h s hashes)
  unfolding respond
  respond_step h s hash hashes p e = rw (respond, e) refl

  respond_skip :
      (h : Heap) (s : Store) (hash : ℕ) (hashes : List ℕ)
      → get_block s hash ≡ none
      → respond h s (hash ∷ hashes) ≡ respond h s hashes
  unfolding respond
  respond_skip h s hash hashes e = rw (respond, e) refl

  respond-available :
      (h : Heap) (s : Store) (hashes : List ℕ)
      → IsNamed h s
      → asks_genesis hashes ≡ false
      → map name_of (respond h s hashes) ≡ available h s hashes
  unfolding respond
  respond-available h s [] named proper = refl
  respond-available h s (hash ∷ hashes) named proper =
      let other : get_hash genesis_block ≢ hash = ground arith in
      let rest = respond-available h s hashes named (ground arith) in
      elim (Option-cases (get_block s hash)) [
        | inl e ↦
            ap (map name_of) (respond_skip h s hash hashes e) ∙ rw (available, is_available, e) rest
        | inr (p, e) ↦ elim (Bool-cases (h p).flushed) [
          | inl gone ↦
              ap (map name_of) (respond_step h s hash hashes p e)
              ∙ rw (available, is_available, e, gone) rest
          | inr kept ↦
              ap (map name_of) (respond_step h s hash hashes p e)
              ∙ rw (available, is_available, e, kept)
                  (ap (λ l. name_of (h p).wire ∷ l) rest
                    ∙ ap (λ k. k ∷ available h s hashes) (named hash p other e))
        ]
      ]

  -- A body that its header names, and a certificate that verifies.
  abbrev pub IsGood : ReplicaConfig → HotstuffBlockWire → Type 0
  IsGood config w =
      (f.hash_body w.body ≡ w.header.body_hash)
      × (verify config (deserialize w.header.qc) ≡ ok true)

  -- Blocks with the hashes, whose bodies have been checked, stand at the addresses from `p` on.
  abbrev pub Stand : Heap → Ptr → List ℕ → Type 0
  Stand h p [] = Unit {0}
  Stand h p (hash ∷ hashes) =
      (get_hash (h p) ≡ hash)
      × ((h p).hash_checked ≡ true)
      × ((h p).hash_valid ≡ true)
      × Stand h (p + 1) hashes

  -- One event for each of them.
  abbrev pub arrivals : Ptr → ℕ → List ℕ → List NetEvent
  arrivals p from [] = []
  arrivals p from (hash ∷ hashes) = receive_net_event p from ∷ arrivals (p + 1) from hashes

  abbrev good_block : HotstuffBlockWire → ℕ → Block
  good_block w from = record (receive_block w from) { hash_checked = true; hash_valid = true }

  good_block-stands :
      (h : Heap) (p : Ptr) (w : HotstuffBlockWire) (from : ℕ)
      → f.hash_body w.body ≡ w.header.body_hash
      → received_at h p w from p ≡ good_block w from
  unfolding received_at validate_hash receive_block
  good_block-stands h p w from body =
      let same : (f.hash_body w.body == w.header.body_hash) ≡ true = (==_iff _ _).1 body in
      insert-at h p _ ∙ rw (validate_hash, same) refl

  received_other :
      (h : Heap) (p : Ptr) (w : HotstuffBlockWire) (from : ℕ) (q : Ptr)
      → p ≢ q
      → received_at h p w from q ≡ h q
  unfolding received_at
  received_other h p w from q ne = insert-other h p _ q ne

  -- The event of a good response is valid, and its heap is the one with the block.
  arrival_valid :
      (h : Heap) (config : ReplicaConfig) (p : Ptr) (w : HotstuffBlockWire) (from : ℕ)
      → IsGood config w
      → validate_net_event (received_at h p w from) config (receive_net_event p from)
        ≡ ok (write (received_at h p w from) p (good_block w from), true)
  unfolding validate_net_event validate_block validate_hotstuff validate_hash get_justify_qc
      receive_block
  arrival_valid h config p w from (body, signed) =
      let stands = good_block-stands h p w from body in rw (stands, validate_hash, signed) refl

  -- What the loop over the responses does.
  pub record Arrive (n : Net) (p : Ptr) (from : ℕ) (hashes : List ℕ) (n' : Net) : Type 0 where
    pub stand : Stand n'.heap p hashes
    pub events : n'.events ≡ n.events ++ arrivals p from hashes
    pub older : (q : Ptr) → q < p → n'.heap q ≡ n.heap q

  abbrev after : Net → Ptr → HotstuffBlockWire → ℕ → Net
  after n p w from = record n {
    heap = write (received_at n.heap p w from) p (good_block w from);
    events = n.events ++ receive_net_event p from ∷ [];
  }

  receive_step :
      (n : Net) (p : Ptr) (w : HotstuffBlockWire) (ws : List HotstuffBlockWire) (from : ℕ)
      → IsGood n.config w
      → receive_responses n p (w ∷ ws) from ≡ receive_responses (after n p w from) (p + 1) ws from
  unfolding receive_responses validate_and_add_event
  receive_step n p w ws from good = rw (arrival_valid n.heap n.config p w from good) refl

  receive_responses-Arrive :
      (ws : List HotstuffBlockWire) (n : Net) (p : Ptr) (from : ℕ)
      → All (IsGood n.config) ws
      → (n' : Net) × (receive_responses n p ws from ≡ ok n') × Arrive n p from (map name_of ws) n'
  unfolding receive_responses get_hash receive_block
  receive_responses-Arrive [] n p from good =
      (n, refl, record { stand = _; events = sym (append-nil n.events); older = λ q low. refl })
  receive_responses-Arrive (w ∷ ws) n p from (first, good) =
      let (n', e, rest) = receive_responses-Arrive ws (after n p w from) (p + 1) from good in
      let at : n'.heap p ≡ good_block w from =
        rest.older p (omega arith)
        ∙ insert-at (received_at n.heap p w from) p (good_block w from) in
      (
        n',
        receive_step n p w ws from first ∙ e,
        record {
          stand = (
            ap get_hash at,
            ap (λ (b : Block). b.hash_checked) at,
            ap (λ (b : Block). b.hash_valid) at,
            rest.stand,
          );
          events = rest.events ∙ append_assoc n.events (receive_net_event p from ∷ []) _;
          older = λ q low.
              let ne : p ≢ q = λ k. absurd (omega (arith, k, low)) in
              rest.older q (omega (arith, low))
              ∙ insert-other (received_at n.heap p w from) p (good_block w from) q ne
              ∙ received_other n.heap p w from q ne;
        },
      )

  -- When a replica asks another one for blocks and the call succeeds, where the cached blocks of
  -- the other but the genesis block stand under the hashes of their headers, the genesis block is
  -- not asked for, and those that it sends have the bodies that their headers name and
  -- certificates that the asking one verifies: the round returns, no request is left to make, the
  -- blocks of just those requested hashes that the other one caches with their bodies stand at the
  -- new addresses, in order, each with the hash that was asked for and its body checked, one event
  -- for each is queued behind the ones that wait, and no older block changes.
  pub run_fetch-Arrive :
      (q : FetchQueue) (n : Net) (p : Ptr) (from : ℕ) (h : Heap) (s : Store)
      → IsNamed h s
      → asks_genesis q.worker_reqs ≡ false
      → All (IsGood n.config) (fetch_blocks h s (extract_reqs q).1).responses
      → (n' : Net) × (run_fetch q n p from (some (fetch_blocks h s (extract_reqs q).1))
          ≡ ok ((extract_reqs q).0, n'))
        × Arrive n p from (available h s q.worker_reqs) n'
  unfolding run_fetch fetch_blocks extract_reqs
  run_fetch-Arrive q n p from h s named proper good =
      let (n', e, done) = receive_responses-Arrive _ n p from good in
      (n', rw e refl, rw (respond-available h s q.worker_reqs named proper) at done)
