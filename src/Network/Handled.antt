-- ===== src/Network/Handled.antt =====
-- `on_event`: each event is passed on, or waits for a block that is asked for.
use hotstuff.Prelude.{
  ℕ, suc, ◌<◌, ◌^◌, ◌≡◌, refl, ◌⊎◌, inl, inr, true, none, some, List, [], ◌∷◌, ◌++◌, ◌==◌, ==_iff,
  ◌||◌, not, Bool-cases, Option-cases, if◌then◌else◌, ok,
}
use hotstuff.Config.{is_valid_replica}
use hotstuff.Wire.{PartialCertificate}
use hotstuff.Certs.{QuorumCertificate}
use hotstuff.Block.{Ptr, Heap, get_hash, get_parent_hash}
use hotstuff.Storage.Store.{Store, MissingDependencies, get_block, has_missing}
use hotstuff.Storage.Inserted.{IsStore, IsUncached, IsInserted, insert_block-IsInserted}
use hotstuff.Network.Events.{
  Event, vote_event, proposal_event, validate_event, add_valid_event, NetEvent, vote_net_event,
  proposal_net_event, receive_net_event,
}
use hotstuff.Network.Parked.{park, IsManager}
use hotstuff.Network.Settled.{waiting, fetch-IsFetched, IsSettled, settle-IsSettled}
use hotstuff.Network.Queue.{Net, pass_on, insert_and_settle, on_event}

-- The fetch manager keeps what waits apart by hashes, and the store links its blocks.
pub record IsNet (n : Net) : Type 0 where
  pub manager : IsManager n.config n.block_fetch_manager
  pub store : IsStore n.heap n.block_store

-- A block that may enter the store.
pub record IsInsertable (n : Net) (blk : Ptr) (qc : QuorumCertificate) : Type 0 where
  pub new : IsUncached n.block_store blk
  pub has_qc : (n.heap blk).parsed_qc ≡ some qc
  pub room :
      (q : Ptr)
      → get_block n.block_store (get_parent_hash (n.heap blk)) ≡ some q
      → suc (n.heap q).height < 2 ^ 64

-- The sender is a replica, and a block may enter the store.
abbrev pub IsAdmissible : Net → NetEvent → Type 0
IsAdmissible n (vote_net_event cert voter) = is_valid_replica n.config voter ≡ true
IsAdmissible n (proposal_net_event blk proposer) =
    (is_valid_replica n.config proposer ≡ true) × ((qc : QuorumCertificate) × IsInsertable n blk qc)
IsAdmissible n (receive_net_event blk sender) =
    (is_valid_replica n.config sender ≡ true) × ((qc : QuorumCertificate) × IsInsertable n blk qc)

-- A vote goes to the state machine if its block is in the store, and waits for it otherwise.
abbrev pub HandlesVote : Net → (e : NetEvent) (hash : ℕ) (to_event : Ptr → Event) → Net → Type 0
HandlesVote n e hash to_event n' =
    (n'.events ≡ n.events)
    × (((b : Ptr) × (get_block n.block_store hash ≡ some b)
          × (n'.hotstuff_events ≡ n.hotstuff_events ++ to_event b ∷ [])
          × ((x : ℕ) → waiting n' x ≡ waiting n x))
        ⊎ ((get_block n.block_store hash ≡ none)
            × (n'.hotstuff_events ≡ n.hotstuff_events)
            × ((x : ℕ) → waiting n' x ≡ park (waiting n) hash (e ∷ []) x)))

abbrev pub inserted : Net → Heap → Store → Net
inserted n g t = record n { heap = g; block_store = t }

-- The block of an event is inserted, or its event waits for what is missing.
abbrev pub HandlesBlock : Net → Ptr → NetEvent → Net → MissingDependencies → Type 0
HandlesBlock n blk e n' m =
    (qc : QuorumCertificate) × (g : Heap) × (t : Store) × IsInserted n.heap n.block_store blk qc g t
      m
    × IsSettled (inserted n g t) n' blk e m

-- The events of the state machine after a proposal: none is added if a block is missing.
abbrev pub handed_over : Net → Ptr → ℕ → MissingDependencies → List Event
handed_over n blk proposer m =
    if has_missing m || ((n.heap blk).height == 0)
    then n.hotstuff_events
    else n.hotstuff_events ++ proposal_event blk proposer ∷ []

abbrev pub Handles : Net → NetEvent → Net → Type 0
Handles n (vote_net_event cert voter) n' =
    HandlesVote n (vote_net_event cert voter) cert.hash (λ b. vote_event cert b voter) n'
Handles n (proposal_net_event blk proposer) n' =
    (n1 : Net) × (m : MissingDependencies) × HandlesBlock n blk (proposal_net_event blk proposer) n1
      m
    × (n' ≡ record n1 { hotstuff_events = handed_over n1 blk proposer m })
Handles n (receive_net_event blk sender) n' =
    (m : MissingDependencies) × HandlesBlock n blk (receive_net_event blk sender) n' m

insert_and_settle-HandlesBlock :
    (n : Net) (blk : Ptr) (from : ℕ) (qc : QuorumCertificate) (e : NetEvent)
    → IsNet n
    → is_valid_replica n.config from ≡ true
    → IsInsertable n blk qc
    → (n' : Net) × (m : MissingDependencies) × (insert_and_settle n blk from e
        ≡ ok (n', not (has_missing m)))
      × HandlesBlock n blk e n' m
      × IsNet n'
unfolding insert_and_settle
insert_and_settle-HandlesBlock n blk from qc e i valid fits =
    let (g, t, m, r, done) =
      insert_block-IsInserted n.heap n.block_store blk qc i.store fits.new fits.has_qc fits.room in
    let (n', r', s) = settle-IsSettled (inserted n g t) blk m from e valid i.manager in
    (
      n',
      m,
      rw (r, r') refl,
      (qc, g, t, done, s),
      record { manager = s.manager; store = rw (s.kept.1, s.kept.2) done.stored },
    )

add_proposal_event :
    (n : Net) (blk : Ptr) (proposer : ℕ)
    → pass_on n (proposal_event blk proposer)
      ≡ ok (record n {
        hotstuff_events =
            if (n.heap blk).height == 0
            then n.hotstuff_events
            else n.hotstuff_events ++ proposal_event blk proposer ∷ [];
      })
unfolding pass_on add_valid_event validate_event
add_proposal_event n blk proposer = elim (Bool-cases ((n.heap blk).height == 0)) [
  | inl low ↦ rw low refl
  | inr high ↦ rw high refl
]

vote-Handles :
    (n : Net) (cert : PartialCertificate) (voter : ℕ)
    → IsNet n
    → is_valid_replica n.config voter ≡ true
    → (n' : Net) × (on_event n (vote_net_event cert voter) ≡ ok n')
      × Handles n (vote_net_event cert voter) n'
      × IsNet n'
unfolding on_event pass_on add_valid_event validate_event
vote-Handles n cert voter i valid = elim (Option-cases (get_block n.block_store cert.hash)) [
  | inr (b, e) ↦
      let named : (get_hash (n.heap b) == cert.hash) ≡ true =
        (==_iff _ _).1 (i.store.named cert.hash b e) in
      (
        record n { hotstuff_events = n.hotstuff_events ++ vote_event cert b voter ∷ [] },
        rw (on_event, e, named) refl,
        (refl, inl (b, e, refl, λ x. refl)),
        record { manager = i.manager; store = i.store },
      )
  | inl e ↦
      let (n', r, p) =
        fetch-IsFetched n voter valid cert.hash (vote_net_event cert voter ∷ []) i.manager in
      (
        n',
        rw (on_event, e) r,
        (p.quiet.events, inr (e, p.quiet.hotstuff_events, p.parks)),
        record {
          manager = rw p.quiet.config p.manager;
          store = rw (p.quiet.heap, p.quiet.store) i.store;
        },
      )
]

-- In a network queue whose fetch manager keeps waiting events apart by hashes and whose store
-- links its blocks, an event of a replica, with a block that may enter the store, is handled to
-- the end: a vote is passed on or waits for its block; a block is inserted and frees what waited
-- for it, or waits behind that for what is missing; a proposal is passed on once its block is
-- inserted, unless the block is at height 0. The queue has the same shape after it.
pub on_event-Handles :
    (n : Net) (e : NetEvent)
    → IsNet n
    → IsAdmissible n e
    → (n' : Net) × (on_event n e ≡ ok n') × Handles n e n' × IsNet n'
unfolding on_event
on_event-Handles n (vote_net_event cert voter) i fits = vote-Handles n cert voter i fits
on_event-Handles n (receive_net_event blk sender) i (valid, (qc, fits)) =
    let (n', m, r, done, j) =
      insert_and_settle-HandlesBlock n blk sender qc (receive_net_event blk sender) i valid fits in
    (n', rw r refl, (m, done), j)
on_event-Handles n (proposal_net_event blk proposer) i (valid, (qc, fits)) =
    let (n1, m, r, done, j) =
      insert_and_settle-HandlesBlock n blk proposer qc (proposal_net_event blk proposer) i valid
        fits in
    let passed = add_proposal_event n1 blk proposer in
    (
      record n1 { hotstuff_events = handed_over n1 blk proposer m },
      elim (Bool-cases (has_missing m)) [
        | inl lacking ↦ rw (r, lacking) refl
        | inr complete ↦ rw (r, complete) passed
      ],
      (n1, m, done, refl),
      record { manager = j.manager; store = j.store },
    )
