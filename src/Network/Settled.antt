-- ===== src/Network/Settled.antt =====
-- What becomes of the event of a block, and of the events that the block frees.
use mathlib.Core.Path.{subst}
use mathlib.Core.List.{append-nil}
use hotstuff.Prelude.{
  ℕ, ◌≡◌, refl, ◌∙◌, ap, ◌⊎◌, inl, inr, true, false, Option, none, some, List, [], ◌∷◌, ◌++◌, ◌==◌,
  Bool-cases, Option-cases, ok,
}
use hotstuff.Config.{is_valid_replica}
use hotstuff.Block.{Ptr, get_hash}
use hotstuff.Storage.Store.{MissingDependencies, has_missing, is_some}
use hotstuff.Network.Events.{NetEvent}
use hotstuff.Network.Fetch.{deliver_block}
use hotstuff.Network.Parked.{parked, park, free, IsManager}
use hotstuff.Network.Asked.{add_fetch_request-IsParked}
use hotstuff.Network.Freed.{deliver_block-IsFreed}
use hotstuff.Network.Queue.{Net, deliver, fetch, fetch_justify, fetch_missing, settle}

-- The events that wait in the network for a hash.
abbrev pub waiting : Net → ℕ → List NetEvent
waiting n = parked n.block_fetch_manager

-- The parts of a network queue that a request leaves as they are.
pub record IsQuiet (n n' : Net) : Type 0 where
  pub config : n'.config ≡ n.config
  pub heap : n'.heap ≡ n.heap
  pub store : n'.block_store ≡ n.block_store
  pub events : n'.events ≡ n.events
  pub hotstuff_events : n'.hotstuff_events ≡ n.hotstuff_events

-- A request: the events wait for the hash.
pub record IsFetched (n n' : Net) (hash : ℕ) (events : List NetEvent) : Type 0 where
  pub quiet : IsQuiet n n'
  pub manager : IsManager n.config n'.block_fetch_manager
  pub parks : (x : ℕ) → waiting n' x ≡ park (waiting n) hash events x

module _ (n : Net) (from : ℕ) (valid : is_valid_replica n.config from ≡ true) where
  pub fetch-IsFetched :
      (hash : ℕ) (events : List NetEvent)
      → IsManager n.config n.block_fetch_manager
      → (n' : Net) × (fetch n hash from events ≡ ok n') × IsFetched n n' hash events
  unfolding fetch
  fetch-IsFetched hash events i =
      let (m, r, p) =
        add_fetch_request-IsParked n.config n.block_fetch_manager hash from events i valid in
      (
        record n { block_fetch_manager = m },
        rw r refl,
        record {
          quiet = record {
            config = refl;
            heap = refl;
            store = refl;
            events = refl;
            hotstuff_events = refl;
          };
          manager = p.manager;
          parks = p.parks;
        },
      )

-- The hash that events wait for when blocks are missing: the parent's first.
abbrev pub first_missing : MissingDependencies → Option ℕ
first_missing m = elim m.parent_hash [ some hash ↦ some hash | none ↦ m.justify_hash ]

park-nil : (view : ℕ → List NetEvent) (hash x : ℕ) → park view hash [] x ≡ view x
park-nil view hash x = elim (Bool-cases (x == hash)) [
  | inl same ↦ rw same (append-nil (view x))
  | inr other ↦ rw other refl
]

-- After the events wait for one hash, a request without events for another changes no view.
IsFetched-then :
    {n n1 n2 : Net} {hash other : ℕ} {events : List NetEvent}
    → IsFetched n n1 hash events
    → IsFetched n1 n2 other []
    → IsFetched n n2 hash events
IsFetched-then {n} {n1} {n2} {hash} {other} {events} a b = record {
  quiet = record {
    config = b.quiet.config ∙ a.quiet.config;
    heap = b.quiet.heap ∙ a.quiet.heap;
    store = b.quiet.store ∙ a.quiet.store;
    events = b.quiet.events ∙ a.quiet.events;
    hotstuff_events = b.quiet.hotstuff_events ∙ a.quiet.hotstuff_events;
  };
  manager = subst (λ c. IsManager c n2.block_fetch_manager) a.quiet.config b.manager;
  parks = λ x. b.parks x ∙ park-nil (waiting n1) other x ∙ a.parks x;
}

module _ (n : Net) (from : ℕ) (valid : is_valid_replica n.config from ≡ true)
    (i : IsManager n.config n.block_fetch_manager) where
  fetch_missing-IsFetched :
      (m : MissingDependencies) (key : ℕ) (events : List NetEvent)
      → first_missing m ≡ some key
      → (n' : Net) × (fetch_missing n m from events ≡ ok n') × IsFetched n n' key events
  unfolding fetch_missing fetch_justify
  fetch_missing-IsFetched m key events first = elim (Option-cases m.parent_hash) [
    | inl no_parent ↦
        let only : m.justify_hash ≡ some key = rw no_parent at first in
        let (n', r, p) = fetch-IsFetched n from valid key events i in
        (n', rw (no_parent, only) r, p)
    | inr (hash, has_parent) ↦
        let at : hash ≡ key = cc (rw has_parent at first) in
        let (n1, r, p) = fetch-IsFetched n from valid key events i in
        let v1 : is_valid_replica n1.config from ≡ true = rw p.quiet.config valid in
        let i1 : IsManager n1.config n1.block_fetch_manager = rw p.quiet.config p.manager in
        elim (Option-cases m.justify_hash) [
          | inl no_justify ↦ (n1, rw (has_parent, at, r, no_justify) refl, p)
          | inr (j, has_justify) ↦
              let (n2, r2, p2) = fetch-IsFetched n1 from v1 j [] i1 in
              (n2, rw (has_parent, at, r, has_justify) r2, IsFetched-then p p2)
        ]
  ]

-- What becomes of the event of a block and of those that waited for the block, by what is missing.
pub record IsSettled (n n' : Net) (blk : Ptr) (e : NetEvent) (m : MissingDependencies)
    : Type 0 where
  pub manager : IsManager n'.config n'.block_fetch_manager
  pub ready :
      has_missing m ≡ false
      → (n'.events ≡ n.events ++ waiting n (get_hash (n.heap blk)))
        × ((x : ℕ) → waiting n' x ≡ free (waiting n) (get_hash (n.heap blk)) x)
  pub waits :
      (key : ℕ)
      → first_missing m ≡ some key
      → (n'.events ≡ n.events)
        × ((x : ℕ)
            → waiting n' x
              ≡ park
                  (free (waiting n) (get_hash (n.heap blk)))
                  key
                  (waiting n (get_hash (n.heap blk)) ++ e ∷ [])
                  x)
  pub kept :
      (n'.config ≡ n.config)
      × (n'.heap ≡ n.heap)
      × (n'.block_store ≡ n.block_store)
      × (n'.hotstuff_events ≡ n.hotstuff_events)

first_missing-cases :
    (m : MissingDependencies)
    → ((has_missing m ≡ false) × (first_missing m ≡ none))
      ⊎ ((has_missing m ≡ true) × ((key : ℕ) × (first_missing m ≡ some key)))
unfolding has_missing is_some
first_missing-cases m = elim (Option-cases m.parent_hash) [
  | inr (hash, e) ↦ inr (rw e refl, (hash, rw e refl))
  | inl e ↦ elim (Option-cases m.justify_hash) [
    | inl k ↦ inl (rw (e, k) refl, rw (e, k) refl)
    | inr (j, k) ↦ inr (rw (e, k) refl, (j, rw (e, k) refl))
  ]
]

park-view :
    (v w : ℕ → List NetEvent) (key x : ℕ) (events : List NetEvent)
    → ((y : ℕ) → v y ≡ w y)
    → park v key events x ≡ park w key events x
park-view v w key x events same = elim (Bool-cases (x == key)) [
  | inl at ↦ rw at (ap (λ l. l ++ events) (same x))
  | inr apart ↦ rw apart (same x)
]

pub settle-IsSettled :
    (n : Net) (blk : Ptr) (m : MissingDependencies) (from : ℕ) (e : NetEvent)
    → is_valid_replica n.config from ≡ true
    → IsManager n.config n.block_fetch_manager
    → (n' : Net) × (settle n blk m from e ≡ ok n') × IsSettled n n' blk e m
unfolding settle deliver
settle-IsSettled n blk m from e valid i =
    let hash = get_hash (n.heap blk) in
    let d = deliver_block-IsFreed n.config n.block_fetch_manager hash i in
    let n1 : Net = record n {
      block_fetch_manager = (deliver_block n.block_fetch_manager hash).0;
    } in
    let freed = (deliver_block n.block_fetch_manager hash).1 in
    elim (first_missing-cases m) [
      | inl (complete, nothing) ↦ (
        record n1 { events = n.events ++ freed },
        rw complete refl,
        record {
          manager = d.manager;
          ready = λ c. (ap (λ l. n.events ++ l) d.freed, d.frees);
          waits = λ key k. cc;
          kept = (refl, refl, refl, refl);
        },
      )
      | inr (lacking, (key, first)) ↦
          let (n', r, p) =
            fetch_missing-IsFetched n1 from valid d.manager m key (freed ++ e ∷ []) first in
          (
            n',
            rw (lacking) r,
            record {
              manager = rw p.quiet.config p.manager;
              ready = λ c. cc;
              waits = λ k first'.
                  let at : key ≡ k = cc in
                  (
                    p.quiet.events,
                    λ x.
                        subst
                          (λ y.
                            waiting n' x
                            ≡ park (free (waiting n) hash) y (waiting n hash ++ e ∷ []) x)
                          at
                          (p.parks x
                            ∙ park-view _ _ key x _ d.frees
                            ∙ ap (λ l. park (free (waiting n) hash) key (l ++ e ∷ []) x) d.freed),
                  );
              kept = (p.quiet.config, p.quiet.heap, p.quiet.store, p.quiet.hotstuff_events);
            },
          )
    ]
