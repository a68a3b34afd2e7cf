-- ===== src/Network/Asked.antt =====
-- `add_fetch_request`: the events of a request wait for its hash.
use native.Mathlib.Nat.{zero-div}
use mathlib.Core.Path.{subst}
use hotstuff.Prelude.{
  ◌^◌, if_cases, ℕ, ◌+◌, ◌<◌, ◌≡◌, refl, ◌∙◌, ap, inl, inr, true, false, none, some, List, ◌∷◌,
  ◌++◌, arith, ◌==◌, ==_iff, ==_refl, Bool-cases, Option-cases, ok,
}
use hotstuff.Config.{ReplicaConfig, is_valid_replica}
use hotstuff.Network.Events.{NetEvent}
use hotstuff.Network.Fetch.{
  RequestContext, new_context, was_requested_from, add_network_events, write_context, FetchManager,
  find_request, context_of, request_context, add_fetch_request,
}
use hotstuff.Network.Requests.{asks, add_request_at-asks}
use hotstuff.Network.Parked.{
  events_of, parked, park, IsManager, write_context-at, write_context-other, write-IsManager,
  parked-write,
}

-- The context that `add_fetch_request` works on.
record IsContext (config : ReplicaConfig) (m : FetchManager) (hash : ℕ) (m' : FetchManager) (a : ℕ)
    : Type 0 where
  manager : IsManager config m'
  found : find_request m'.outstanding_reqs hash ≡ some a
  kept : (x : ℕ) → parked m' x ≡ parked m x

-- The manager with a new context for a hash.
abbrev fresh : FetchManager → ℕ → FetchManager
fresh m hash = record m {
  outstanding_reqs = (hash, m.next_context) ∷ m.outstanding_reqs;
  contexts = write_context m.contexts m.next_context (new_context hash);
  next_context = m.next_context + 1;
}

fresh-bounded :
    (config : ReplicaConfig) (m : FetchManager) (hash x a : ℕ)
    → IsManager config m
    → find_request (fresh m hash).outstanding_reqs x ≡ some a
    → (a < m.next_context + 1) × (((fresh m hash).contexts a).request ≡ x)
unfolding find_request new_context
fresh-bounded config m hash x a i e = elim (Bool-cases (hash == x)) [
  | inl same ↦
      let at : m.next_context ≡ a = cc (rw same at e) in
      (
        omega (arith, at),
        subst (λ b. ((fresh m hash).contexts b).request ≡ x) at
            (ap (λ (d : RequestContext). d.request)
                (write_context-at m.contexts m.next_context (new_context hash))
              ∙ (==_iff hash x).0 same),
      )
  | inr other ↦
      let (low, key) = i.bounded x a (rw other at e) in
      (
        omega (arith, low),
        rw (write_context-other m.contexts m.next_context (new_context hash) a (omega (arith, low)))
            key,
      )
]

fresh-parked :
    (config : ReplicaConfig) (m : FetchManager) (hash x : ℕ)
    → IsManager config m
    → find_request m.outstanding_reqs hash ≡ none
    → parked (fresh m hash) x ≡ parked m x
unfolding find_request new_context
fresh-parked config m hash x i e = elim (Bool-cases (hash == x)) [
  | inl same ↦
      let at : hash ≡ x = (==_iff hash x).0 same in
      rw (same, ← at, e)
        (ap (λ (d : RequestContext). d.dependent_network_events)
          (write_context-at m.contexts m.next_context (new_context hash)))
  | inr other ↦ elim (Option-cases (find_request m.outstanding_reqs x)) [
    | inl gone ↦ rw (other, gone) refl
    | inr (b, found) ↦
        let (low, key) = i.bounded x b found in
        rw (other, found)
          (ap (λ (d : RequestContext). d.dependent_network_events)
            (write_context-other m.contexts m.next_context (new_context hash) b
              (omega (arith, low))))
  ]
]

fresh-IsContext :
    (config : ReplicaConfig) (m : FetchManager) (hash : ℕ)
    → IsManager config m
    → find_request m.outstanding_reqs hash ≡ none
    → IsContext config m hash (fresh m hash) m.next_context
unfolding find_request write_context new_context
fresh-IsContext config m hash i e = record {
  manager = record {
    served = i.served;
    once = (e, i.once);
    bounded = λ x a k. fresh-bounded config m hash x a i k;
    unasked = λ a.
        if_cases (λ (c : RequestContext). c.requested_from ≡ 0) (m.next_context == a) (λ k. refl)
          (λ k. i.unasked a);
  };
  found = rw (==_refl hash) refl;
  kept = λ x. fresh-parked config m hash x i e;
}

context_of-IsContext :
    (config : ReplicaConfig) (m : FetchManager) (hash : ℕ)
    → IsManager config m
    → (m' : FetchManager) × (a : ℕ) × (context_of m hash ≡ (m', a)) × IsContext config m hash m' a
unfolding context_of
context_of-IsContext config m hash i = elim (Option-cases (find_request m.outstanding_reqs hash)) [
  | inr (a, e) ↦
      (m, a, rw (e, context_of) refl, record { manager = i; found = e; kept = λ x. refl })
  | inl e ↦
      (fresh m hash, m.next_context, rw (e, context_of) refl, fresh-IsContext config m hash i e)
]

-- What the manager has once `events` wait for `hash`, which `target` is asked for.
pub record IsParked (config : ReplicaConfig) (m : FetchManager) (hash target : ℕ)
    (events : List NetEvent) (m' : FetchManager) : Type 0 where
  pub manager : IsManager config m'
  pub parks : (x : ℕ) → parked m' x ≡ park (parked m) hash events x
  pub asked : asks m'.queues target hash ≡ true

never_asked :
    (c : RequestContext) (rid : ℕ) → c.requested_from ≡ 0 → was_requested_from c rid ≡ false
unfolding was_requested_from
never_asked c rid e = rw (e, zero-div (2 ^ rid)) refl

request_context-IsParked :
    (config : ReplicaConfig) (m0 m : FetchManager) (hash target a : ℕ) (events : List NetEvent)
    → IsContext config m0 hash m a
    → is_valid_replica config target ≡ true
    → (m' : FetchManager) × (request_context m a target events ≡ ok m')
      × IsParked config m0 hash target events m'
unfolding request_context add_network_events
request_context-IsParked config m0 m hash target a events c valid =
    let again = never_asked (m.contexts a) target (c.manager.unasked a) in
    let (queues, r, asked, kept) =
      add_request_at-asks m.contexts m.queues target a (c.manager.served target valid) in
    let added = write_context m.contexts a (add_network_events (m.contexts a) events) in
    let w =
      write-IsManager config m a (add_network_events (m.contexts a) events)
        (record { request = refl; requested_from = refl }) c.manager in
    (
      record m { queues = queues; contexts = added },
      rw (again, r) refl,
      record {
        manager = record {
          served = λ rid v. kept rid ∙ w.served rid v;
          once = w.once;
          bounded = w.bounded;
          unasked = w.unasked;
        };
        parks = λ x. parks x;
        asked = subst (λ h. asks queues target h ≡ true) (c.manager.bounded hash a c.found).1 asked;
      },
    )
  where
    parks :
        (x : ℕ)
        → events_of
            (write_context m.contexts a (add_network_events (m.contexts a) events))
            (find_request m.outstanding_reqs x)
          ≡ park (parked m0) hash events x
    parks x =
        let p =
          parked-write config m hash a (add_network_events (m.contexts a) events) x c.manager
            c.found in
        elim (Bool-cases (x == hash)) [
          | inr other ↦ rw other ((rw other at p) ∙ c.kept x)
          | inl same ↦
              let at : x ≡ hash = (==_iff x hash).0 same in
              let found : find_request m.outstanding_reqs x ≡ some a = rw at c.found in
              let old : (m.contexts a).dependent_network_events ≡ parked m0 x =
                subst (λ o. events_of m.contexts o ≡ parked m0 x) found (c.kept x) in
              rw same ((rw same at p) ∙ ap (λ l. l ++ events) old)
        ]

-- In a manager with a queue for each replica and a context of its own for each hash,
-- `add_fetch_request` at a replica returns. The events then wait for the hash behind those that
-- waited for it before, nothing changes for any other hash, the replica's worker has to ask for
-- the hash, and the manager has the same shape.
pub add_fetch_request-IsParked :
    (config : ReplicaConfig) (m : FetchManager) (hash target : ℕ) (events : List NetEvent)
    → IsManager config m
    → is_valid_replica config target ≡ true
    → (m' : FetchManager) × (add_fetch_request config m hash target events ≡ ok m')
      × IsParked config m hash target events m'
unfolding add_fetch_request
add_fetch_request-IsParked config m hash target events i valid =
    let (m1, a, r, c) = context_of-IsContext config m hash i in
    let (m', done, p) = request_context-IsParked config m m1 hash target a events c valid in
    (m', rw (valid, r) done, p)
