-- ===== src/Network/Parked.antt =====
-- What the fetch manager promises to the network queue: events that wait, by the hash of the block
-- that they wait for.
use hotstuff.Prelude.{
  ℕ, ◌<◌, ◌≡◌, ◌≢◌, refl, sym, ◌∙◌, ap, inl, inr, true, Option, none, some, List, [], ◌∷◌, ◌++◌,
  arith, ◌==◌, ==_iff, ==_refl, Bool-cases, Option-cases, if◌then◌else◌,
}
use hotstuff.Config.{ReplicaInfo, ReplicaConfig, find, list_info, is_valid_replica}
use hotstuff.Network.Events.{NetEvent}
use hotstuff.Network.Fetch.{
  RequestContext, new_context, Contexts, write_context, FetchManager, new_queues, new_manager,
  find_request,
}
use hotstuff.Network.Requests.{has_queue}

-- The abstract view: the events that wait for a hash, first come first.
abbrev pub events_of : Contexts → Option ℕ → List NetEvent
events_of cs none = []
events_of cs (some a) = (cs a).dependent_network_events

abbrev pub parked : FetchManager → ℕ → List NetEvent
parked m hash = events_of m.contexts (find_request m.outstanding_reqs hash)

-- The two operations on such a view.
abbrev pub park : (ℕ → List NetEvent) → ℕ → List NetEvent → ℕ → List NetEvent
park view hash events x = if x == hash then view x ++ events else view x

abbrev pub free : (ℕ → List NetEvent) → ℕ → ℕ → List NetEvent
free view hash x = if x == hash then [] else view x

-- No key stands twice.
abbrev pub IsOnce : List (ℕ × ℕ) → Type 0
IsOnce [] = Unit {0}
IsOnce ((key, a) ∷ reqs) = (find_request reqs key ≡ none) × IsOnce reqs

-- Every replica has its queue; each hash has one context, of its own, which asks for that hash;
-- and no context remembers whom it was requested from.
pub record IsManager (config : ReplicaConfig) (m : FetchManager) : Type 0 where
  pub served : (rid : ℕ) → is_valid_replica config rid ≡ true → has_queue m.queues rid ≡ true
  pub once : IsOnce m.outstanding_reqs
  pub bounded :
      (hash a : ℕ)
      → find_request m.outstanding_reqs hash ≡ some a
      → (a < m.next_context) × ((m.contexts a).request ≡ hash)
  pub unasked : (a : ℕ) → (m.contexts a).requested_from ≡ 0

new_queues-has_queue :
    (infos : List ReplicaInfo) (rid : ℕ)
    → find rid infos ≢ none
    → has_queue (new_queues infos) rid ≡ true
unfolding find new_queues
new_queues-has_queue [] rid e = absurd (e refl)
new_queues-has_queue (info ∷ infos) rid e = elim (Bool-cases (info.id == rid)) [
  | inl here ↦ rw here refl
  | inr other ↦ rw other (new_queues-has_queue infos rid (λ k. e (rw other k)))
]

is_valid_replica-find :
    (config : ReplicaConfig) (rid : ℕ)
    → is_valid_replica config rid ≡ true
    → find rid config.replica_map ≢ none
unfolding is_valid_replica
is_valid_replica-find config rid e k = cc (rw (k, is_valid_replica) at e)

pub new_manager-IsManager : (config : ReplicaConfig) → IsManager config (new_manager config)
unfolding new_manager list_info new_context find_request
new_manager-IsManager config = record {
  served =
      λ rid e. new_queues-has_queue config.replica_map rid (is_valid_replica-find config rid e);
  once = tt;
  bounded = λ hash a e. cc;
  unasked = λ a. refl;
}

pub write_context-at : (cs : Contexts) (a : ℕ) (c : RequestContext) → write_context cs a c a ≡ c
unfolding write_context
write_context-at cs a c = rw (==_refl a) refl

pub write_context-other :
    (cs : Contexts) (a : ℕ) (c : RequestContext) (b : ℕ) → a ≢ b → write_context cs a c b ≡ cs b
unfolding write_context
write_context-other cs a c b ne = ground arith

-- A context that is written keeps its hash and its memory.
pub record IsSameRequest (c d : RequestContext) : Type 0 where
  pub request : d.request ≡ c.request
  pub requested_from : d.requested_from ≡ c.requested_from

write_context-same :
    (cs : Contexts) (a : ℕ) (c : RequestContext)
    → IsSameRequest (cs a) c
    → (b : ℕ) → IsSameRequest (cs b) (write_context cs a c b)
unfolding write_context
write_context-same cs a c same b = elim (Bool-cases (a == b)) [
  | inl e ↦ let at : a ≡ b = (==_iff a b).0 e in rw (e, ← at) same
  | inr e ↦ rw e (record { request = refl; requested_from = refl })
]

pub write-IsManager :
    (config : ReplicaConfig) (m : FetchManager) (a : ℕ) (c : RequestContext)
    → IsSameRequest (m.contexts a) c
    → IsManager config m
    → IsManager config (record m { contexts = write_context m.contexts a c })
write-IsManager config m a c same i =
    let kept = write_context-same m.contexts a c same in
    record {
      served = i.served;
      once = i.once;
      bounded = λ hash b e. let (low, key) = i.bounded hash b e in (low, (kept b).request ∙ key);
      unasked = λ b. (kept b).requested_from ∙ i.unasked b;
    }

-- A context of one hash is not that of another.
apart :
    (config : ReplicaConfig) (m : FetchManager) (hash x a b : ℕ)
    → IsManager config m
    → find_request m.outstanding_reqs hash ≡ some a
    → find_request m.outstanding_reqs x ≡ some b
    → x ≢ hash
    → a ≢ b
apart config m hash x a b i ea eb ne at =
    ne (
      sym (i.bounded x b eb).1
      ∙ ap (λ c. (m.contexts c).request) (sym at)
      ∙ (i.bounded hash a ea).1)

-- Writing the context of one hash changes what is parked there only.
pub parked-write :
    (config : ReplicaConfig) (m : FetchManager) (hash a : ℕ) (c : RequestContext) (x : ℕ)
    → IsManager config m
    → find_request m.outstanding_reqs hash ≡ some a
    → events_of (write_context m.contexts a c) (find_request m.outstanding_reqs x)
      ≡ (if x == hash then c.dependent_network_events else parked m x)
parked-write config m hash a c x i e = elim (Bool-cases (x == hash)) [
  | inl same ↦
      let at : x ≡ hash = (==_iff x hash).0 same in
      rw (same, at, e)
        (ap (λ (d : RequestContext). d.dependent_network_events) (write_context-at m.contexts a c))
  | inr other ↦ elim (Option-cases (find_request m.outstanding_reqs x)) [
    | inl gone ↦ rw (other, gone) refl
    | inr (b, found) ↦
        let ne : a ≢ b = apart config m hash x a b i e found (ground arith) in
        rw (other, found)
          (ap (λ (d : RequestContext). d.dependent_network_events)
            (write_context-other m.contexts a c b ne))
  ]
]
