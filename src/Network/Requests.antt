-- ===== src/Network/Requests.antt =====
-- The queue of requests to one replica: its clean-up ends, and what is asked for is asked for.
use hotstuff.Prelude.{
  ℕ, zero, suc, ◌<◌, ◌≡◌, refl, ap, inl, inr, Bool, true, false, List, [], ◌∷◌, ◌++◌, arith, ltb,
  ◌==◌, ==_refl, ◌||◌, Bool-cases, if◌then◌else◌, has, length, ok,
}
use hotstuff.Storage.Collector.{refill}
use hotstuff.Storage.Collected.{length-refill}
use hotstuff.Network.Fetch.{
  Contexts, FetchQueue, insert_req, do_gc, add_request, gc_freq, add_request_at,
}

-- The clean-up ends within as many rounds as there are requests.
do_gc-returns :
    (fuel : ℕ) (cs : Contexts) (reqs : List ℕ)
    → length reqs < fuel
    → (left : List ℕ) × (do_gc fuel cs reqs ≡ ok left)
unfolding do_gc
do_gc-returns zero cs reqs enough = absurd (omega arith)
do_gc-returns (suc fuel) cs [] enough = ([], refl)
do_gc-returns (suc fuel) cs (req ∷ reqs) enough = elim (Bool-cases (cs req).block_is_received) [
  | inl received ↦
      let (left, r) =
        do_gc-returns fuel cs (refill reqs) (omega (arith, length-refill reqs, enough)) in
      (left, rw (received, r) refl)
  | inr pending ↦
      let (left, r) = do_gc-returns fuel cs reqs (omega (arith, enough)) in
      (req ∷ left, rw (pending, r) refl)
]

pub has-insert_req : (hash : ℕ) (reqs : List ℕ) → has hash (insert_req hash reqs) ≡ true
unfolding insert_req
has-insert_req hash [] = rw (==_refl hash) refl
has-insert_req hash (x ∷ xs) = elim (Bool-cases (ltb hash x)) [
  | inl less ↦ rw (less, ==_refl hash) refl
  | inr more ↦ elim (Bool-cases (x == hash)) [
    | inl same ↦ rw (more, same, same) refl
    | inr other ↦ rw (more, other, other) (has-insert_req hash xs)
  ]
]

-- A request to one replica returns, and its worker then has to ask for the hash.
pub add_request-asks :
    (cs : Contexts) (q : FetchQueue) (req : ℕ)
    → (q' : FetchQueue) × (add_request cs q req ≡ ok q')
      × (has (cs req).request q'.worker_reqs ≡ true)
unfolding add_request
add_request-asks cs q req =
    let pushed = q.outstanding_reqs ++ req ∷ [] in
    let worker_reqs = insert_req (cs req).request q.worker_reqs in
    let asked = has-insert_req (cs req).request q.worker_reqs in
    elim (Bool-cases (ltb gc_freq (length pushed))) [
      | inr few ↦
          (record { outstanding_reqs = pushed; worker_reqs = worker_reqs }, rw few refl, asked)
      | inl many ↦
          let (left, r) = do_gc-returns (suc (length pushed)) cs pushed (omega arith) in
          (record { outstanding_reqs = left; worker_reqs = worker_reqs }, rw (many, r) refl, asked)
    ]

-- Whether the worker of a replica has to ask for a hash.
abbrev pub asks : List (ℕ × FetchQueue) → ℕ → ℕ → Bool
asks [] target hash = false
asks ((rid, q) ∷ queues) target hash =
    if rid == target then has hash q.worker_reqs else asks queues target hash

-- Whether a replica has a queue.
abbrev pub has_queue : List (ℕ × FetchQueue) → ℕ → Bool
has_queue [] target = false
has_queue ((rid, q) ∷ queues) target = (rid == target) || has_queue queues target

pub add_request_at-asks :
    (cs : Contexts) (queues : List (ℕ × FetchQueue)) (target req : ℕ)
    → has_queue queues target ≡ true
    → (queues' : List (ℕ × FetchQueue)) × (add_request_at cs queues target req ≡ ok queues')
      × (asks queues' target (cs req).request ≡ true)
      × ((rid : ℕ) → has_queue queues' rid ≡ has_queue queues rid)
unfolding add_request_at
add_request_at-asks cs [] target req e = cc
add_request_at-asks cs ((rid, q) ∷ queues) target req e = elim (Bool-cases (rid == target)) [
  | inl here ↦
      let (q', r, asked) = add_request-asks cs q req in
      ((rid, q') ∷ queues, rw (here, r) refl, rw here asked, λ x. refl)
  | inr other ↦
      let (rest, r, asked, kept) = add_request_at-asks cs queues target req (rw other at e) in
      ((rid, q) ∷ rest, rw (other, r) refl, rw other asked, λ x. ap (λ b. (rid == x) || b) (kept x))
]
