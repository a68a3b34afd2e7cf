-- ===== src/Network/Retries.antt =====
-- Requests and messages whose remote call fails are tried again.
use hotstuff.Prelude.{
  ℕ, ◌+◌, ◌≤◌, ◌≡◌, refl, ◌∙◌, ap, inl, inr, Bool, true, false, List, [], ◌∷◌, ◌++◌, arith, ltb,
  ◌==◌, ==_iff, ◌||◌, Bool-cases, if◌then◌else◌, has, length, none, ok,
}
use hotstuff.Network.Fetch.{FetchQueue, insert_req}
use hotstuff.Foreign.{Foreign}
use hotstuff.Block.{Ptr}
use hotstuff.Network.Queue.{Net}
use hotstuff.Network.Worker.{extract_reqs, insert_reqs, readd_request, run_fetch}
use hotstuff.Network.Outbound.{Message, do_work}

has-insert_req_or :
    (x hash : ℕ) (reqs : List ℕ) → has x (insert_req hash reqs) ≡ (hash == x) || has x reqs
unfolding insert_req
has-insert_req_or x hash [] = refl
has-insert_req_or x hash (y ∷ ys) = elim (Bool-cases (ltb hash y)) [
  | inl less ↦ rw less refl
  | inr more ↦ elim (Bool-cases (y == hash)) [
    | inl same ↦
        let at : y ≡ hash = (==_iff y hash).0 same in
        rw (more, same, at) (or_self (hash == x) (has x ys))
    | inr other ↦
        rw (more, other)
          (ap (λ b. (y == x) || b) (has-insert_req_or x hash ys)
            ∙ or_swap (y == x) (hash == x) (has x ys))
  ]
]
  where
    or_self : (a b : Bool) → a || b ≡ a || (a || b)
    or_self true b = refl
    or_self false b = refl

    or_swap : (a b c : Bool) → a || (b || c) ≡ b || (a || c)
    or_swap true true c = refl
    or_swap true false c = refl
    or_swap false b c = refl

has-insert_reqs :
    (x : ℕ) (hashes reqs : List ℕ) → has x (insert_reqs hashes reqs) ≡ has x hashes || has x reqs
unfolding insert_reqs
has-insert_reqs x [] reqs = refl
has-insert_reqs x (hash ∷ hashes) reqs =
    has-insert_reqs x hashes (insert_req hash reqs)
    ∙ ap (λ b. has x hashes || b) (has-insert_req_or x hash reqs)
    ∙ or_shift (has x hashes) (hash == x) (has x reqs)
  where
    or_shift : (a b c : Bool) → a || (b || c) ≡ (b || a) || c
    or_shift true true c = refl
    or_shift true false c = refl
    or_shift false true c = refl
    or_shift false false c = refl

or_false : (b : Bool) → b || false ≡ b
or_false true = refl
or_false false = refl

module _ ⦃f : Foreign⦄ where
  -- A round of the worker whose call fails returns with the events, the heap and the outstanding
  -- requests unchanged, and the queue holds just the hashes that it held before; and where hashes
  -- have been added to the queue while the call was made, it holds just the ones and the others
  -- once the taken ones are put back.
  pub run_fetch-readds :
      (q : FetchQueue) (n : Net) (p : Ptr) (from : ℕ)
      → ((q' : FetchQueue) × (run_fetch q n p from none ≡ ok (q', n))
          × (q'.outstanding_reqs ≡ q.outstanding_reqs)
          × ((x : ℕ) → has x q'.worker_reqs ≡ has x q.worker_reqs))
        × ((meanwhile : FetchQueue) (x : ℕ)
            → has x (readd_request meanwhile (extract_reqs q).1).worker_reqs
              ≡ has x q.worker_reqs || has x meanwhile.worker_reqs)
  unfolding run_fetch extract_reqs readd_request
  run_fetch-readds q n p from = (
    (_, refl, refl, λ x. has-insert_reqs x q.worker_reqs [] ∙ or_false (has x q.worker_reqs)),
    λ meanwhile x. has-insert_reqs x q.worker_reqs meanwhile.worker_reqs,
  )

abbrev pub successes : List Bool → ℕ
successes [] = 0
successes (b ∷ bs) = (if b then 1 else 0) + successes bs

-- A client sends its messages in order, each once: what it has sent when its tries end is followed
-- by what is left, and if as many tries succeed as there are messages, nothing is left.
pub do_work-sends :
    (outcomes : List Bool) (todo : List Message)
    → ((do_work outcomes todo).0 ++ (do_work outcomes todo).1 ≡ todo)
      × (length todo ≤ successes outcomes → (do_work outcomes todo).1 ≡ [])
unfolding do_work
do_work-sends [] [] = (refl, λ e. refl)
do_work-sends (b ∷ bs) [] = (refl, λ e. refl)
do_work-sends [] (msg ∷ todo) = (refl, λ e. absurd (omega arith))
do_work-sends (true ∷ outcomes) (msg ∷ todo) =
    let (order, all) = do_work-sends outcomes todo in
    (ap (λ l. msg ∷ l) order, λ e. all (omega (arith, e)))
do_work-sends (false ∷ outcomes) (msg ∷ todo) =
    let (order, all) = do_work-sends outcomes (msg ∷ todo) in (order, λ e. all (omega (arith, e)))
