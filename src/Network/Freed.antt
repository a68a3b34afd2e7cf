-- ===== src/Network/Freed.antt =====
-- `deliver_block`: the arrival of a block frees what waits for it.
use hotstuff.Prelude.{
  ℕ, ◌≡◌, refl, sym, ◌∙◌, ap, inl, inr, false, none, some, List, [], ◌∷◌, arith, ◌==◌, ==_iff,
  Bool-cases, Option-cases, if◌then◌else◌,
}
use hotstuff.Config.{ReplicaConfig}
use hotstuff.Network.Events.{NetEvent}
use hotstuff.Network.Fetch.{
  mark_received, write_context, FetchManager, find_request, erase_request, deliver_block,
}
use hotstuff.Network.Parked.{parked, free, IsOnce, IsManager, write-IsManager, parked-write}

find-erase_other :
    (reqs : List (ℕ × ℕ)) (hash x : ℕ)
    → (x == hash) ≡ false
    → find_request (erase_request reqs hash) x ≡ find_request reqs x
unfolding find_request erase_request
find-erase_other [] hash x ne = refl
find-erase_other ((key, a) ∷ reqs) hash x ne = elim (Bool-cases (key == hash)) [
  | inl here ↦ let other : (key == x) ≡ false = ground arith in rw (here, other) refl
  | inr there ↦
      rw there (ap (λ o. if key == x then some a else o) (find-erase_other reqs hash x ne))
]

find-erase_self :
    (reqs : List (ℕ × ℕ)) (hash : ℕ)
    → IsOnce reqs
    → find_request (erase_request reqs hash) hash ≡ none
unfolding find_request erase_request
find-erase_self [] hash o = refl
find-erase_self ((key, a) ∷ reqs) hash o = elim (Bool-cases (key == hash)) [
  | inl here ↦ let at : key ≡ hash = (==_iff key hash).0 here in rw here (rw at at o.0)
  | inr there ↦ rw (there, there) (find-erase_self reqs hash o.1)
]

erase-IsOnce : (reqs : List (ℕ × ℕ)) (hash : ℕ) → IsOnce reqs → IsOnce (erase_request reqs hash)
unfolding erase_request
erase-IsOnce [] hash o = tt
erase-IsOnce ((key, a) ∷ reqs) hash o = elim (Bool-cases (key == hash)) [
  | inl here ↦ rw here o.1
  | inr there ↦ rw there (rw (find-erase_other reqs hash key there) o.0, erase-IsOnce reqs hash o.1)
]

-- What is left once the block of a hash has arrived.
pub record IsFreed (config : ReplicaConfig) (m : FetchManager) (hash : ℕ) (m' : FetchManager)
    (events : List NetEvent) : Type 0 where
  pub manager : IsManager config m'
  pub freed : events ≡ parked m hash
  pub frees : (x : ℕ) → parked m' x ≡ free (parked m) hash x

-- The manager once a request is answered.
abbrev answered : FetchManager → ℕ → ℕ → FetchManager
answered m hash a = record m {
  contexts = write_context m.contexts a (mark_received (m.contexts a));
  outstanding_reqs = erase_request m.outstanding_reqs hash;
}

answered-frees :
    (config : ReplicaConfig) (m : FetchManager) (hash a x : ℕ)
    → IsManager config m
    → find_request m.outstanding_reqs hash ≡ some a
    → parked (answered m hash a) x ≡ free (parked m) hash x
unfolding mark_received
answered-frees config m hash a x i e = elim (Bool-cases (x == hash)) [
  | inl same ↦
      let at : x ≡ hash = (==_iff x hash).0 same in
      rw (same, at, find-erase_self m.outstanding_reqs hash i.once) refl
  | inr other ↦
      let p = parked-write config m hash a (mark_received (m.contexts a)) x i e in
      rw (other, find-erase_other m.outstanding_reqs hash x other) (rw other at p)
]

answered-IsManager :
    (config : ReplicaConfig) (m : FetchManager) (hash a : ℕ)
    → IsManager config m
    → find_request m.outstanding_reqs hash ≡ some a
    → IsManager config (answered m hash a)
unfolding mark_received
answered-IsManager config m hash a i e =
    let w =
      write-IsManager config m a (mark_received (m.contexts a))
        (record { request = refl; requested_from = refl }) i in
    record {
      served = w.served;
      once = erase-IsOnce m.outstanding_reqs hash i.once;
      bounded = λ x b k. elim (Bool-cases (x == hash)) [
        | inr other ↦ w.bounded x b (sym (find-erase_other m.outstanding_reqs hash x other) ∙ k)
        | inl same ↦
            let at : x ≡ hash = (==_iff x hash).0 same in
            let none_left = find-erase_self m.outstanding_reqs hash i.once in
            cc (rw at at k, none_left)
      ];
      unasked = w.unasked;
    }

-- In a manager with a queue for each replica and a context of its own for each hash,
-- `deliver_block` frees what waits for its hash, in order, and the events of no other hash, and
-- the manager has the same shape after it.
pub deliver_block-IsFreed :
    (config : ReplicaConfig) (m : FetchManager) (hash : ℕ)
    → IsManager config m
    → IsFreed config m hash (deliver_block m hash).0 (deliver_block m hash).1
unfolding deliver_block
deliver_block-IsFreed config m hash i = elim (Option-cases (find_request m.outstanding_reqs hash)) [
  | inl e ↦ rw (deliver_block, e) (record { manager = i; freed = rw e refl; frees = λ x. idle e x })
  | inr (a, e) ↦
      rw (deliver_block, e)
        (record {
          manager = answered-IsManager config m hash a i e;
          freed = rw e refl;
          frees = λ x. answered-frees config m hash a x i e;
        })
]
  where
    idle :
        find_request m.outstanding_reqs hash ≡ none → (x : ℕ) → parked m x ≡ free (parked m) hash x
    idle e x = elim (Bool-cases (x == hash)) [
      | inr other ↦ rw other refl
      | inl same ↦ let at : x ≡ hash = (==_iff x hash).0 same in rw (same, at, e) refl
    ]
