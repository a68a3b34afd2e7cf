-- ===== src/Examples/Replicas.antt =====
-- A group of replicas on the chain of blocks: one signs three blocks, another commits the first.
use hotstuff.Prelude.{
  ℕ, zero, suc, ◌^◌, ◌≤◌, ◌<◌, ◌≡◌, ◌≢◌, refl, ◌∙◌, ◌⊎◌, inl, inr, Bool, true, false, none, some,
  List, [], ◌∷◌, ◌++◌, arith, has, ◌==◌, ==_iff, leb, leb→le, Result, ok, throw, Bool-cases,
}
use hotstuff.Config.{ReplicaInfo, find, finish_init}
use hotstuff.Config.Laws.{count}
use hotstuff.Block.{Ptr, Heap, write, genesis_block}
use hotstuff.Block.Tree.{IsForest, IsSameNode-refl, Extends, here}
use hotstuff.Consensus.Calls.{applied, votes}
use hotstuff.Consensus.Reach.{IsFresh, insert, insert-at, insert-other}
use hotstuff.Consensus.{Core, init, on_receive_proposal}
use hotstuff.Agreement.Quorums.{IsTolerant}
use hotstuff.Agreement.Tree.{IsTree}
use hotstuff.Agreement.Local.{OrGenesis, Known}
use hotstuff.Agreement.Moves.{IsAdmitted, hears_proposal, receives}
use hotstuff.Agreement.Group.{Group, put, IsCertified, GroupReach, start, moves}
use hotstuff.Agreement.Logs.{logs_agree}
use hotstuff.Examples.Toy.{toy, chain_heap, chain-IsForest, one_replica, chained}

-- The first `n` blocks of the chain.
abbrev part : ℕ → Heap
part zero = λ _. genesis_block
part (suc n) = write (part n) (suc n) (chain_heap (suc n))

part-low : (n p : ℕ) → p ≤ n → part n p ≡ chain_heap p
part-low zero p low = let at : 0 ≡ p = omega (arith, low) in rw (← at) refl
part-low (suc n) p low = elim (Bool-cases (suc n == p)) [
  | inl e ↦
      let at : suc n ≡ p = (==_iff (suc n) p).0 e in
      rw (← at) (insert-at (part n) (suc n) (chain_heap (suc n)))
  | inr e ↦
      let ne : suc n ≢ p = ground arith in
      insert-other (part n) (suc n) (chain_heap (suc n)) p ne
      ∙ part-low n p (omega (arith, ne, low))
]

part-high : (n p : ℕ) → n < p → part n p ≡ genesis_block
part-high zero p high = refl
part-high (suc n) p high =
    let ne : suc n ≢ p = λ e. absurd (omega (arith, e, high)) in
    insert-other (part n) (suc n) (chain_heap (suc n)) p ne ∙ part-high n p (omega (arith, high))

chain_parent : (p q : Ptr) → (chain_heap p).parent ≡ some q → q < p
unfolding genesis_block
chain_parent zero q e = cc
chain_parent (suc n) q e = let at : n ≡ q = cc in omega (arith, at)

part-IsForest : (n : ℕ) → IsForest (part n)
unfolding genesis_block
part-IsForest n = record { linked = linked; rooted = rooted; certified = certified }
  where
    linked : (p q : Ptr) → (part n p).parent ≡ some q → (part n p).height ≡ suc (part n q).height
    linked p q e = elim (Bool-cases (leb p n)) [
      | inl within ↦
          let low : p ≤ n = leb→le _ _ within in
          let k : (chain_heap p).parent ≡ some q = rw (part-low n p low) at e in
          rw (part-low n p low, part-low n q (omega (arith, low, chain_parent p q k)))
            (chain-IsForest.linked p q k)
      | inr out ↦ cc (rw (part-high n p (ground arith)) at e)
    ]

    rooted : (p : Ptr) → (part n p).parent ≡ none → (part n p).height ≡ 0
    rooted p e = elim (Bool-cases (leb p n)) [
      | inl within ↦
          let low : p ≤ n = leb→le _ _ within in
          rw (part-low n p low) (chain-IsForest.rooted p (rw (part-low n p low) at e))
      | inr out ↦ rw (part-high n p (ground arith)) refl
    ]

    certified : (p : Ptr) → (part n p).justify ≢ none → (part n p).parsed_qc ≢ none
    certified p j = elim (Bool-cases (leb p n)) [
      | inl within ↦
          let low : p ≤ n = leb→le _ _ within in
          rw (part-low n p low) (chain-IsForest.certified p (rw (part-low n p low) at j))
      | inr out ↦ absurd ((rw (part-high n p (ground arith)) at j) refl)
    ]

chain-IsTree : IsTree chain_heap
unfolding genesis_block
chain-IsTree = record {
  forest = chain-IsForest;
  genesis = IsSameNode-refl genesis_block;
  root = root;
  linear = linear;
}
  where
    root : (p : Ptr) → (chain_heap p).parent ≡ none → p ≡ 0
    root zero e = refl
    root (suc n) e = cc

    linear :
        (p j : Ptr)
        → (chain_heap p).justify ≡ some j
        → (q : Ptr) × ((chain_heap p).parent ≡ some q) × Extends chain_heap j q
    linear zero j e = cc
    linear (suc n) j e = let at : n ≡ j = cc in (n, refl, rw at here)

part-no_child : (n x : ℕ) → (part n x).parent ≢ some (suc n)
unfolding genesis_block
part-no_child n x e = elim (Bool-cases (leb x n)) [
  | inl within ↦
      let low : x ≤ n = leb→le _ _ within in
      let k : (chain_heap x).parent ≡ some (suc n) = rw (part-low n x low) at e in
      absurd (omega (arith, low, chain_parent x (suc n) k))
  | inr out ↦ cc (rw (part-high n x (ground arith)) at e)
]

-- The next block of the chain, for a replica that has the ones before it.
next-IsFresh :
    (s : Core) (n : ℕ)
    → s.heap ≡ part n
    → suc n ≢ s.b_lock
    → has (suc n) (votes s.calls) ≡ false
    → IsFresh s (suc n) (chain_heap (suc n))
unfolding genesis_block
next-IsFresh s n e lock unvoted = record {
  no_child = λ x. rw e (part-no_child n x);
  unlinked = rw (e, part-high n (suc n) (omega arith)) refl;
  not_locked = lock;
  not_voted = unvoted;
  unwritten = refl;
  forest = rw e (part-IsForest (suc n));
}

next-IsAdmitted :
    (cert : Ptr → Type 0) (s : Core) (n : ℕ)
    → s.heap ≡ part n
    → OrGenesis cert n
    → IsAdmitted chain_heap cert s (suc n) (chain_heap (suc n)) n
unfolding genesis_block
next-IsAdmitted cert s n e signed = record {
  same = IsSameNode-refl (chain_heap (suc n));
  justified = refl;
  known = rw e (known n);
  certified = signed;
  undecided = refl;
  new = rw (e, part-high n (suc n) (omega arith)) refl;
  not_genesis = λ k. absurd (omega (arith, k));
}
  where
    known : (n : ℕ) → Known (part n) n
    known zero = inl refl
    known (suc n) = inr (λ k. cc (rw (part-low (suc n) (suc n) (omega arith)) at k))

-- The only replica of the configuration is honest.
abbrev all_honest : ReplicaInfo → Bool
all_honest info = true

one-IsTolerant : IsTolerant one_replica all_honest
unfolding find count
one-IsTolerant = record {
  config = record { counted = refl; distinct = (refl, tt) };
  no_third = λ e. absurd (omega (arith, e));
  few_faults = omega arith;
}

-- What replica 1 has voted for is certified.
voted-IsCertified :
    (g : Group) (x : Ptr)
    → has x (votes (g 1).calls) ≡ true
    → IsCertified one_replica all_honest g x
unfolding count finish_init
voted-IsCertified g x e = (λ info. true, omega arith, (λ k l. e, tt))

abbrev idle : Group
idle r = init (finish_init one_replica) r

abbrev state_of : Result Core → Core
state_of (ok s) = s
state_of (throw e) = chained

receive :
    {g : Group} (r n : ℕ)
    → GroupReach one_replica all_honest chain_heap g
    → (g r).heap ≡ part n
    → suc n ≢ (g r).b_lock
    → has (suc n) (votes (g r).calls) ≡ false
    → OrGenesis (IsCertified one_replica all_honest g) n
    → GroupReach one_replica all_honest chain_heap
        (put g r (insert (g r) (suc n) (chain_heap (suc n))))
receive {g} r n run e lock unvoted signed = moves r run (
    receives (suc n) (chain_heap (suc n)) n (next-IsFresh (g r) n e lock unvoted)
      (next-IsAdmitted (IsCertified one_replica all_honest g) (g r) n e signed) refl)

hear :
    {g : Group} (r p : ℕ) (t : Core)
    → GroupReach one_replica all_honest chain_heap g
    → ((g r).heap p).justify ≢ none
    → (chain_heap p).height < 2 ^ 32
    → on_receive_proposal (g r) p 1 ≡ ok t
    → GroupReach one_replica all_honest chain_heap (put g r t)
hear r p t run has_justify short e = moves r run (hears_proposal p 1 has_justify short e)

-- The group after replica `r` has received block `n + 1`, and after it has heard a proposal.
abbrev received : Group → (r n : ℕ) → Group
received g r n = put g r (insert (g r) (suc n) (chain_heap (suc n)))

abbrev heard : Group → (r p : ℕ) → Group
heard g r p = put g r (state_of (on_receive_proposal (g r) p 1))

-- Replica 1 receives three blocks and votes for each.
abbrev voted_one : Group
voted_one = heard (received idle 1 0) 1 1

abbrev voted_two : Group
voted_two = heard (received voted_one 1 1) 1 2

abbrev voted_three : Group
voted_three = heard (received voted_two 1 2) 1 3

-- Replica 2 receives four blocks, and commits the first with the proposal of the fourth.
abbrev with_one : Group
with_one = received voted_three 2 0

abbrev with_two : Group
with_two = received with_one 2 1

abbrev with_three : Group
with_three = received with_two 2 2

abbrev supplied : Group
supplied = received with_three 2 3

abbrev settled : Group
settled = heard (heard supplied 2 3) 2 4

voted_one-Reach : GroupReach one_replica all_honest chain_heap voted_one
unfolding init genesis_block votes finish_init on_receive_proposal write
voted_one-Reach =
    hear 1 1 _ (receive 1 0 start refl (λ e. absurd (omega (arith, e))) refl (inl refl)) (λ e. cc)
      (omega arith) refl

voted_two-Reach : GroupReach one_replica all_honest chain_heap voted_two
unfolding init genesis_block votes finish_init on_receive_proposal write
voted_two-Reach =
    hear 1 2 _
      (receive 1 1 voted_one-Reach refl (λ e. absurd (omega (arith, e))) refl
        (inr (voted-IsCertified voted_one 1 refl)))
      (λ e. cc) (omega arith) refl

voted_three-Reach : GroupReach one_replica all_honest chain_heap voted_three
unfolding init genesis_block votes finish_init on_receive_proposal write
voted_three-Reach =
    hear 1 3 _
      (receive 1 2 voted_two-Reach refl (λ e. absurd (omega (arith, e))) refl
        (inr (voted-IsCertified voted_two 2 refl)))
      (λ e. cc) (omega arith) refl

supplied-Reach : GroupReach one_replica all_honest chain_heap supplied
unfolding init genesis_block votes finish_init on_receive_proposal write
supplied-Reach =
    let lower : (n : ℕ) → suc n ≢ 0 = λ n e. absurd (omega (arith, e)) in
    let r1 = receive 2 0 voted_three-Reach refl (lower 0) refl (inl refl) in
    let r2 = receive 2 1 r1 refl (lower 1) refl (inr (voted-IsCertified with_one 1 refl)) in
    let r3 = receive 2 2 r2 refl (lower 2) refl (inr (voted-IsCertified with_two 2 refl)) in
    receive 2 3 r3 refl (lower 3) refl (inr (voted-IsCertified with_three 3 refl))

settled-Reach : GroupReach one_replica all_honest chain_heap settled
unfolding init genesis_block votes finish_init on_receive_proposal write
settled-Reach =
    hear 2 4 _ (hear 2 3 _ supplied-Reach (λ e. cc) (omega arith) refl) (λ e. cc) (omega arith) refl

settled_logs : ((applied (settled 1).calls) ≡ []) × (applied (settled 2).calls ≡ 1 ∷ [])
unfolding init genesis_block applied finish_init on_receive_proposal write
settled_logs = (refl, refl)

logs_agree_example :
    ((more : List Ptr) × (applied (settled 2).calls ≡ applied (settled 1).calls ++ more))
    ⊎ ((more : List Ptr) × (applied (settled 1).calls ≡ applied (settled 2).calls ++ more))
logs_agree_example =
    logs_agree one_replica all_honest chain_heap settled one-IsTolerant chain-IsTree settled-Reach 1
      2
