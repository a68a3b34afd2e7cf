-- ===== src/Examples/Protocol.antt =====
-- The protocol on the chain of `Toy`.
use hotstuff.Prelude.{
  ℕ, zero, suc, ◌+◌, ◌^◌, ◌≡◌, ◌≢◌, refl, ◌⊎◌, inl, true, false, none, some, [], ◌∷◌, ◌==◌, arith,
  Result, ok, throw,
}
use hotstuff.Wire.{PartialCertificate}
use hotstuff.Block.{Ptr, Block, Heap, write, genesis_block, write_to_disk}
use hotstuff.Block.Tree.{IsForest}
use hotstuff.Block.Disk.{IsWritten, write_to_disk-IsWritten}
use hotstuff.Consensus.Calls.{applied, votes, new_qcs}
use hotstuff.Consensus.Rule.{Decides, IsSafeToVote, opinion-Decides, opinion-vote_again}
use hotstuff.Consensus.Update.{Updates, update-Updates}
use hotstuff.Consensus.Run.{IsSound, voted, on_receive_proposal-cases}
use hotstuff.Consensus.Reach.{IsFresh, insert, Reach, here, next, inserts, proposes, run-IsSound}
use hotstuff.Consensus.Once.{IsShort, Rises, run-VotesRise}
use hotstuff.Certs.{add_partial_certificate}
use hotstuff.Consensus.Ballots.{Outcome}
use hotstuff.Consensus.Quorum.{Counts, on_receive_vote-cases}
use hotstuff.Consensus.Votes.{IsCompleting, new_qcs-on_receive_vote}
use hotstuff.Consensus.{Core, init, opinion, vote, update, on_receive_vote, on_receive_proposal}
use hotstuff.Examples.Toy.{toy, chained, chain_heap, one_replica, chain-IsForest, chained-IsStored}

abbrev state_of : Result Core → Core
state_of (ok s) = s
state_of (throw e) = chained

-- Three proposals lock block 1; the fourth commits it.
commits_first :
    applied (state_of (update (state_of (update (state_of (update chained 2)) 3)) 4)).calls ≡ 1 ∷ []
unfolding update write genesis_block applied
commits_first = refl

update-Updates_example : Updates chained 4 (update chained 4)
update-Updates_example = update-Updates chained 4 chain-IsForest chained-IsStored

write_to_disk-IsWritten_example :
    (g : _) × (disk : _) × (write_to_disk 4 chain_heap chained.disk 3 ≡ ok (g, disk))
    × IsWritten chain_heap 3 g disk
write_to_disk-IsWritten_example =
    write_to_disk-IsWritten 4 chain_heap chained.disk 3 chain-IsForest (omega arith)
      (λ x q w e. inl (chained-IsStored.closed x q w e)) chained-IsStored.durable

opinion-Decides_example : Decides (IsSafeToVote chained 2 1) (opinion chained 2)
opinion-Decides_example = opinion-Decides chained 2 1 chain-IsForest refl

-- A replica that has one new block, and the state after its proposal.
abbrev started : Core
started = init one_replica 1

abbrev grown : Core
grown = insert started 1 (chain_heap 1)

voted_once : Core
unfolding init genesis_block write on_receive_proposal
voted_once = state_of (on_receive_proposal grown 1 1)

far : (n : ℕ) → (1 == suc (suc n)) ≡ false
far n = ground arith

grown-IsForest : IsForest (write started.heap 1 (chain_heap 1))
unfolding init genesis_block write
grown-IsForest = record { linked = linked; rooted = rooted; certified = certified }
  where
    h : Ptr → Block
    h = write started.heap 1 (chain_heap 1)

    linked : (p q : Ptr) → (h p).parent ≡ some q → (h p).height ≡ suc (h q).height
    linked zero q e = cc
    linked (suc zero) q e = let at : 0 ≡ q = cc in rw (← at) refl
    linked (suc (suc n)) q e = cc (rw (far n) at e)

    rooted : (p : Ptr) → (h p).parent ≡ none → (h p).height ≡ 0
    rooted zero e = refl
    rooted (suc zero) e = cc
    rooted (suc (suc n)) e = rw (far n)

    certified : (p : Ptr) → (h p).justify ≢ none → (h p).parsed_qc ≢ none
    certified zero j e = j refl
    certified (suc zero) j e = cc
    certified (suc (suc n)) j e = j (rw (far n))

grown-IsFresh : IsFresh started 1 (chain_heap 1)
unfolding init genesis_block votes
grown-IsFresh = record {
  no_child = λ x e. cc;
  unlinked = refl;
  not_locked = λ e. omega arith;
  not_voted = refl;
  unwritten = refl;
  forest = grown-IsForest;
}

once-Reach : Reach started voted_once
unfolding voted_once
once-Reach = next (next here (inserts 1 (chain_heap 1) grown-IsFresh refl)) (proposes 1 1 refl)

voted_once-IsShort : IsShort voted_once.heap
unfolding voted_once
voted_once-IsShort zero = omega arith
voted_once-IsShort (suc zero) = omega arith
voted_once-IsShort (suc (suc n)) = rw (far n) (omega arith)

run-VotesRise_example : Rises voted_once.heap 0 (votes voted_once.calls) voted_once.vheight
run-VotesRise_example = run-VotesRise one_replica 1 voted_once once-Reach voted_once-IsShort

voted_for : votes voted_once.calls ≡ 1 ∷ []
unfolding voted_once votes
voted_for = refl

grown-IsSound : IsSound grown
grown-IsSound =
    run-IsSound one_replica 1 grown (next here (inserts 1 (chain_heap 1) grown-IsFresh refl))

on_receive_proposal-cases_example :
    (agrees : _) × (opinion grown 1 ≡ ok agrees)
    × Updates (voted grown 1 1 agrees) 1 (on_receive_proposal grown 1 1)
unfolding init genesis_block write
on_receive_proposal-cases_example = on_receive_proposal-cases grown 1 1 grown-IsSound (λ e. cc)

abbrev first_vote : PartialCertificate
first_vote = record { hash = 1; sig = 10 }

abbrev counted : Core
counted = state_of (on_receive_vote chained first_vote 1 1)

first_vote_counts : on_receive_vote chained first_vote 1 1 ≡ ok counted
unfolding on_receive_vote add_partial_certificate
first_vote_counts = refl

new_qcs-on_receive_vote_example :
    (IsCompleting chained 1 1 × (new_qcs counted.calls ≡ 1 ∷ []))
    ⊎ ((¬ IsCompleting chained 1 1) × (new_qcs counted.calls ≡ []))
unfolding new_qcs
new_qcs-on_receive_vote_example =
    new_qcs-on_receive_vote chained counted first_vote 1 1 tt first_vote_counts

on_receive_vote-cases_example : Outcome (Counts chained first_vote 1 1) chained first_vote 1 1
on_receive_vote-cases_example = on_receive_vote-cases chained first_vote 1 1

-- A block at a height that 32 bits do not hold.
abbrev high : ℕ
high = 2 ^ 32 + 5

abbrev tall_heap : Heap
tall_heap zero = genesis_block
tall_heap (suc n) = record (chain_heap (suc n)) { height = high }

abbrev tall : Core
tall = record chained { heap = tall_heap }

opinion-vote_again_example : opinion (vote tall 2 1) 2 ≡ ok true
unfolding opinion genesis_block
opinion-vote_again_example = opinion-vote_again tall 2 1 (omega arith) refl
