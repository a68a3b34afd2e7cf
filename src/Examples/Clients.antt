-- ===== src/Examples/Clients.antt =====
-- The clients at concrete inputs.
use hotstuff.Prelude.{
  ℕ, ◌≡◌, refl, ◌⊎◌, inl, inr, none, some, true, false, List, [], ◌∷◌, arith, ◌==◌, ==_iff,
  Bool-cases, ok, throw, null_pointer, All,
}
use hotstuff.Block.{genesis_block, get_hash}
use hotstuff.Certs.{deserialize, verify}
use hotstuff.Storage.Store.{Store, get_block, new_store}
use hotstuff.Network.Fetch.{FetchQueue}
use hotstuff.Network.Queue.{Net}
use hotstuff.Network.Worker.{extract_reqs, run_fetch, respond, fetch_blocks}
use hotstuff.Network.Answered.{IsNamed, IsGood, Arrive, run_fetch-Arrive}
use hotstuff.Examples.Toy.{toy, chain_heap}
use hotstuff.Examples.Parts.{stored, stored-cases}
use hotstuff.Examples.Traffic.{listening}
use hotstuff.Network.Outbound.{Message, vote_message}
use hotstuff.Network.Rpc.{
  RpcClient, Attempt, try_action_void, Pass, ProtocolClient, run_client, exists_work_to_do, do_work,
  deliver_all, wait_for_try_open_connection, connection_is_open, keep_trying, try_open_connection,
  open_connection, clear_connection,
}
use hotstuff.Network.Connected.{Opens, Stops, IsLive, try_action_void-cases}
use hotstuff.Network.Delivered.{messages, run_client-sends, run_client-keeps}

abbrev unconnected : RpcClient ℕ
unconnected = record { client = none; done_flag = false }

abbrev refused : Attempt ℕ
refused = record { connection = none; stops = false }

abbrev accepted : Attempt ℕ
accepted = record { connection = some 7; stops = false }

try_action_void-cases_example :
    ((c : ℕ) × Opens (refused ∷ accepted ∷ []) c
      × ((t : RpcClient ℕ) × (try_action_void unconnected (refused ∷ accepted ∷ []) (λ c. true)
            ≡ ok (t, true))
          × (t.client ≡ some c)))
    ⊎ (Stops (refused ∷ accepted ∷ [])
        × (try_action_void unconnected (refused ∷ accepted ∷ []) (λ c. true) ≡ throw null_pointer))
try_action_void-cases_example =
    try_action_void-cases unconnected (refused ∷ accepted ∷ []) (λ c. true) refl refl
      (inl (7, inr (refl, refl, inl refl)))

abbrev a_vote : Message
a_vote = vote_message (record { vote = record { hash = 5; sig = 6 }; voter = 1 })

abbrev waiting : ProtocolClient ℕ
waiting = record { rpc = unconnected; work = a_vote ∷ [] }

-- A call that fails on one connection and succeeds on the next.
abbrev two_passes : List (Pass ℕ)
two_passes =
    record { attempts = refused ∷ accepted ∷ []; success = false; stops = false }
    ∷ record { attempts = accepted ∷ []; success = true; stops = false }
    ∷ []

two_passes-IsLive : All IsLive two_passes
two_passes-IsLive = (((7, inr (refl, refl, inl refl)), refl), ((((7, inl refl), refl)), _))

run_client-sends_example :
    (p : ProtocolClient ℕ) × (run_client two_passes waiting ≡ ok (p, a_vote ∷ [], []))
    × (p.work ≡ [])
run_client-sends_example = run_client-sends two_passes waiting refl two_passes-IsLive (omega arith)

abbrev done : ProtocolClient ℕ
done = record { rpc = record { client = some 7; done_flag = false }; work = [] }

sends_the_vote : run_client two_passes waiting ≡ ok (done, a_vote ∷ [], [])
unfolding run_client exists_work_to_do do_work deliver_all try_action_void
    wait_for_try_open_connection connection_is_open keep_trying try_open_connection open_connection
    clear_connection
sends_the_vote = refl

run_client-keeps_example : messages done (a_vote ∷ []) [] ≡ waiting.work
run_client-keeps_example = run_client-keeps two_passes waiting done (a_vote ∷ []) [] sends_the_vote

-- A replica that has the genesis block and block 1, and one that asks it for blocks 1 and 3.
abbrev one_cached : Store
one_cached = record stored { block_cache = (1, 1) ∷ stored.block_cache }

one_cached-IsNamed : IsNamed chain_heap one_cached
unfolding get_block new_store genesis_block get_hash
one_cached-IsNamed hash p other e = elim (Bool-cases (1 == hash)) [
  | inl same ↦
      let at : 1 ≡ hash = (==_iff 1 hash).0 same in
      let there : 1 ≡ p = cc (rw same at e) in rw (← there) at
  | inr differs ↦ absurd (other (stored-cases hash p (rw differs at e)).0)
]

abbrev asking : FetchQueue
asking = record { outstanding_reqs = []; worker_reqs = 1 ∷ 3 ∷ [] }

first_block-IsGood :
    All
      (IsGood listening.config)
      (fetch_blocks chain_heap one_cached (extract_reqs asking).1).responses
unfolding fetch_blocks respond extract_reqs get_block verify deserialize new_store get_hash
    genesis_block
first_block-IsGood = ((refl, refl), _)

run_fetch-Arrive_example :
    (n : Net) × (run_fetch asking listening 9 2
        (some (fetch_blocks chain_heap one_cached (extract_reqs asking).1))
      ≡ ok ((extract_reqs asking).0, n))
    × Arrive listening 9 2 (1 ∷ []) n
unfolding get_block new_store get_hash genesis_block
run_fetch-Arrive_example =
    run_fetch-Arrive asking listening 9 2 chain_heap one_cached one_cached-IsNamed refl
      first_block-IsGood
