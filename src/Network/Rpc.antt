-- ===== src/Network/Rpc.antt =====
-- hotstuff/nonblocking_rpc_client.h and hotstuff/protocol/hotstuff_protocol_client.cc with its
-- header: a client that opens its connection when it needs it.
-- The utils submodule and the network are outside of the repository. What they do is an argument:
-- the outcomes of the attempts to connect and of the remote calls, and whether the worker has been
-- told to stop. Between its own steps nothing but `done_flag` and `work` changes.
use hotstuff.Prelude.{
  Option, none, some, Bool, true, false, List, [], ◌∷◌, ◌++◌, ◌||◌, if◌then◌else◌, Result, ok,
  throw, ◌>>=◌, or_throw, null_pointer, out_of_fuel,
}
use hotstuff.Wire.{VoteMessage, ProposeMessage}
use hotstuff.Network.Outbound.{Message, vote_message, propose_message}

-- The client of the connection, with its socket, if one is open.
pub record RpcClient (C : Type 0) : Type 0 where
  pub client : Option C
  pub done_flag : Bool

-- What `tcp_connect` gives, `none` if it throws, and `done_flag` when it is looked up after it.
pub record Attempt (C : Type 0) : Type 0 where
  pub connection : Option C
  pub stops : Bool

module _ {C : Type 0} where
  unfoldable pub connection_is_open : RpcClient C → Bool
  connection_is_open r = elim r.client [ none ↦ false | some _ ↦ true ]

  unfoldable pub clear_connection : RpcClient C → RpcClient C
  clear_connection r = record r { client = none }

  -- `none` if it throws.
  unfoldable pub open_connection : RpcClient C → Option C → Option (RpcClient C)
  open_connection r none = none
  open_connection r (some c) = some (record r { client = some c })

  -- `on_connection_open`, which no class overrides, does nothing.
  unfoldable pub try_open_connection : RpcClient C → Option C → RpcClient C
  unfolding open_connection clear_connection
  try_open_connection r connection = elim (open_connection r connection) [
    | none ↦ clear_connection r
    | some opened ↦ opened
  ]

  -- The loop of the wait, with the attempts that are left; out of fuel while it waits.
  unfoldable pub keep_trying :
      RpcClient C → List (Attempt C) → Result (RpcClient C × List (Attempt C))
  unfolding try_open_connection connection_is_open
  keep_trying r [] = throw out_of_fuel
  keep_trying r (attempt ∷ attempts) =
      let tried = record (try_open_connection r attempt.connection) { done_flag = attempt.stops } in
      let rest = keep_trying tried attempts in
      if connection_is_open tried || attempt.stops then ok (tried, attempts) else rest

  unfoldable pub wait_for_try_open_connection :
      RpcClient C → List (Attempt C) → Result (RpcClient C × List (Attempt C))
  unfolding connection_is_open keep_trying
  wait_for_try_open_connection r attempts =
      if connection_is_open r || r.done_flag then ok (r, attempts) else keep_trying r attempts

  -- The action reads through `client`; `none` is an exception of the remote call.
  unfoldable pub try_action :
      {A : Type 0}
      → RpcClient C
      → List (Attempt C)
      → (C → Option A)
      → Result (RpcClient C × Option A)
  unfolding wait_for_try_open_connection clear_connection
  try_action r attempts lambda = do
    (opened, rest) ← wait_for_try_open_connection r attempts
    client ← or_throw opened.client null_pointer
    elim (lambda client) [
      | none ↦ ok (clear_connection opened, none)
      | some out ↦ ok (opened, some out)
    ]

  unfoldable pub try_action_void :
      RpcClient C → List (Attempt C) → (C → Bool) → Result (RpcClient C × Bool)
  unfolding wait_for_try_open_connection clear_connection
  try_action_void r attempts lambda = do
    (opened, rest) ← wait_for_try_open_connection r attempts
    client ← or_throw opened.client null_pointer
    ok (if lambda client then (opened, true) else (clear_connection opened, false))

-- One pass of the inner loop of `do_work`: the attempts of its wait, whether the remote call
-- succeeds, and `done_flag` after it.
pub record Pass (C : Type 0) : Type 0 where
  pub attempts : List (Attempt C)
  pub success : Bool
  pub stops : Bool

pub record ProtocolClient (C : Type 0) : Type 0 where
  pub rpc : RpcClient C
  pub work : List Message

module _ {C : Type 0} where
  unfoldable pub exists_work_to_do : ProtocolClient C → Bool
  exists_work_to_do p = elim p.work [ [] ↦ false | _ ∷ _ ↦ true ]

  unfoldable pub vote : ProtocolClient C → VoteMessage → ProtocolClient C
  vote p v = record p { work = p.work ++ vote_message v ∷ [] }

  unfoldable pub propose : ProtocolClient C → ProposeMessage → ProtocolClient C
  propose p proposal = record p { work = p.work ++ propose_message proposal ∷ [] }

  -- The loop over the messages: the client, and what was sent and what was left.
  unfoldable pub deliver_all :
      List (Pass C)
      → RpcClient C
      → List Message
      → Result (RpcClient C × List Message × List Message)
  unfolding try_action_void
  deliver_all passes r [] = ok (r, [], [])
  deliver_all [] r (msg ∷ todo) = throw out_of_fuel
  deliver_all (pass ∷ passes) r (msg ∷ todo) = do
    (tried, success) ← try_action_void r pass.attempts (λ client. pass.success)
    let flagged : RpcClient C = record tried { done_flag = pass.stops }
    let sent : Result (RpcClient C × List Message × List Message) = (do
      (last, delivered, left) ← deliver_all passes flagged todo
      ok (last, msg ∷ delivered, left))
    let again = deliver_all passes flagged (msg ∷ todo)
    if success then sent else if pass.stops then ok (flagged, [], msg ∷ todo) else again

  unfoldable pub do_work :
      List (Pass C)
      → RpcClient C
      → List Message
      → Result (RpcClient C × List Message × List Message)
  unfolding deliver_all
  do_work passes r todo = if r.done_flag then ok (r, [], todo) else deliver_all passes r todo

  -- A round of `run`, which sleeps while there is no work and ends when it is told to stop.
  unfoldable pub run_client :
      List (Pass C) → ProtocolClient C → Result (ProtocolClient C × List Message × List Message)
  unfolding exists_work_to_do do_work
  run_client passes p =
      let woken : Result (ProtocolClient C × List Message × List Message) = (do
        (rpc, sent, left) ← do_work passes p.rpc p.work
        ok (record { rpc = rpc; work = [] }, sent, left)) in
      if p.rpc.done_flag
      then ok (p, [], [])
      else if exists_work_to_do p
      then woken
      else ok (p, [], [])
