-- ===== src/Network/Connected.antt =====
-- A client that connects when it needs to, and what it delivers.
use hotstuff.Prelude.{
  ◌≤◌, ◌≡◌, refl, sym, ◌∙◌, ap, ◌⊎◌, inl, inr, none, some, Bool, true, false, List, [], ◌∷◌, All,
  map, length, arith, if◌then◌else◌, Bool-cases, Option-cases, ok, throw, null_pointer,
  Result-cases, ok-injective,
}
use hotstuff.Network.Outbound.{Message}
use hotstuff.Network.Outbound
use hotstuff.Network.Retries.{successes}
use hotstuff.Network.Rpc.{
  RpcClient, Attempt, connection_is_open, clear_connection, open_connection, try_open_connection,
  keep_trying, wait_for_try_open_connection, try_action_void, Pass, deliver_all,
}

module _ {C : Type 0} where
  -- An attempt opens a connection, and the client is not told to stop before it.
  abbrev pub Opens : List (Attempt C) → C → Type 0
  Opens [] c = ⊥
  Opens (a ∷ more) c =
      (a.connection ≡ some c) ⊎ ((a.connection ≡ none) × (a.stops ≡ false) × Opens more c)

  -- The client is told to stop before an attempt opens a connection.
  abbrev pub Stops : List (Attempt C) → Type 0
  Stops [] = ⊥
  Stops (a ∷ more) = (a.connection ≡ none) × ((a.stops ≡ true) ⊎ Stops more)

  keep_trying-Opens :
      (attempts : List (Attempt C)) (r : RpcClient C) (c : C)
      → Opens attempts c
      → (r' : RpcClient C) × (rest : List (Attempt C)) × (keep_trying r attempts ≡ ok (r', rest))
        × (r'.client ≡ some c)
  unfolding keep_trying try_open_connection open_connection connection_is_open clear_connection
  keep_trying-Opens [] r c opens = absurd opens
  keep_trying-Opens (a ∷ more) r c (inl opened) =
      (record r { client = some c; done_flag = a.stops }, more, rw opened refl, refl)
  keep_trying-Opens (a ∷ more) r c (inr (failed, going, opens)) =
      let (r', rest, e, at) =
        keep_trying-Opens more (record r { client = none; done_flag = false }) c opens in
      (r', rest, rw (failed, going) e, at)

  keep_trying-Stops :
      (attempts : List (Attempt C)) (r : RpcClient C)
      → Stops attempts
      → (r' : RpcClient C) × (rest : List (Attempt C)) × (keep_trying r attempts ≡ ok (r', rest))
        × (r'.client ≡ none)
  unfolding keep_trying try_open_connection open_connection connection_is_open clear_connection
  keep_trying-Stops [] r stops = absurd stops
  keep_trying-Stops (a ∷ more) r (failed, inl told) =
      (record r { client = none; done_flag = true }, more, rw (failed, told) refl, refl)
  keep_trying-Stops (a ∷ more) r (failed, inr stops) = elim (Bool-cases a.stops) [
    | inl told ↦ (record r { client = none; done_flag = true }, more, rw (failed, told) refl, refl)
    | inr going ↦
        let (r', rest, e, at) =
          keep_trying-Stops more (record r { client = none; done_flag = false }) stops in
        (r', rest, rw (failed, going) e, at)
  ]

  waits :
      (r : RpcClient C) (attempts : List (Attempt C))
      → r.client ≡ none
      → r.done_flag ≡ false
      → wait_for_try_open_connection r attempts ≡ keep_trying r attempts
  unfolding wait_for_try_open_connection connection_is_open
  waits r attempts closed going = rw (closed, going) refl

  -- The call, once the wait has ended with a connection or without.
  call_made :
      (r r' : RpcClient C) (attempts rest : List (Attempt C)) (lambda : C → Bool) (c : C)
      → wait_for_try_open_connection r attempts ≡ ok (r', rest)
      → r'.client ≡ some c
      → (t : RpcClient C) × (try_action_void r attempts lambda ≡ ok (t, lambda c))
        × (t.client ≡ (if lambda c then some c else none))
  unfolding try_action_void clear_connection
  call_made r r' attempts rest lambda c e at = elim (Bool-cases (lambda c)) [
    | inl success ↦ (r', rw (e, at, success) refl, rw success at)
    | inr failure ↦ (clear_connection r', rw (e, at, failure) refl, rw failure refl)
  ]

  call_faults :
      (r r' : RpcClient C) (attempts rest : List (Attempt C)) (lambda : C → Bool)
      → wait_for_try_open_connection r attempts ≡ ok (r', rest)
      → r'.client ≡ none
      → try_action_void r attempts lambda ≡ throw null_pointer
  unfolding try_action_void
  call_faults r r' attempts rest lambda e at = rw (e, at) refl

  -- A client without a connection that is not told to stop waits for one; if an attempt opens it
  -- first, the remote call is made on it, and the connection is kept if the call succeeds and
  -- cleared if not; if the client is told to stop first, the call is made all the same, through a
  -- null pointer.
  pub try_action_void-cases :
      (r : RpcClient C) (attempts : List (Attempt C)) (lambda : C → Bool)
      → r.client ≡ none
      → r.done_flag ≡ false
      → ((c : C) × Opens attempts c) ⊎ Stops attempts
      → ((c : C) × Opens attempts c
          × ((t : RpcClient C) × (try_action_void r attempts lambda ≡ ok (t, lambda c))
              × (t.client ≡ (if lambda c then some c else none))))
        ⊎ (Stops attempts × (try_action_void r attempts lambda ≡ throw null_pointer))
  try_action_void-cases r attempts lambda closed going (inl (c, opens)) =
      let (r', rest, e, at) = keep_trying-Opens attempts r c opens in
      inl (c, opens, call_made r r' attempts rest lambda c (waits r attempts closed going ∙ e) at)
  try_action_void-cases r attempts lambda closed going (inr stops) =
      let (r', rest, e, at) = keep_trying-Stops attempts r stops in
      inr (stops, call_faults r r' attempts rest lambda (waits r attempts closed going ∙ e) at)

  -- A pass whose wait ends with a connection, and that is not told to stop.
  abbrev pub IsLive : Pass C → Type 0
  IsLive pass = ((c : C) × Opens pass.attempts c) × (pass.stops ≡ false)

  abbrev pub replies : List (Pass C) → List Bool
  replies passes = map (λ (pass : Pass C). pass.success) passes

  -- Whatever state it is in, the call of a live pass is made.
  pass_made :
      (r : RpcClient C) (pass : Pass C)
      → r.done_flag ≡ false
      → IsLive pass
      → (t : RpcClient C) × (try_action_void r pass.attempts (λ client. pass.success)
          ≡ ok (t, pass.success))
  unfolding wait_for_try_open_connection connection_is_open
  pass_made r pass going ((c, opens), live) = elim (Option-cases r.client) [
    | inl closed ↦
        let (r', rest, e, at) = keep_trying-Opens pass.attempts r c opens in
        let (t, made, kept) =
          call_made r r' pass.attempts rest (λ client. pass.success) c
            (waits r pass.attempts closed going ∙ e) at in
        (t, made)
    | inr (d, opened) ↦
        let (t, e, at) =
          call_made r r pass.attempts pass.attempts (λ client. pass.success) d
            (rw (wait_for_try_open_connection, connection_is_open, opened) refl) opened in
        (t, e)
  ]

  -- A pass, by the outcome of its call.
  deliver_sent :
      (pass : Pass C) (passes : List (Pass C)) (r t r' : RpcClient C) (msg : Message)
      (todo sent left : List Message)
      → try_action_void r pass.attempts (λ client. pass.success) ≡ ok (t, true)
      → deliver_all passes (record t { done_flag = pass.stops }) todo ≡ ok (r', sent, left)
      → deliver_all (pass ∷ passes) r (msg ∷ todo) ≡ ok (r', msg ∷ sent, left)
  unfolding deliver_all
  deliver_sent pass passes r t r' msg todo sent left made e = rw (made, e) refl

  deliver_again :
      (pass : Pass C) (passes : List (Pass C)) (r t : RpcClient C) (msg : Message)
      (todo : List Message)
      → try_action_void r pass.attempts (λ client. pass.success) ≡ ok (t, false)
      → pass.stops ≡ false
      → deliver_all (pass ∷ passes) r (msg ∷ todo)
        ≡ deliver_all passes (record t { done_flag = pass.stops }) (msg ∷ todo)
  unfolding deliver_all
  deliver_again pass passes r t msg todo made going = rw (made, going) refl

  pub deliver_all-sends :
      (passes : List (Pass C)) (r : RpcClient C) (todo : List Message)
      → r.done_flag ≡ false
      → All IsLive passes
      → length todo ≤ successes (replies passes)
      → (r' : RpcClient C) × (deliver_all passes r todo ≡ ok (r', todo, []))
  unfolding deliver_all
  deliver_all-sends passes r [] going live enough = (r, refl)
  deliver_all-sends [] r (msg ∷ todo) going live enough = absurd (omega (arith, enough))
  deliver_all-sends (pass ∷ passes) r (msg ∷ todo) going (first, live) enough =
      let (t, made) = pass_made r pass going first in
      let flagged : RpcClient C = record t { done_flag = pass.stops } in
      elim (Bool-cases pass.success) [
        | inl success ↦
            let (r', e) =
              deliver_all-sends passes flagged todo first.1 live
                (omega (arith, enough, counted pass.success success)) in
            (
              r',
              deliver_sent pass passes r t r' msg todo todo [] (made ∙ ap (λ b. ok (t, b)) success)
                  e,
            )
        | inr failure ↦
            let (r', e) =
              deliver_all-sends passes flagged (msg ∷ todo) first.1 live
                (omega (arith, enough, uncounted pass.success failure)) in
            (
              r',
              deliver_again pass passes r t msg todo (made ∙ ap (λ b. ok (t, b)) failure) first.1
                  ∙ e,
            )
      ]
    where
      counted : (b : Bool) → b ≡ true → successes (b ∷ []) ≡ 1
      counted b e = rw e refl

      uncounted : (b : Bool) → b ≡ false → successes (b ∷ []) ≡ 0
      uncounted b e = rw e refl

  -- The tries of the protocol client are those of a client that is given their outcomes.
  pub deliver_all-tries :
      (passes : List (Pass C)) (r r' : RpcClient C) (todo sent left : List Message)
      → deliver_all passes r todo ≡ ok (r', sent, left)
      → (outcomes : List Bool) × (Outbound.do_work outcomes todo ≡ (sent, left))
  unfolding deliver_all Outbound.do_work
  deliver_all-tries passes r r' [] sent left e =
      let at = ok-injective e in ([], ap (λ w. (w.1, w.2)) at)
  deliver_all-tries [] r r' (msg ∷ todo) sent left e = cc
  deliver_all-tries (pass ∷ passes) r r' (msg ∷ todo) sent left e =
      elim (Result-cases (try_action_void r pass.attempts (λ client. pass.success))) [
        | inr (fault, thrown) ↦ cc (rw thrown at e)
        | inl ((t, b), made) ↦
            let flagged : RpcClient C = record t { done_flag = pass.stops } in
            elim (Bool-cases b) [
              | inl success ↦ elim (Result-cases (deliver_all passes flagged todo)) [
                | inr (fault, thrown) ↦ cc (rw (made, success, thrown) at e)
                | inl ((last, delivered, after), further) ↦
                    let (outcomes, tries) =
                      deliver_all-tries passes flagged last todo delivered after further in
                    let at = ok-injective (rw (made, success, further) at e) in
                    (true ∷ outcomes, rw tries (ap (λ w. (w.1, w.2)) at))
              ]
              | inr failure ↦ elim (Bool-cases pass.stops) [
                | inl told ↦
                    let at = ok-injective (rw (made, failure, told) at e) in
                    ([], ap (λ w. (w.1, w.2)) at)
                | inr going ↦
                    let (outcomes, tries) =
                      deliver_all-tries passes flagged r' (msg ∷ todo) sent left (
                        sym (
                          deliver_again pass passes r t msg todo
                            (made ∙ ap (λ x. ok (t, x)) failure) going)
                        ∙ e) in
                    (false ∷ outcomes, tries)
              ]
            ]
      ]
