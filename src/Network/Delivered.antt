-- ===== src/Network/Delivered.antt =====
-- The rounds of the protocol client.
use mathlib.Core.List.{append-nil}
use hotstuff.Prelude.{
  ◌≤◌, ◌≡◌, refl, sym, ◌∙◌, ap, inl, inr, true, false, List, [], ◌∷◌, ◌++◌, All, length, if_true,
  if_false, Bool-cases, Result, ok, Result-cases, ok-injective, throw-ne-ok, ◌>>=◌,
}
use hotstuff.Network.Outbound.{Message}
use hotstuff.Network.Retries.{successes, do_work-sends}
use hotstuff.Network.Rpc.{
  RpcClient, Pass, ProtocolClient, exists_work_to_do, deliver_all, do_work, run_client,
}
use hotstuff.Network.Connected.{IsLive, replies, deliver_all-sends, deliver_all-tries}

module _ {C : Type 0} where
  -- What was sent, what was left, and what still waits.
  abbrev pub messages : ProtocolClient C → List Message → List Message → List Message
  messages p sent left = (sent ++ left) ++ p.work

  abbrev client_of : RpcClient C → List Message → ProtocolClient C
  client_of r work = record { rpc = r; work = work }

  abbrev finish :
      RpcClient C × List Message × List Message
      → Result (ProtocolClient C × List Message × List Message)
  finish w = ok (client_of w.0 [], w.1, w.2)

  round_step :
      (passes : List (Pass C)) (r : RpcClient C) (msg : Message) (todo : List Message)
      → r.done_flag ≡ false
      → run_client passes (client_of r (msg ∷ todo))
        ≡ (deliver_all passes r (msg ∷ todo) >>= finish)
  unfolding run_client do_work exists_work_to_do
  round_step passes r msg todo going =
      if_false _ _ r.done_flag going ∙ ap (λ w. w >>= finish) (if_false _ _ r.done_flag going)

  round_told :
      (passes : List (Pass C)) (r : RpcClient C) (work : List Message)
      → r.done_flag ≡ true
      → run_client passes (client_of r work) ≡ ok (client_of r work, [], [])
  unfolding run_client
  round_told passes r work told = if_true _ _ r.done_flag told

  round_idle :
      (passes : List (Pass C)) (r : RpcClient C)
      → r.done_flag ≡ false
      → run_client passes (client_of r []) ≡ ok (client_of r [], [], [])
  unfolding run_client exists_work_to_do
  round_idle passes r going = if_false _ _ r.done_flag going

  round_sends :
      (passes : List (Pass C)) (r : RpcClient C) (work : List Message)
      → r.done_flag ≡ false
      → All IsLive passes
      → length work ≤ successes (replies passes)
      → (p : ProtocolClient C) × (run_client passes (client_of r work) ≡ ok (p, work, []))
        × (p.work ≡ [])
  round_sends passes r [] going live enough = (client_of r [], round_idle passes r going, refl)
  round_sends passes r (msg ∷ todo) going live enough =
      let (r', e) = deliver_all-sends passes r (msg ∷ todo) going live enough in
      (client_of r' [], round_step passes r msg todo going ∙ ap (λ w. w >>= finish) e, refl)

  -- What a round gives is the outcome of a round.
  same_outcome :
      {x : Result (ProtocolClient C × List Message × List Message)} (p q : ProtocolClient C)
      (sent sent' left left' : List Message)
      → x ≡ ok (p, sent, left)
      → x ≡ ok (q, sent', left')
      → messages q sent' left' ≡ messages p sent left
  same_outcome p q sent sent' left left' e e' =
      ap (λ w. messages w.0 w.1 w.2) (ok-injective (sym e' ∙ e))

  round_keeps :
      (passes : List (Pass C)) (r : RpcClient C) (work : List Message) (p : ProtocolClient C)
      (sent left : List Message)
      → run_client passes (client_of r work) ≡ ok (p, sent, left)
      → messages p sent left ≡ work
  round_keeps passes r work p sent left e = elim (Bool-cases r.done_flag) [
    | inl told ↦ same_outcome (client_of r work) p [] sent [] left (round_told passes r work told) e
    | inr going ↦ going_keeps passes r work p sent left going e
  ]
    where
      going_keeps :
          (passes : List (Pass C)) (r : RpcClient C) (work : List Message) (p : ProtocolClient C)
          (sent left : List Message)
          → r.done_flag ≡ false
          → run_client passes (client_of r work) ≡ ok (p, sent, left)
          → messages p sent left ≡ work
      going_keeps passes r [] p sent left going e =
          same_outcome (client_of r []) p [] sent [] left (round_idle passes r going) e
      going_keeps passes r (msg ∷ todo) p sent left going e =
          let step = round_step passes r msg todo going in
          elim (Result-cases (deliver_all passes r (msg ∷ todo))) [
            | inr (fault, thrown) ↦
                absurd (throw-ne-ok (sym (step ∙ ap (λ w. w >>= finish) thrown) ∙ e))
            | inl ((last, delivered, after), further) ↦
                let (outcomes, tries) =
                  deliver_all-tries passes r last (msg ∷ todo) delivered after further in
                same_outcome (client_of last []) p delivered sent after left
                  (step ∙ ap (λ w. w >>= finish) further) e
                ∙ append-nil (delivered ++ after)
                ∙ ap (λ w. w.0 ++ w.1) (sym tries)
                ∙ (do_work-sends outcomes (msg ∷ todo)).0
          ]

  -- A round of the client that is not told to stop, in which each wait ends with a connection and
  -- as many remote calls succeed as there are messages, returns, has sent all messages in order,
  -- and keeps none.
  pub run_client-sends :
      (passes : List (Pass C)) (p : ProtocolClient C)
      → p.rpc.done_flag ≡ false
      → All IsLive passes
      → length p.work ≤ successes (replies passes)
      → (p' : ProtocolClient C) × (run_client passes p ≡ ok (p', p.work, [])) × (p'.work ≡ [])
  run_client-sends passes p going live enough = round_sends passes p.rpc p.work going live enough

  -- Whatever happens in a round that returns, what was sent, what was left, and what still waits
  -- are together the messages that waited, in order.
  pub run_client-keeps :
      (passes : List (Pass C)) (p p' : ProtocolClient C) (sent left : List Message)
      → run_client passes p ≡ ok (p', sent, left)
      → messages p' sent left ≡ p.work
  run_client-keeps passes p p' sent left e = round_keeps passes p.rpc p.work p' sent left e
