-- ===== src/App/Promised.antt =====
-- The bridges of the two applications keep the promise that a commit relies on.
use hotstuff.Prelude.{
  ℕ, suc, ◌+◌, ◌%◌, ◌^◌, ◌<◌, ◌≡◌, ◌≢◌, refl, sym, ◌∙◌, ap, none, some, true, List, [], ◌∷◌, ◌++◌,
  All, arith, length, ◌==◌, ==_refl, Option-cases, inl, inr, ok, throw,
}
use hotstuff.Block.{Ptr, Block}
use hotstuff.Vm.{VmBlockId, same_id, Machine, get_block_id}
use hotstuff.Vm.Gadget.{
  lock, unlock, empty, add_height_pair, get_lowest_speculative_hotstuff_height,
}
use hotstuff.Vm.Interface.{AsyncWorker, Interface, log_commitment, submit_block_for_exec}
use hotstuff.Vm.Bridge.{
  Bridge, Txn, notify_vm_of_commitment, init_guard, enter, leave, add_decided_block, apply_new,
  apply_entered, apply_block,
}
use hotstuff.Vm.Nonspeculative.{PlainBridge, plain_guard}
use hotstuff.Vm.Nonspeculative
use hotstuff.Vm.Speculated.{IsRun, same_id_refl}
use hotstuff.Vm.Committed.{ready, notify_front}
use hotstuff.App.Effects.{hotstuff_app, nonspeculative_app}
use hotstuff.App.Decided.{Promise}

-- The blocks stand one above the other, from the height after `committed` on.
abbrev pub Follows : ℕ → List Block → Type 0
Follows committed [] = Unit {0}
Follows committed (blk ∷ blks) = (blk.height ≡ suc committed) × Follows (suc committed) blks

module _ {S V : Type 0} (m : Machine S V) where
  abbrev pub id_of : Block → VmBlockId
  id_of blk = get_block_id m (m.try_parse blk.wire.body)

  -- As far as speculation has gone, it has gone through the blocks.
  abbrev pub Matches : List (ℕ × VmBlockId) → List Block → Type 0
  Matches height_map [] = Unit {0}
  Matches [] (blk ∷ blks) = Unit {0}
  Matches ((height, id) ∷ rest) (blk ∷ blks) = (id ≡ id_of blk) × Matches rest blks

  -- An initialized bridge with a free mutex, whose speculation has no gap and matches the blocks.
  abbrev pub IsAhead : Bridge S V → List Block → Type 0
  IsAhead b blks =
      (height_map : List (ℕ × VmBlockId)) × (head : ℕ) × (committed : ℕ) × (i : Interface S V) × (b
        ≡ ready height_map head committed i)
      × IsRun committed height_map head
      × Follows committed blks
      × Matches height_map blks
      × (suc committed + length blks < 2 ^ 64)

module _ {S V : Type 0} ⦃w : AsyncWorker S V⦄ (m : Machine S V) where
  -- A block that has been speculated on is only committed; any other one is also submitted.
  unfoldable pub commit_step : Bridge S V → Block → Bridge S V
  unfolding log_commitment submit_block_for_exec
  commit_step b blk = elim b.speculation_map.height_map [
    | [] ↦ record b {
      speculation_map = record b.speculation_map {
        speculation_head_hotstuff_height =
            (b.speculation_map.speculation_head_hotstuff_height + 1) % 2 ^ 64;
        highest_committed_height = blk.height;
      };
      vm_interface =
          log_commitment (submit_block_for_exec b.vm_interface (m.try_parse blk.wire.body))
            (id_of m blk);
    }
    | _ ∷ rest ↦ record b {
      speculation_map = record b.speculation_map {
        height_map = rest;
        highest_committed_height = blk.height;
      };
      vm_interface = log_commitment b.vm_interface (id_of m blk);
    }
  ]

  module _ (committed : ℕ) (i : Interface S V) (p : Ptr) (blk : Block) (txn : Txn)
      (at : blk.height ≡ suc committed) where
    apply_unseen :
        (head : ℕ)
        → head ≡ suc committed
        → apply_block m (ready [] head committed i) p blk txn
          ≡ ok (
            ready
                ((blk.height, id_of m blk) ∷ [])
                ((head + 1) % 2 ^ 64)
                committed
                (submit_block_for_exec i (m.try_parse blk.wire.body)),
            txn ++ (p, id_of m blk) ∷ [],
          )
    unfolding apply_block enter init_guard lock add_decided_block apply_entered empty apply_new
        leave unlock add_height_pair
    apply_unseen head run =
        let level : (head == blk.height) ≡ true = rw (at, run) (==_refl (suc committed)) in
        rw level refl

    apply_seen :
        (head height : ℕ) (id : VmBlockId) (rest : List (ℕ × VmBlockId))
        → id ≡ id_of m blk
        → apply_block m (ready ((height, id) ∷ rest) head committed i) p blk txn
          ≡ ok (ready ((height, id) ∷ rest) head committed i, txn ++ (p, id_of m blk) ∷ [])
    unfolding apply_block enter init_guard lock add_decided_block apply_entered empty leave unlock
        get_lowest_speculative_hotstuff_height
    apply_seen head height id rest same =
        let seen : same_id (id_of m blk) id ≡ true = rw same (same_id_refl (id_of m blk)) in
        rw seen refl

  pub none_ahead : (blks : List Block) → Matches m [] blks
  none_ahead [] = _
  none_ahead (blk ∷ blks) = _

  pub IsAhead-commits :
      (b : Bridge S V) (p : Ptr) (blk : Block) (blks : List Block) (txn : Txn)
      → IsAhead m b (blk ∷ blks)
      → (b1 : Bridge S V) × (apply_block m b p blk txn ≡ ok (b1, txn ++ (p, id_of m blk) ∷ []))
        × (notify_vm_of_commitment b1 blk ≡ ok (commit_step b blk))
        × IsAhead m (commit_step b blk) blks
  unfolding commit_step
  IsAhead-commits b p blk blks txn ([], head, committed, i, e, run, (at, above), match, room) =
      let next : (head + 1) % 2 ^ 64 ≡ suc blk.height = omega (arith, at, run, room) in
      let j = submit_block_for_exec i (m.try_parse blk.wire.body) in
      rw e (
        ready ((blk.height, id_of m blk) ∷ []) ((head + 1) % 2 ^ 64) committed j,
        apply_unseen committed i p blk txn at head run,
        notify_front m committed i p blk txn at blk.height (id_of m blk) [] ((head + 1) % 2 ^ 64) j
            refl,
        (
          [],
          (head + 1) % 2 ^ 64,
          blk.height,
          log_commitment j (id_of m blk),
          refl,
          next,
          rw at above,
          none_ahead blks,
          omega (arith, room, at),
        ),
      )
  IsAhead-commits b p blk blks txn
        (
          (height, id) ∷ rest,
          head,
          committed,
          i,
          e,
          (first, run),
          (at, above),
          (same, match),
          room,
        ) =
      rw e (
        ready ((height, id) ∷ rest) head committed i,
        apply_seen committed i p blk txn at head height id rest same,
        notify_front m committed i p blk txn at height id rest head i (first ∙ sym at)
            ∙ ap (λ v. ok (ready rest head blk.height (log_commitment i v))) same,
        (
          rest,
          head,
          blk.height,
          log_commitment i (id_of m blk),
          refl,
          rw at run,
          rw at above,
          match,
          omega (arith, room, at),
        ),
      )

  -- The bridge of `HotstuffApp`.
  unfoldable pub hotstuff_promise : (fuel : ℕ) → Promise (hotstuff_app m fuel) (id_of m)
  unfolding hotstuff_app
  hotstuff_promise fuel = record {
    Accepts = IsAhead m;
    step = commit_step;
    commits = IsAhead-commits;
  }

module _ {S V : Type 0} (m : Machine S V) where
  -- An initialized bridge, and blocks whose bodies are parsed.
  abbrev pub IsPlain : PlainBridge S → List Block → Type 0
  IsPlain b blks =
      (b.initialized ≡ true) × All (λ (blk : Block). m.try_parse blk.wire.body ≢ none) blks

  -- The bridge that `apply_block` leaves; the address and the transaction do not matter to it.
  unfoldable pub plain_step : PlainBridge S → Block → PlainBridge S
  unfolding Nonspeculative.apply_block plain_guard
  plain_step b blk = elim (Nonspeculative.apply_block m b 0 blk []) [
    | ok (after, txn) ↦ after
    | throw fault ↦ b
  ]

  plain_step_lem :
      (b : PlainBridge S) (blk : Block) (value : V)
      → b.initialized ≡ true
      → m.try_parse blk.wire.body ≡ some value
      → plain_step b blk ≡ record b { vm = m.exec_block b.vm value }
  unfolding plain_step Nonspeculative.apply_block plain_guard add_decided_block get_block_id
  plain_step_lem b blk value set e = rw (plain_step, set, e) refl

  pub IsPlain-commits :
      (b : PlainBridge S) (p : Ptr) (blk : Block) (blks : List Block) (txn : Txn)
      → IsPlain b (blk ∷ blks)
      → (b1 : PlainBridge S) × (Nonspeculative.apply_block m b p blk txn
          ≡ ok (b1, txn ++ (p, id_of m blk) ∷ []))
        × (ok b1 ≡ ok (plain_step b blk))
        × IsPlain (plain_step b blk) blks
  unfolding Nonspeculative.apply_block plain_guard add_decided_block plain_step get_block_id
  IsPlain-commits b p blk blks txn (set, (parsed, rest)) =
      elim (Option-cases (m.try_parse blk.wire.body)) [
        | inl e ↦ absurd (parsed e)
        | inr (value, e) ↦ (
          record b { vm = m.exec_block b.vm value },
          rw (set, e) refl,
          ap ok (sym (plain_step_lem b blk value set e)),
          rw (plain_step_lem b blk value set e) (set, rest),
        )
      ]

  -- The bridge of `NonspeculativeHotstuffApp`.
  unfoldable pub plain_promise : Promise (nonspeculative_app m) (id_of m)
  unfolding nonspeculative_app
  plain_promise = record { Accepts = IsPlain; step = plain_step; commits = IsPlain-commits }
