-- ===== src/Vm/Nonspeculative.antt =====
-- hotstuff/vm/nonspeculative_vm_bridge.cc and its header: a bridge without speculation.
use hotstuff.Prelude.{
  ◌≡◌, refl, ◌⊎◌, inl, inr, true, false, Bool, ℕ, List, [], ◌∷◌, if◌then◌else◌, not, Result, ok,
  throw, ◌>>=◌, uninitialized_vm, null_pointer, or_throw,
}
use hotstuff.Block.{Ptr, Block}
use hotstuff.Vm.{Machine, get_block_id}
use hotstuff.Vm.Bridge.{Txn, add_decided_block}

pub record PlainBridge (S : Type 0) : Type 0 where
  pub vm : S
  pub initialized : Bool
  pub proposal_buffer : List (List ℕ)

-- `proposal_buffer.back()` and what `pop_back` leaves.
unfoldable pub split_back : List ℕ → List (List ℕ) → List ℕ × List (List ℕ)
split_back x [] = (x, [])
split_back x (y ∷ ys) = let (last, rest) = split_back y ys in (last, x ∷ rest)

module _ {S : Type 0} where
  unfoldable pub plain_guard : PlainBridge S → Result (PlainBridge S)
  plain_guard b = if not b.initialized then throw uninitialized_vm else ok b

  -- New proposals go to the front of the buffer.
  unfoldable pub add_proposal : PlainBridge S → List ℕ → PlainBridge S
  add_proposal b proposal = record b { proposal_buffer = proposal ∷ b.proposal_buffer }

  unfoldable pub get_next_proposal : PlainBridge S → Result (PlainBridge S × List ℕ)
  unfolding plain_guard split_back
  get_next_proposal b = do
    c ← plain_guard b
    elim c.proposal_buffer [
      | [] ↦ ok (c, [])
      | x ∷ xs ↦
          let (last, rest) = split_back x xs in ok (record c { proposal_buffer = rest }, last)
    ]

  unfoldable pub make_empty_proposal : PlainBridge S → ℕ → Result (List ℕ)
  unfolding plain_guard
  make_empty_proposal b proposal_height = do c ← plain_guard b; ok []

  unfoldable pub proposal_buffer_is_empty : PlainBridge S → Bool
  proposal_buffer_is_empty b = elim b.proposal_buffer [ [] ↦ true | _ ∷ _ ↦ false ]

  unfoldable pub init_clean : {V : Type 0} → Machine S V → PlainBridge S → PlainBridge S
  init_clean m b = record b { vm = m.init_clean b.vm; initialized = true }

  -- The machine's own `init_from_disk` leaves it in the state `loaded`.
  unfoldable pub init_from_disk : PlainBridge S → S → PlainBridge S
  init_from_disk b loaded = record b { vm = loaded; initialized = true }

  -- `*blk_value` is read also where the body is not parsed.
  unfoldable pub apply_block :
      {V : Type 0} → Machine S V → PlainBridge S → Ptr → Block → Txn → Result (PlainBridge S × Txn)
  unfolding plain_guard add_decided_block get_block_id
  apply_block m b p blk txn = do
    c ← plain_guard b
    let blk_value = m.try_parse blk.wire.body
    value ← or_throw blk_value null_pointer
    ok (
      record c { vm = m.exec_block c.vm value },
      add_decided_block txn p (get_block_id m blk_value),
    )

module _ {S : Type 0} where
  -- An initialized bridge with the proposals in its buffer.
  abbrev pub buffering : S → List (List ℕ) → PlainBridge S
  buffering vm proposals = record { vm = vm; initialized = true; proposal_buffer = proposals }

  -- Proposals are handed out in the order in which they are added: what is next after one more has
  -- been added to an initialized bridge is what was next before, and that one only if none was.
  pub get_next_proposal-add_proposal :
      (vm : S) (proposals : List (List ℕ)) (p : List ℕ)
      → ((proposals ≡ [])
          × (get_next_proposal (add_proposal (buffering vm proposals) p) ≡ ok (buffering vm [], p)))
        ⊎ ((x : List ℕ) × (rest : List (List ℕ)) × (get_next_proposal (buffering vm proposals)
              ≡ ok (buffering vm rest, x))
            × (get_next_proposal (add_proposal (buffering vm proposals) p)
                ≡ ok (add_proposal (buffering vm rest) p, x)))
  unfolding get_next_proposal add_proposal plain_guard split_back
  get_next_proposal-add_proposal vm [] p = inl (refl, refl)
  get_next_proposal-add_proposal vm (x ∷ xs) p = inr (_, _, refl, refl)
