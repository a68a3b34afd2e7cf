-- ===== src/App/Pacemaker.antt =====
-- include/hotstuff/liveness.h: a proposer that waits for a certificate on its last block.
use hotstuff.Prelude.{
  ℕ, ◌+◌, ◌%◌, Option, none, some, Bool, List, ◌==◌, not, if◌then◌else◌, Result, ok, ◌>>=◌,
}
use hotstuff.Foreign.{Foreign}
use hotstuff.Wire.{null_hash}
use hotstuff.Block.{Ptr}
use hotstuff.App.{App, wait_for_new_qc}
use hotstuff.App

pub record Pacemaker : Type 0 where
  pub expected_hash : ℕ
  pub proposer : ℕ

module _ {B : Type 0} where
  -- `get_last_proposer` of the state machine.
  unfoldable pub get_last_proposer : App B → ℕ
  get_last_proposer a = (a.core.heap a.core.hqc_block).proposer

  unfoldable pub new_pacemaker : App B → Pacemaker
  unfolding get_last_proposer
  new_pacemaker a = record { expected_hash = null_hash; proposer = get_last_proposer a }

  unfoldable pub rotate_proposers : App B → Pacemaker → Pacemaker
  rotate_proposers a m = record m { proposer = (m.proposer + 1) % a.core.config.nreplicas }

  -- `none` while the call waits.
  unfoldable pub wait_for_qc : App B → Pacemaker → Option (App B × Pacemaker)
  unfolding wait_for_new_qc get_last_proposer
  wait_for_qc a m = elim (wait_for_new_qc a m.expected_hash) [
    | none ↦ none
    | some (a', res) ↦
        some (a', if not res then record m { proposer = get_last_proposer a' } else m)
  ]

  unfoldable pub should_propose : App B → Pacemaker → Bool
  should_propose a m = m.proposer == a.core.self_id

  unfoldable pub set_self_as_proposer : App B → Pacemaker → Pacemaker
  set_self_as_proposer a m = record m { proposer = a.core.self_id }

  module _ ⦃f : Foreign⦄ (get_next_vm_block : B → Bool → ℕ → Result (B × List ℕ)) where
    unfoldable pub do_propose : App B → Pacemaker → Ptr → Result (App B × Pacemaker)
    unfolding App.do_propose
    do_propose a m p = do
      (a', hash) ← App.do_propose get_next_vm_block a p
      ok (a', record m { proposer = a.core.self_id; expected_hash = hash })

    unfoldable pub do_empty_propose : App B → Pacemaker → Ptr → Result (App B × Pacemaker)
    unfolding App.do_empty_propose
    do_empty_propose a m p = do
      (a', hash) ← App.do_empty_propose get_next_vm_block a p
      ok (a', record m { proposer = a.core.self_id; expected_hash = hash })
