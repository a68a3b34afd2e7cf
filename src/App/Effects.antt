-- ===== src/App/Effects.antt =====
-- hotstuff/hotstuff.h, include/hotstuff/hotstuff_app.h and hotstuff/hotstuff_app.cc: the two
-- applications, and what they do at the calls of the state machine.
use hotstuff.Prelude.{
  ℕ, Bool, Option, none, some, List, [], ◌∷◌, Result, ok, throw, ◌>>=◌, or_throw, null_pointer,
  unimplemented,
}
use hotstuff.Foreign.{Foreign}
use hotstuff.Block.{Ptr, Block, Heap}
use hotstuff.Consensus.Calls.{Call}
use hotstuff.Consensus.Calls
use hotstuff.Vm.{Machine}
use hotstuff.Vm.Interface.{AsyncWorker}
use hotstuff.Vm.Bridge.{Bridge, Txn}
use hotstuff.Vm.Bridge
use hotstuff.Vm.Nonspeculative.{PlainBridge}
use hotstuff.Vm.Nonspeculative
use hotstuff.Log.{Lmdb, Encoding, meta_dbi}
use hotstuff.Log
use hotstuff.App.{App, do_vote, on_new_qc, notify_ok_to_prune_blocks}
use hotstuff.App.Bodies.{speculative_body, plain_body}
use hotstuff.App.Restart.{reload_decided_blocks}

-- The virtual functions that the two applications implement over their bridges. The machine's own
-- `init_from_disk` leaves it in a state of `S`.
pub record Overrides (S B : Type 0) : Type 0 where
  pub get_next_vm_block : B → Bool → ℕ → Result (B × List ℕ)
  pub apply_block : B → Ptr → Block → Txn → Result (B × Txn)
  pub notify_vm_of_commitment : B → Block → Result B
  pub init_clean : B → B
  pub init_from_disk : B → S → ℕ → Result B
  pub put_vm_in_proposer_mode : B → Result B
  pub proposal_buffer_is_empty : B → Bool
  pub stop_proposals : B → Result B
  pub add_proposal : B → List ℕ → Result B

-- A function of `Hotstuff` that an application does not implement.
unfoldable pub not_implemented : {B : Type 0} → B → Result B
not_implemented b = throw unimplemented

-- `HotstuffApp`. The fuel is that of `get_next_vm_block`.
unfoldable pub hotstuff_app :
    {S V : Type 0} ⦃w : AsyncWorker S V⦄ → Machine S V → ℕ → Overrides S (Bridge S V)
unfolding speculative_body Bridge.apply_block Bridge.notify_vm_of_commitment Bridge.init_clean
    Bridge.init_from_disk Bridge.put_vm_in_proposer_mode Bridge.proposal_buffer_is_empty
    Bridge.stop_proposals not_implemented
hotstuff_app m fuel = record {
  get_next_vm_block = speculative_body m fuel;
  apply_block = Bridge.apply_block m;
  notify_vm_of_commitment = Bridge.notify_vm_of_commitment;
  init_clean = Bridge.init_clean m;
  init_from_disk = Bridge.init_from_disk m;
  put_vm_in_proposer_mode = Bridge.put_vm_in_proposer_mode;
  proposal_buffer_is_empty = Bridge.proposal_buffer_is_empty;
  stop_proposals = λ b. ok (Bridge.stop_proposals b);
  add_proposal = λ b proposal. not_implemented b;
}

-- `NonspeculativeHotstuffApp`, whose bridge does nothing at a commitment.
unfoldable pub nonspeculative_app : {S V : Type 0} → Machine S V → Overrides S (PlainBridge S)
unfolding plain_body Nonspeculative.apply_block Nonspeculative.init_clean
    Nonspeculative.init_from_disk Nonspeculative.proposal_buffer_is_empty
    Nonspeculative.add_proposal not_implemented
nonspeculative_app m = record {
  get_next_vm_block = plain_body;
  apply_block = Nonspeculative.apply_block m;
  notify_vm_of_commitment = λ b blk. ok b;
  init_clean = Nonspeculative.init_clean m;
  init_from_disk = λ b loaded height. ok (Nonspeculative.init_from_disk b loaded);
  put_vm_in_proposer_mode = not_implemented;
  proposal_buffer_is_empty = Nonspeculative.proposal_buffer_is_empty;
  stop_proposals = not_implemented;
  add_proposal = λ b proposal. ok (Nonspeculative.add_proposal b proposal);
}

-- An application with its log and the transaction that is open on it.
pub record Node (B E W : Type 0) : Type 0 where
  pub app : App B
  pub decided_hash_index : E
  pub txn : Option W

module _ ⦃f : Foreign⦄ {S B E W : Type 0} (o : Overrides S B) (l : Lmdb E W) (c : Encoding) where
  -- The `add_decided_block` calls of a bridge, on the open transaction.
  unfoldable pub add_all : Heap → W → Txn → W
  unfolding Log.add_decided_block
  add_all h tx [] = tx
  add_all h tx ((p, id) ∷ rest) = add_all h (Log.add_decided_block l c tx (h p) id) rest

  -- What a call of the state machine does. The heap is that of the application: the state machine
  -- does not change what a call reads of a block.
  unfoldable pub run_call : Node B E W → Call → Result (Node B E W)
  unfolding add_all do_vote on_new_qc notify_ok_to_prune_blocks Log.open_txn Log.commit
  run_call n (Calls.do_vote p proposer) = do a ← do_vote n.app p proposer; ok (record n { app = a })
  run_call n (Calls.on_new_qc hash) = ok (record n { app = on_new_qc n.app hash })
  run_call n (Calls.apply_block p) = do
    tx ← or_throw n.txn null_pointer
    (b, decided) ← o.apply_block n.app.vm_bridge p (n.app.core.heap p) []
    ok (record n {
      app = record (n.app) { vm_bridge = b };
      txn = some (add_all n.app.core.heap tx decided);
    })
  run_call n (Calls.notify_vm_of_commitment p) = do
    b ← o.notify_vm_of_commitment n.app.vm_bridge (n.app.core.heap p)
    ok (record n { app = record (n.app) { vm_bridge = b } })
  run_call n (Calls.notify_vm_of_qc_on_nonself_block p) = ok n
  run_call n (Calls.notify_ok_to_prune_blocks height) =
      ok (record n { app = notify_ok_to_prune_blocks n.app height })
  run_call n Calls.open_txn = ok (record n { txn = some (Log.open_txn l c n.decided_hash_index) })
  run_call n (Calls.set_qc_on_top_block qc) = do
    tx ← or_throw n.txn null_pointer
    ok (record n { txn = some (l.put tx meta_dbi c.qc_key (c.qc_to_opaque qc)) })
  run_call n Calls.commit = do
    tx ← or_throw n.txn null_pointer
    ok (record n { decided_hash_index = Log.commit l c n.decided_hash_index tx; txn = none })

  unfoldable pub run_calls : Node B E W → List Call → Result (Node B E W)
  unfolding run_call
  run_calls n [] = ok n
  run_calls n (call ∷ calls) = do next ← run_call n call; run_calls next calls

  -- With the database that `create_db` makes.
  unfoldable pub init_clean : App B → E → Node B E W
  init_clean a created = record {
    app = record a { vm_bridge = o.init_clean a.vm_bridge };
    decided_hash_index = created;
    txn = none;
  }

  -- With the database that `open_db` opens. The blocks go to the addresses from `p` on.
  unfoldable pub init_from_disk : App B → Ptr → E → S → Result (Node B E W)
  unfolding reload_decided_blocks
  init_from_disk a p opened loaded = do
    (reloaded, highest_decision_height) ← reload_decided_blocks c l a p opened
    b ← o.init_from_disk reloaded.vm_bridge loaded highest_decision_height
    ok (record { app = record reloaded { vm_bridge = b }; decided_hash_index = opened; txn = none })
