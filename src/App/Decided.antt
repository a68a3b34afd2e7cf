-- ===== src/App/Decided.antt =====
-- The calls of a commit, run on the bridge of the machine and on the log.
use mathlib.Core.List.{reverse, append_assoc, append-nil}
use hotstuff.Prelude.{ℕ, ◌≡◌, refl, sym, ◌∙◌, ap, none, some, List, [], ◌∷◌, ◌++◌, All, map, ok}
use hotstuff.Foreign.{Foreign, IsAscending}
use hotstuff.Wire.{QuorumCertificateWire}
use hotstuff.Certs.{QuorumCertificate, serialize}
use hotstuff.Block.{Ptr, Block, Heap}
use hotstuff.Consensus.{Core, height_of, call, commit_block, commit_all, apply_queue}
use hotstuff.Consensus.Calls.{Call}
use hotstuff.Consensus.Calls
use hotstuff.Vm.{VmBlockId}
use hotstuff.Vm.Bridge.{Txn}
use hotstuff.Log.{Lmdb, Encoding, meta_dbi}
use hotstuff.Log
use hotstuff.Log.Written.{IsLmdb}
use hotstuff.Log.Sequence.{Fits, heights, write_all, logged_all, AreLogged, write_all-AreLogged}
use hotstuff.App.{notify_ok_to_prune_blocks}
use hotstuff.App.Effects.{Overrides, Node, add_all, run_call, run_calls}

-- The calls of a commit of the blocks, oldest first.
unfoldable pub block_calls : List Ptr → List Call
block_calls [] = []
block_calls (p ∷ ps) = Calls.apply_block p ∷ Calls.notify_vm_of_commitment p ∷ block_calls ps

abbrev pub commit_calls : List Ptr → QuorumCertificateWire → ℕ → List Call
commit_calls ps q height =
    Calls.open_txn ∷ block_calls ps
    ++ Calls.set_qc_on_top_block q ∷ Calls.commit ∷ Calls.notify_ok_to_prune_blocks height ∷ []

commit_all-calls : (s : Core) (ps : List Ptr) → (commit_all s ps).calls ≡ s.calls ++ block_calls ps
unfolding commit_all commit_block call block_calls
commit_all-calls s [] = sym (append-nil s.calls)
commit_all-calls s (p ∷ ps) =
    commit_all-calls (commit_block s p) ps
    ∙ ap (λ k. k ++ block_calls ps)
        (append_assoc s.calls (Calls.apply_block p ∷ []) (Calls.notify_vm_of_commitment p ∷ []))
    ∙ append_assoc s.calls (Calls.apply_block p ∷ Calls.notify_vm_of_commitment p ∷ [])
        (block_calls ps)

-- The promise of a bridge: while it accepts the blocks, a block is applied, logged as decided with
-- its id and committed, which takes one step, after which the blocks behind it are accepted.
pub record Promise {S B : Type 0} (o : Overrides S B) (id : Block → VmBlockId) : Type 1 where
  pub Accepts : B → List Block → Type 0
  pub step : B → Block → B
  pub commits :
      (b : B) (p : Ptr) (blk : Block) (blks : List Block) (txn : Txn)
      → Accepts b (blk ∷ blks)
      → (b1 : B) × (o.apply_block b p blk txn ≡ ok (b1, txn ++ (p, id blk) ∷ []))
        × (o.notify_vm_of_commitment b1 blk ≡ ok (step b blk))
        × Accepts (step b blk) blks

abbrev pub steps : {B : Type 0} → (B → Block → B) → B → List Block → B
steps step b [] = b
steps step b (blk ∷ blks) = steps step (step b blk) blks

module _ ⦃f : Foreign⦄ {S B E W : Type 0} (o : Overrides S B) (l : Lmdb E W) (c : Encoding)
    (laws : IsLmdb l c) (id : Block → VmBlockId) (promise : Promise o id) where
  abbrev blocks_at : Heap → List Ptr → List Block
  blocks_at h ps = map h ps

  -- The node after a bridge and a transaction have moved on.
  abbrev moved : Node B E W → B → W → Node B E W
  moved n b tx = record n { app = record (n.app) { vm_bridge = b }; txn = some tx }

  run_blocks_lem :
      (n : Node B E W) (tx : W) (ps : List Ptr) (more : List Call)
      → n.txn ≡ some tx
      → promise.Accepts n.app.vm_bridge (blocks_at n.app.core.heap ps)
      → run_calls o l c n (block_calls ps ++ more)
        ≡ run_calls o l c
            (moved n
              (steps promise.step n.app.vm_bridge (blocks_at n.app.core.heap ps))
              (write_all l c laws id tx (blocks_at n.app.core.heap ps)))
            more
  unfolding run_calls run_call block_calls add_all write_all
  run_blocks_lem n tx [] more begun accepts =
      ap (λ t. run_calls o l c (record n { txn = t }) more) begun
  run_blocks_lem n tx (p ∷ ps) more begun accepts =
      let blk = n.app.core.heap p in
      let b = n.app.vm_bridge in
      let (b1, applied, notified, rest) = promise.commits b p blk _ [] accepts in
      let next = moved n (promise.step b blk) (Log.add_decided_block l c tx blk (id blk)) in
      rw (begun, applied, notified) (run_blocks_lem next _ ps more refl rest)

  -- What the calls of a commit make of a node.
  pub record Decides (n : Node B E W) (ps : List Ptr) (q : QuorumCertificateWire) (height : ℕ)
      (n' : Node B E W) : Type 0 where
    pub stepped :
        n'.app.vm_bridge ≡ steps promise.step n.app.vm_bridge (blocks_at n.app.core.heap ps)
    pub closed : n'.txn ≡ none
    pub index :
        n'.decided_hash_index
        ≡ logged_all l c laws id n.decided_hash_index (blocks_at n.app.core.heap ps) q
    pub logged : AreLogged l c laws id n.decided_hash_index (blocks_at n.app.core.heap ps) q
    pub pruned : n'.app.block_store ≡ (notify_ok_to_prune_blocks n.app height).block_store

  run_commit_calls :
      (n : Node B E W) (ps : List Ptr) (q : QuorumCertificateWire) (height : ℕ)
      → promise.Accepts n.app.vm_bridge (blocks_at n.app.core.heap ps)
      → All Fits (blocks_at n.app.core.heap ps)
      → IsAscending (heights l c laws (blocks_at n.app.core.heap ps))
      → (n' : Node B E W) × (run_calls o l c n (commit_calls ps q height) ≡ ok n')
        × Decides n ps q height n'
  unfolding run_calls run_call notify_ok_to_prune_blocks
  run_commit_calls n ps q height accepts fits rising =
      let tx = Log.open_txn l c n.decided_hash_index in
      let more =
        Calls.set_qc_on_top_block q ∷ Calls.commit ∷ Calls.notify_ok_to_prune_blocks height ∷ [] in
      let run = run_blocks_lem (record n { txn = some tx }) tx ps more refl accepts in
      (
        _,
        run,
        record {
          stepped = refl;
          closed = refl;
          index = refl;
          logged = write_all-AreLogged l c laws id n.decided_hash_index _ q fits rising;
          pruned = refl;
        },
      )

  -- On an application whose bridge keeps its promise to the blocks of the queue, which are read
  -- from its heap, with hashes of 32 bytes and rising heights of 64 bits, over a database whose
  -- transactions show their writes and whose commits make them visible: `apply_queue` appends
  -- calls that, run on the bridge, the log and the store, return. The bridge has then taken one
  -- step for each block, from the oldest on; in one transaction, which is closed, each of them is
  -- logged, so that its height yields its hash with the whole logged value, which ends in the
  -- machine's id, and the certificate is the highest one, while other heights yield what they did;
  -- and the store is pruned below the height of the block that is committed last.
  pub apply_queue-Decides :
      (s : Core) (blk : Ptr) (queue : List Ptr) (top_qc : QuorumCertificate) (n : Node B E W)
      → promise.Accepts n.app.vm_bridge (blocks_at n.app.core.heap (reverse queue))
      → All Fits (blocks_at n.app.core.heap (reverse queue))
      → IsAscending (heights l c laws (blocks_at n.app.core.heap (reverse queue)))
      → (cs : List Call) × (n' : Node B E W) × ((apply_queue s blk queue top_qc).calls
          ≡ s.calls ++ cs)
        × (run_calls o l c n cs ≡ ok n')
        × Decides n
            (reverse queue)
            (serialize top_qc)
            (height_of (apply_queue s blk queue top_qc) blk)
            n'
  unfolding apply_queue call
  apply_queue-Decides s blk queue top_qc n accepts fits rising =
      let height = height_of (apply_queue s blk queue top_qc) blk in
      let (n', run, done) =
        run_commit_calls n (reverse queue) (serialize top_qc) height accepts fits rising in
      (
        commit_calls (reverse queue) (serialize top_qc) height,
        n',
        simp (commit_all-calls (call s Calls.open_txn) (reverse queue), append_assoc) refl,
        run,
        done,
      )
