-- ===== src/App/Restarted.antt =====
-- The speculative application, restarted from its log.
use hotstuff.Prelude.{
  ℕ, suc, ◌+◌, ◌%◌, ◌^◌, ◌<◌, ◌≡◌, refl, ◌∙◌, ap, none, some, false, List, [], ◌∷◌, arith, last_of,
  length, ok,
}
use hotstuff.Foreign.{Foreign}
use hotstuff.Certs.{QuorumCertificate}
use hotstuff.Block.{Ptr, Block}
use hotstuff.Storage.Store.{get_block}
use hotstuff.Vm.{Machine}
use hotstuff.Vm.Gadget.{Gadget, clear}
use hotstuff.Vm.Gadget
use hotstuff.Vm.Bridge.{Bridge}
use hotstuff.Vm.Bridge
use hotstuff.Vm.Interface.{Interface}
use hotstuff.Vm.Committed.{ready}
use hotstuff.Log.{Lmdb, Encoding, data_dbi, get_highest_qc}
use hotstuff.App.{App}
use hotstuff.App.Reloaded.{IsLoading, IsChain}
use hotstuff.App.Resumed.{Resumes, reload_decided_blocks-Resumes}
use hotstuff.Vm.Interface.{AsyncWorker}
use hotstuff.App.Effects.{Node, hotstuff_app, init_from_disk}
use hotstuff.App.Promised.{Follows, IsAhead, none_ahead}

module _ {S V : Type 0} ⦃w : AsyncWorker S V⦄ (m : Machine S V) where
  -- The machine's thread, once the machine has loaded its state.
  abbrev pub with_machine : Interface S V → S → Interface S V
  with_machine i loaded = record i { vm_instance = loaded }

  bridge_restarts :
      (b : Bridge S V) (loaded : S) (n : ℕ)
      → b.speculation_map.locked ≡ false
      → Bridge.init_from_disk m b loaded n
        ≡ ok (ready [] ((n + 1) % 2 ^ 64) n (with_machine b.vm_interface loaded))
  unfolding Bridge.init_from_disk Gadget.init_from_disk clear
  bridge_restarts b loaded n free = rw free refl

  -- What is said of a replica does not depend on its bridge.
  still-Resumes :
      ⦃f : Foreign⦄ (b : App (Bridge S V)) (r top : Ptr) (hashes : List ℕ) (qc : QuorumCertificate)
      (v : Bridge S V)
      → Resumes b r top hashes qc
      → Resumes (record b { vm_bridge = v }) r top hashes qc
  still-Resumes b r top hashes qc v x = record {
    stored = x.stored;
    chain = x.chain;
    cached = x.cached;
    high = x.high;
    executed = x.executed;
    locked = x.locked;
    leaf = x.leaf;
    certified = x.certified;
    certificate = x.certificate;
    voted = x.voted;
  }

  module _ ⦃f : Foreign⦄ {E W : Type 0} (a : App (Bridge S V)) (e : E) (r : Ptr) (hashes : List ℕ)
      (qc : QuorumCertificate) (loaded : S) (blks : List Block) where
    -- A node that stands at the end of its log.
    pub record Restarts (n : Node (Bridge S V) E W) (top : Ptr) : Type 0 where
      pub resumes : Resumes n.app r top hashes qc
      pub loads : n.app.vm_bridge.vm_interface ≡ with_machine a.vm_bridge.vm_interface loaded
      pub opened : n.decided_hash_index ≡ e
      pub ahead : IsAhead m n.app.vm_bridge blks

  module _ ⦃f : Foreign⦄ (fuel : ℕ) (c : Encoding) {E W : Type 0} (l : Lmdb E W) (e : E)
      (a : App (Bridge S V)) (p r : Ptr) (parent hash : ℕ) (hashes : List ℕ)
      (qc : QuorumCertificate) (loaded : S) (blks : List Block)
      (loading : IsLoading a.core.heap a.block_store p (parent ∷ []))
      (root : get_block a.block_store parent ≡ some r)
      (low : ((a.core.heap r).height ≡ 0) × (a.core.hqc_block ≡ r))
      (chain : IsChain c a.core.disk parent (parent ∷ []) (l.entries e data_dbi) (hash ∷ hashes))
      (signed : get_highest_qc l c e ≡ ok qc) (on_last : qc.obj_hash ≡ last_of hash hashes)
      (free : a.vm_bridge.speculation_map.locked ≡ false)
      (next : Follows (suc (length hashes)) blks)
      (room : suc (suc (length hashes)) + length blks < 2 ^ 64) where
    -- A speculative application with a free mutex, in whose memory is only a block of height 0,
    -- which is the one of its highest certificate, is started from a log whose entries are, in
    -- order, the hashes of a chain of blocks above it, with a logged certificate on the last of
    -- them; each block has a file, is named by its hash, is new, and is certified by a block below
    -- it. The start returns. Each block of the log is then cached, decided, the child of the one
    -- before it and one above it, and the cached blocks are linked; the last one is the executed
    -- and the locked block, the leaf and the block of the highest certificate, which is the logged
    -- one; the machine has the state that it has loaded; and the bridge accepts the commit of any
    -- blocks that follow one above the other, with heights in 64 bits.
    pub init_from_disk-Restarts :
        (n : Node (Bridge S V) E W) × (top : Ptr) × (init_from_disk
            (hotstuff_app m fuel)
            l
            c
            a
            p
            e
            loaded
          ≡ ok n)
        × Restarts a e r (hash ∷ hashes) qc loaded blks n top
    unfolding init_from_disk hotstuff_app
    init_from_disk-Restarts =
        let (b, top, reloaded, same, done) =
          reload_decided_blocks-Resumes c l e a p r parent hash hashes qc loading root low chain
            (omega (arith, room)) signed on_last in
        let unlocked : b.vm_bridge.speculation_map.locked ≡ false =
          ap (λ (v : Bridge S V). v.speculation_map.locked) same ∙ free in
        let begun = bridge_restarts b.vm_bridge loaded (suc (length hashes)) unlocked in
        let i = with_machine b.vm_bridge.vm_interface loaded in
        let head : (suc (length hashes) + 1) % 2 ^ 64 ≡ suc (suc (length hashes)) =
          omega (arith, room) in
        (
          record {
            app = record b {
              vm_bridge = ready [] ((suc (length hashes) + 1) % 2 ^ 64) (suc (length hashes)) i;
            };
            decided_hash_index = e;
            txn = none;
          },
          top,
          rw (reloaded, begun) refl,
          record {
            resumes = still-Resumes b r top (hash ∷ hashes) qc _ done;
            loads = ap (λ (v : Bridge S V). with_machine v.vm_interface loaded) same;
            opened = refl;
            ahead = ([], _, _, i, refl, head, next, none_ahead m blks, room);
          },
        )
