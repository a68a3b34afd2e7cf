-- ===== src/App/Proposing.antt =====
-- `do_propose`, from the body of the new block on.
use hotstuff.Prelude.{
  ℕ, suc, ◌<◌, ◌^◌, ◌≡◌, ◌≢◌, refl, sym, ◌∙◌, ap, false, none, some, List, [], ◌∷◌, ◌++◌, arith,
  ◌==◌, ok,
}
use hotstuff.Foreign.{Foreign}
use hotstuff.Certs.{deserialize}
use hotstuff.Block.{Ptr, Block, Heap, write, get_hash, get_parent_hash, mint_block, receive_block}
use hotstuff.Storage.Store.{
  Store, MissingDependencies, get_block, has_missing, is_some, unless_found,
}
use hotstuff.Storage.Inserted.{IsStore, IsUncached, insert_block-IsInserted}
use hotstuff.Consensus.Reach.{insert-at, insert-other}
use hotstuff.Network.Events.{Event, proposal_event, add_valid_event, validate_event}
use hotstuff.Network.Outbound.{ProtocolManager, propose_message, send_to_all, broadcast_proposal}
use hotstuff.App.{App, propose_body}

module _ ⦃f : Foreign⦄ where
  -- A block at an address that the store does not lead to leaves the store linked.
  pub write-IsStore :
      (h : Heap) (s : Store) (p : Ptr) (b : Block)
      → IsUncached s p
      → IsStore h s
      → IsStore (write h p b) s
  unfolding get_block
  write-IsStore h s p b new i = record {
    named = λ hash q found. rw (kept hash q found) (i.named hash q found);
    linked = λ hash q found.
        let l = i.linked hash q found in
        let same = kept hash q found in
        record {
          parent_found = λ r e. rw same (l.parent_found r (rw same at e));
          one_above = λ r e.
              let link : (h q).parent ≡ some r = rw same at e in
              rw (same, kept _ r (l.parent_found r link)) (l.one_above r link);
          justify_found = λ qc j e k. l.justify_found qc j (rw same at e) (rw same at k);
        };
  }
    where
      kept : (hash : ℕ) (q : Ptr) → get_block s hash ≡ some q → write h p b q ≡ h q
      kept hash q found = insert-other h p b q (λ at. new hash (found ∙ ap some (sym at)))

  module _ {B : Type 0} (a : App B) (p : Ptr) (body : List ℕ) where
    abbrev pub minted : Block
    minted = mint_block body a.core.hqc (get_hash (a.core.heap a.core.b_leaf)) a.core.self_id

    abbrev with_minted : Heap
    with_minted = write a.core.heap p minted

    -- What a proposal leads to.
    pub record Proposes (j : Ptr) (b : App B) : Type 0 where
      pub stored_after : IsStore b.core.heap b.block_store
      pub is_leaf : b.core.b_leaf ≡ p
      pub parent : (b.core.heap p).parent ≡ some a.core.b_leaf
      pub justify : (b.core.heap p).justify ≡ some j
      pub cached : get_block b.block_store (get_hash minted) ≡ some p
      pub proposed :
          b.hotstuff_events ≡ a.hotstuff_events ++ proposal_event p a.protocol_manager.self_id ∷ []

    module _ (j : Ptr) (stored : IsStore a.core.heap a.block_store)
        (new : IsUncached a.block_store p)
        (leaf : get_block a.block_store (get_hash (a.core.heap a.core.b_leaf)) ≡ some a.core.b_leaf)
        (certified : get_block a.block_store (deserialize a.core.hqc).obj_hash ≡ some j)
        (room : suc (a.core.heap a.core.b_leaf).height < 2 ^ 64) where
      at_p : with_minted p ≡ minted
      at_p = insert-at a.core.heap p minted

      parent_of_minted : get_parent_hash (with_minted p) ≡ get_hash (a.core.heap a.core.b_leaf)
      unfolding get_parent_hash mint_block receive_block
      parent_of_minted = ap get_parent_hash at_p

      qc_of_minted : (with_minted p).parsed_qc ≡ some (deserialize a.core.hqc)
      unfolding mint_block receive_block
      qc_of_minted = ap (λ (b : Block). b.parsed_qc) at_p

      nothing_missing :
          (m : MissingDependencies)
          → m.parent_hash
            ≡ unless_found
                (get_block a.block_store (get_parent_hash (with_minted p)))
                (get_parent_hash (with_minted p))
          → m.justify_hash
            ≡ unless_found
                (get_block a.block_store (deserialize a.core.hqc).obj_hash)
                (deserialize a.core.hqc).obj_hash
          → has_missing m ≡ false
      unfolding has_missing is_some unless_found
      nothing_missing m e k = rw (e, k, parent_of_minted, leaf, certified) refl

      high_enough :
          (q : Ptr)
          → get_block a.block_store (get_parent_hash (with_minted p)) ≡ some q
          → suc (with_minted q).height < 2 ^ 64
      high_enough q e =
          let at : a.core.b_leaf ≡ q = cc (rw parent_of_minted at e, leaf) in
          let ne : p ≢ a.core.b_leaf = λ k. new _ (leaf ∙ ap some (sym k)) in
          rw (← at, insert-other a.core.heap p minted a.core.b_leaf ne) room

      abbrev sent_by : Heap → ProtocolManager
      sent_by h = record a.protocol_manager {
        other_clients = send_to_all a.protocol_manager.other_clients (
            propose_message
              (record { proposal = (h p).wire; proposer = a.protocol_manager.self_id }));
      }

      abbrev pub with_event : List Event
      with_event = a.hotstuff_events ++ proposal_event p a.protocol_manager.self_id ∷ []

      broadcast_at :
          (h : Heap)
          → ((h p).height ≡ 0 → ⊥)
          → broadcast_proposal a.protocol_manager h a.hotstuff_events p ≡ ok (sent_by h, with_event)
      unfolding broadcast_proposal add_valid_event validate_event
      broadcast_at h high = let up : ((h p).height == 0) ≡ false = ground arith in rw up refl

      abbrev after : Heap → Store → App B
      after h s = record a {
        core = record a.core { heap = h; b_leaf = p };
        block_store = s;
        protocol_manager = sent_by h;
        hotstuff_events = with_event;
      }

      -- On a store whose cached blocks are linked, with the leaf cached under its hash and a block
      -- under the hash of the highest certificate, a new address, a free hash, and room for the
      -- height in 64 bits, a proposal returns the hash of the minted block, which is then the
      -- leaf, cached under that hash, the child of the old leaf and justified by the certified
      -- block, and is handed to the replica itself as an event; the cached blocks are linked after
      -- it.
      pub propose_body-Proposes :
          get_block a.block_store (get_hash minted) ≡ none
          → (b : App B) × (propose_body a p body ≡ ok (b, get_hash minted)) × Proposes j b
      unfolding propose_body
      propose_body-Proposes free =
          let (g, t, m, r, i) =
            insert_block-IsInserted with_minted a.block_store p (deserialize a.core.hqc)
              (write-IsStore a.core.heap a.block_store p minted new stored) new qc_of_minted
              high_enough in
          let whole = nothing_missing m i.no_parent i.no_justify in
          let cached : get_block t (get_hash minted) ≡ some p =
            rw at_p at (i.cached whole (rw at_p free)) in
          let (parent, justify) = i.linked whole in
          let above : (g p).parent ≡ some a.core.b_leaf =
            parent ∙ ap (get_block a.block_store) parent_of_minted ∙ leaf in
          let tall = (i.stored.linked _ p cached).one_above a.core.b_leaf above in
          let sent = broadcast_at g (λ e. absurd (omega (arith, e, tall))) in
          let named = i.stored.named _ p cached in
          (
            after g t,
            rw (r, whole, sent, named) refl,
            record {
              stored_after = i.stored;
              is_leaf = refl;
              parent = above;
              justify = justify ∙ certified;
              cached = cached;
              proposed = refl;
            },
          )
