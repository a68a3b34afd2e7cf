-- ===== src/Consensus/Calls.antt =====
-- The calls that the state machine makes to the application and to the transaction.
use hotstuff.Prelude.{ℕ, List, [], ◌∷◌, ◌++◌, ◌≡◌, refl, ap}
use hotstuff.Wire.{QuorumCertificateWire}
use hotstuff.Block.{Ptr}

pub data Call : Type 0 where
  do_vote : Ptr → ℕ → Call
  on_new_qc : ℕ → Call
  apply_block : Ptr → Call
  notify_vm_of_commitment : Ptr → Call
  notify_vm_of_qc_on_nonself_block : Ptr → Call
  notify_ok_to_prune_blocks : ℕ → Call
  open_txn : Call
  set_qc_on_top_block : QuorumCertificateWire → Call
  commit : Call

-- The blocks of the `apply_block` calls, in order.
unfoldable pub applied : List Call → List Ptr
applied [] = []
applied (apply_block b ∷ cs) = b ∷ applied cs
applied (_ ∷ cs) = applied cs

-- The blocks of the `do_vote` calls, in order.
unfoldable pub votes : List Call → List Ptr
votes [] = []
votes (do_vote b proposer ∷ cs) = b ∷ votes cs
votes (_ ∷ cs) = votes cs

-- The hashes of the `on_new_qc` calls, in order.
unfoldable pub new_qcs : List Call → List ℕ
new_qcs [] = []
new_qcs (on_new_qc hash ∷ cs) = hash ∷ new_qcs cs
new_qcs (_ ∷ cs) = new_qcs cs

pub new_qcs-append : (xs ys : List Call) → new_qcs (xs ++ ys) ≡ new_qcs xs ++ new_qcs ys
unfolding new_qcs
new_qcs-append [] ys = refl
new_qcs-append (on_new_qc hash ∷ xs) ys = ap (◌∷◌ hash) (new_qcs-append xs ys)
new_qcs-append (_ ∷ xs) ys = new_qcs-append xs ys

pub applied-append : (xs ys : List Call) → applied (xs ++ ys) ≡ applied xs ++ applied ys
unfolding applied
applied-append [] ys = refl
applied-append (apply_block b ∷ xs) ys = ap (◌∷◌ b) (applied-append xs ys)
applied-append (_ ∷ xs) ys = applied-append xs ys

pub votes-append : (xs ys : List Call) → votes (xs ++ ys) ≡ votes xs ++ votes ys
unfolding votes
votes-append [] ys = refl
votes-append (do_vote b proposer ∷ xs) ys = ap (◌∷◌ b) (votes-append xs ys)
votes-append (_ ∷ xs) ys = votes-append xs ys
