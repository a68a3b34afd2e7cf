-- ===== src/Examples/Toy.antt =====
-- Concrete stand-ins for the foreign libraries, and a chain of blocks to run the protocol on.
use hotstuff.Prelude.{
  ℕ, zero, suc, ◌+◌, ◌/◌, ◌%◌, ◌^◌, ◌≡◌, ◌≢◌, refl, true, false, none, some, List, [], ◌∷◌, ◌==◌,
  if◌then◌else◌,
}
use hotstuff.Foreign.{Foreign}
use hotstuff.Wire.{HotstuffBlockWire}
use hotstuff.Config.{ReplicaConfig}
use hotstuff.Certs.{QuorumCertificate}
use hotstuff.Block.{Ptr, Heap, genesis_block}
use hotstuff.Block.Tree.{IsForest}
use hotstuff.Block.Disk.{IsClosed, IsDurable}
use hotstuff.Consensus.Advance.{IsStored}
use hotstuff.Consensus.{Core}

-- The bits of a number: `2 ^ id` for each id, and the positions of the bits that are set.
abbrev pub add_bits : List ℕ → ℕ
add_bits [] = 0
add_bits (id ∷ ids) = 2 ^ id + add_bits ids

abbrev pub bits_from : ℕ → ℕ → ℕ → List ℕ
bits_from zero position n = []
bits_from (suc fuel) position n =
    if n % 2 == 1
    then position ∷ bits_from fuel (position + 1) (n / 2)
    else bits_from fuel (position + 1) (n / 2)

-- A signature under key `k` of hash `h` is `h + k`; a header hashes to its body hash.
instance abbrev pub toy : Foreign
toy = record {
  verify_detached = λ sig hash pk. sig == hash + pk;
  sign_detached = λ hash sk. some (hash + sk);
  hash_header = λ header. header.body_hash;
  hash_body = λ body. elim body [ [] ↦ 0 | b ∷ bs ↦ b ];
  pack = add_bits;
  unpack = bits_from 32 0;
}

abbrev pub qc_on : ℕ → QuorumCertificate
qc_on hash = record { obj_hash = hash; sigs = [] }

abbrev pub wire_of : ℕ → HotstuffBlockWire
wire_of n = record {
  header = record {
    parent_hash = n;
    qc = record { justify = n; bmp = 0; sigs = [] };
    body_hash = suc n;
  };
  body = suc n ∷ [];
}

-- Block `n + 1` is the child of block `n` and carries a certificate on it.
abbrev pub chain_heap : Heap
chain_heap zero = genesis_block
chain_heap (suc n) = record {
  wire = wire_of n;
  parsed_qc = some (qc_on n);
  proposer = 1;
  height = suc n;
  parent = some n;
  justify = some n;
  self_qc = qc_on (suc n);
  decided = false;
  written = false;
  hash_checked = true;
  hash_valid = true;
  flushed = false;
}

abbrev pub one_replica : ReplicaConfig
one_replica = record { replica_map = record { id = 1; pk = 9 } ∷ []; nreplicas = 1; nmajority = 1 }

abbrev pub chained : Core
chained = record {
  heap = chain_heap;
  disk = λ _. none;
  genesis = 0;
  hqc_block = 0;
  hqc = record { justify = 0; bmp = 0; sigs = [] };
  b_lock = 0;
  b_exec = 0;
  vheight = 0;
  self_id = 1;
  config = one_replica;
  b_leaf = 0;
  calls = [];
}

pub chain-IsForest : IsForest chain_heap
unfolding genesis_block
chain-IsForest = record { linked = linked; rooted = rooted; certified = certified }
  where
    linked :
        (p q : Ptr)
        → (chain_heap p).parent ≡ some q
        → (chain_heap p).height ≡ suc (chain_heap q).height
    linked zero q e = cc
    linked (suc n) q e = let at : n ≡ q = cc in rw (← at) (top n)
      where
        top : (n : ℕ) → suc n ≡ suc (chain_heap n).height
        top zero = refl
        top (suc n) = refl

    rooted : (p : Ptr) → (chain_heap p).parent ≡ none → (chain_heap p).height ≡ 0
    rooted zero e = refl
    rooted (suc n) e = cc

    certified : (p : Ptr) → (chain_heap p).justify ≢ none → (chain_heap p).parsed_qc ≢ none
    certified zero j e = j refl
    certified (suc n) j e = cc

pub chained-IsStored : IsStored chained
unfolding genesis_block
chained-IsStored = record { closed = closed; durable = durable; locked = refl }
  where
    closed : IsClosed chain_heap
    closed zero q w e = cc
    closed (suc n) q w e = cc

    durable : IsDurable chain_heap chained.disk
    durable zero w e = absurd (e refl)
    durable (suc n) w e = cc
