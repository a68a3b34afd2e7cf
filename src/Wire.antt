-- ===== src/Wire.antt =====
-- The messages of hotstuff/xdr/hotstuff.x and include/hotstuff/xdr/types.x.
-- A fixed-size opaque value (hash, signature, key) is the number that its bytes spell, so that the
-- zero-filled `Hash()` is 0; a variable-size one is the list of its bytes.
use hotstuff.Prelude.{ℕ, List}

abbrev pub max_replicas : ℕ
max_replicas = 32

abbrev pub unknown_replica_id : ℕ
unknown_replica_id = 32

-- `Hash()`.
abbrev pub null_hash : ℕ
null_hash = 0

pub record PartialCertificate : Type 0 where
  pub hash : ℕ
  pub sig : ℕ

pub record QuorumCertificateWire : Type 0 where
  pub justify : ℕ
  pub bmp : ℕ
  pub sigs : List ℕ

pub record HotstuffBlockHeader : Type 0 where
  pub parent_hash : ℕ
  pub qc : QuorumCertificateWire
  pub body_hash : ℕ

pub record HotstuffBlockWire : Type 0 where
  pub header : HotstuffBlockHeader
  pub body : List ℕ

pub record VoteMessage : Type 0 where
  pub vote : PartialCertificate
  pub voter : ℕ

pub record ProposeMessage : Type 0 where
  pub proposal : HotstuffBlockWire
  pub proposer : ℕ

pub record BlockFetchRequest : Type 0 where
  pub reqs : List ℕ

pub record BlockFetchResponse : Type 0 where
  pub responses : List HotstuffBlockWire
