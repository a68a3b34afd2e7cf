-- ===== src/Certs.antt =====
-- hotstuff/crypto/certs.cc and its header: votes, and certificates that gather a quorum of them.
-- `std::map<ReplicaID, Signature>` is a list in ascending order of ids.
pub mod Sigs
pub mod RoundTrip
pub mod Majority
use hotstuff.Prelude.{
  ℕ, ◌+◌, Bool, true, false, List, [], ◌∷◌, map, ltb, leb, ◌==◌, if◌then◌else◌, length, Result, ok,
  throw, ◌>>=◌, wrong_certificate, invalid_replica, sign_failed, or_throw,
}
use hotstuff.Foreign.{Foreign}
use hotstuff.Wire.{max_replicas, null_hash, PartialCertificate, QuorumCertificateWire}
use hotstuff.Config.{ReplicaInfo, ReplicaConfig, get_publickey}

abbrev pub Sigs : Type 0
Sigs = List (ℕ × ℕ)

pub record QuorumCertificate : Type 0 where
  pub obj_hash : ℕ
  pub sigs : Sigs

-- `std::map::emplace`: an id that is there keeps its signature.
unfoldable pub emplace : ℕ → ℕ → Sigs → Sigs
emplace rid sig [] = (rid, sig) ∷ []
emplace rid sig ((r, s) ∷ sigs) =
    if ltb rid r
    then (rid, sig) ∷ (r, s) ∷ sigs
    else if r == rid
    then (r, s) ∷ sigs
    else (r, s) ∷ emplace rid sig sigs

abbrev pub ids : Sigs → List ℕ
ids = map λ e. e.0

unfoldable pub empty_qc : ℕ → QuorumCertificate
empty_qc obj_hash = record { obj_hash = obj_hash; sigs = [] }

unfoldable pub add_partial_certificate :
    QuorumCertificate → ℕ → PartialCertificate → Result QuorumCertificate
unfolding emplace
add_partial_certificate q rid pc =
    if pc.hash == q.obj_hash
    then if leb max_replicas rid
      then throw invalid_replica
      else ok (record q { sigs = emplace rid pc.sig q.sigs })
    else throw wrong_certificate

unfoldable pub has_quorum : ReplicaConfig → QuorumCertificate → Bool
has_quorum config q = leb config.nmajority (length q.sigs)

-- The loop of the deserializing constructor: one popped id for each signature.
unfoldable pub emplace_all : List ℕ → List ℕ → Sigs → Sigs
emplace_all [] sigs acc = acc
emplace_all (id ∷ rids) [] acc = acc
emplace_all (id ∷ rids) (sig ∷ sigs) acc = emplace_all rids sigs (emplace id sig acc)

module _ ⦃f : Foreign⦄ where
  unfoldable pub check_sig : ℕ → ℕ → ℕ → Bool
  check_sig sig val pk = f.verify_detached sig val pk

  -- The signing constructor of `PartialCertificate`.
  unfoldable pub sign : ℕ → ℕ → Result PartialCertificate
  sign hash sk = do
    sig ← or_throw (f.sign_detached hash sk) sign_failed
    ok (record { hash = hash; sig = sig })

  unfoldable pub validate : PartialCertificate → ReplicaInfo → Bool
  validate cert info = check_sig cert.sig cert.hash info.pk

  -- The constructor from the wire form.
  unfoldable pub deserialize : QuorumCertificateWire → QuorumCertificate
  unfolding emplace_all emplace empty_qc
  deserialize wire =
      let bv = f.unpack wire.bmp in
      if length bv == length wire.sigs
      then record { obj_hash = wire.justify; sigs = emplace_all bv wire.sigs [] }
      else empty_qc wire.justify

  unfoldable pub serialize : QuorumCertificate → QuorumCertificateWire
  serialize q = record {
    justify = q.obj_hash;
    bmp = f.pack (ids q.sigs);
    sigs = map (λ e. e.1) q.sigs;
  }

  -- The loop of `verify`; `get_publickey` throws on an id that is not configured.
  unfoldable pub count_valid : ReplicaConfig → ℕ → Sigs → Result ℕ
  count_valid config obj_hash [] = ok 0
  count_valid config obj_hash ((rid, sig) ∷ sigs) = do
    pk ← get_publickey config rid
    n ← count_valid config obj_hash sigs
    ok (if check_sig sig obj_hash pk then n + 1 else n)

  unfoldable pub verify : ReplicaConfig → QuorumCertificate → Result Bool
  unfolding count_valid
  verify config q =
      if q.obj_hash == null_hash
      then ok true
      else if ltb (length q.sigs) config.nmajority
      then ok false
      else do n_valid ← count_valid config q.obj_hash q.sigs; ok (leb config.nmajority n_valid)
