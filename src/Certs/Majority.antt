-- ===== src/Certs/Majority.antt =====
-- What a verified certificate proves: a quorum of configured replicas has signed the hash, and two
-- certificates share signers.
use hotstuff.Prelude.{
  ℕ, ◌+◌, ◌/◌, ◌%◌, ◌≤◌, ◌<◌, ◌≡◌, ◌≢◌, refl, sym, ap, inl, inr, Bool, true, false, some, List, [],
  ◌∷◌, arith, leb→le, ltb, ◌==◌, ◌&&◌, ==_iff, if◌then◌else◌, Bool-cases, Option-cases, has, length,
  ok, ok-injective, throw-ne-ok, first_returns,
}
use hotstuff.Foreign.{Foreign, IsAscending}
use hotstuff.Wire.{null_hash}
use hotstuff.Config.{ReplicaInfo, ReplicaConfig, find, get_info, get_publickey, finish_init}
use hotstuff.Config.Laws.{IsConfig, count, count-le, count-overlap, finish_init_overlap}
use hotstuff.Certs.{Sigs, ids, QuorumCertificate, check_sig, count_valid, verify}
use hotstuff.Certs.Sigs.{has-IsAbove, IsAbove-IsAscending}

-- A test with one more id, not among those it accepts before: one more entry passes.
count-extend :
    (p : ReplicaInfo → Bool) (rid : ℕ) (b : ReplicaInfo → Bool) (infos : List ReplicaInfo)
    (found : ReplicaInfo)
    → ((info : ReplicaInfo) → info.id ≡ rid → p info ≡ false)
    → find rid infos ≡ some found
    → count p infos + (if b found then 1 else 0)
      ≤ count (λ info. if rid == info.id then b info else p info) infos
unfolding count find
count-extend p rid b [] found fresh e = cc
count-extend p rid b (info ∷ infos) found fresh e = elim (Bool-cases (info.id == rid)) [
  | inl hit ↦
      let at : info ≡ found = ground arith in
      let rest =
        count-le p (λ x. if rid == x.id then b x else p x) infos λ x px. ground (arith, fresh x) in
      rw (← at) (ground (arith, rest, fresh info))
  | inr miss ↦ ground (arith, count-extend p rid b infos found fresh)
]

counts_on :
    (b c : Bool) (m n old new : ℕ)
    → b ≡ c
    → (if b then m + 1 else m) ≡ n
    → m ≤ old
    → old + (if c then 1 else 0) ≤ new
    → n ≤ new
counts_on true c m n old new at e le more = ground arith
counts_on false c m n old new at e le more = ground arith

module _ ⦃f : Foreign⦄ where
  -- The replica's signature in the list is valid for the hash.
  unfoldable pub signed : Sigs → ℕ → ReplicaInfo → Bool
  signed [] hash info = false
  signed ((rid, sig) ∷ sigs) hash info =
      if rid == info.id then check_sig sig hash info.pk else signed sigs hash info

  signed_fresh :
      (sigs : Sigs) (hash rid : ℕ)
      → has rid (ids sigs) ≡ false
      → (info : ReplicaInfo) → info.id ≡ rid
      → signed sigs hash info ≡ false
  unfolding signed
  signed_fresh [] hash rid fresh info e = refl
  signed_fresh ((r, s) ∷ sigs) hash rid fresh info e =
      ground (arith, signed_fresh sigs hash rid (ground arith) info e)

  get_publickey-find :
      (config : ReplicaConfig) (rid pk : ℕ)
      → get_publickey config rid ≡ ok pk
      → (info : ReplicaInfo) × (find rid config.replica_map ≡ some info) × (info.pk ≡ pk)
  unfolding get_publickey
  get_publickey-find config rid pk e = elim (Option-cases (find rid config.replica_map)) [
    | inl none' ↦ absurd (throw-ne-ok (rw (none', get_info) at e))
    | inr (info, found) ↦ (info, found, ok-injective (rw (found, get_info) at e))
  ]

  -- The loop of `verify` counts no more signatures than there are configured signers.
  count_valid-le :
      (config : ReplicaConfig) (hash : ℕ) (sigs : Sigs) (n : ℕ)
      → IsAscending (ids sigs)
      → count_valid config hash sigs ≡ ok n
      → n ≤ count (signed sigs hash) config.replica_map
  unfolding count_valid signed
  count_valid-le config hash [] n a e = omega (arith, ok-injective e)
  count_valid-le config hash ((rid, sig) ∷ sigs) n a e =
      let (pk, got, e1) = first_returns (get_publickey config rid) _ e in
      let (m, counted, e2) = first_returns (count_valid config hash sigs) _ e1 in
      let (info, found, key) = get_publickey-find config rid pk got in
      let rest = count_valid-le config hash sigs m (IsAbove-IsAscending rid (ids sigs) a) counted in
      let more =
        count-extend (signed sigs hash) rid (λ x. check_sig sig hash x.pk) config.replica_map info
          (signed_fresh sigs hash rid (has-IsAbove rid (ids sigs) rid a (omega arith))) found in
      counts_on (check_sig sig hash pk) (check_sig sig hash info.pk) m n _ _
        (ap (check_sig sig hash) (sym key)) (ok-injective e2) rest more

  -- The signers of two certificates at once.
  abbrev pub common : ReplicaConfig → QuorumCertificate → QuorumCertificate → ℕ
  common config a b =
      count (λ info. signed a.sigs a.obj_hash info && signed b.sigs b.obj_hash info)
        config.replica_map

  -- A certificate on a hash other than the null hash that verifies has signatures of a quorum.
  verify-signed :
      (config : ReplicaConfig) (q : QuorumCertificate)
      → IsAscending (ids q.sigs)
      → q.obj_hash ≢ null_hash
      → verify config q ≡ ok true
      → config.nmajority ≤ count (signed q.sigs q.obj_hash) config.replica_map
  unfolding verify
  verify-signed config q a real e = elim (Bool-cases (q.obj_hash == null_hash)) [
    | inl null ↦ absurd (real ((==_iff _ _).0 null))
    | inr other ↦ elim (Bool-cases (ltb (length q.sigs) config.nmajority)) [
      | inl few ↦ cc (rw (other, few) at e)
      | inr many ↦
          let (n, counted, e1) =
            first_returns (count_valid config q.obj_hash q.sigs) _ (rw (other, many) at e) in
          omega (
            arith,
            leb→le config.nmajority n (ok-injective e1),
            count_valid-le config q.obj_hash q.sigs n a counted,
          )
    ]
  ]

  -- In a finished configuration whose replicas are counted and have distinct ids, two certificates
  -- with ascending ids, on hashes other than the null hash, that both verify share at least a
  -- third of the replicas as signers, rounded down, and more than that unless 3 divides the number
  -- of replicas.
  pub verify-common :
      (c : ReplicaConfig) (a b : QuorumCertificate)
      → IsConfig c
      → IsAscending (ids a.sigs)
      → IsAscending (ids b.sigs)
      → a.obj_hash ≢ null_hash
      → b.obj_hash ≢ null_hash
      → verify (finish_init c) a ≡ ok true
      → verify (finish_init c) b ≡ ok true
      → (c.nreplicas / 3 ≤ common c a b) × (c.nreplicas % 3 ≢ 0 → c.nreplicas / 3 < common c a b)
  unfolding finish_init
  verify-common c a b i ascends_a ascends_b real_a real_b verified_a verified_b =
      finish_init_overlap c (common c a b) (
        omega (
          arith,
          i.counted,
          verify-signed (finish_init c) a ascends_a real_a verified_a,
          verify-signed (finish_init c) b ascends_b real_b verified_b,
          count-overlap (signed a.sigs a.obj_hash) (signed b.sigs b.obj_hash) c.replica_map,
        ))
