-- ===== src/Config/Laws.antt =====
-- The replica map and the quorum size.
use hotstuff.Prelude.{
  ℕ, ◌+◌, ◌/◌, ◌%◌, ◌≤◌, ◌<◌, ◌≡◌, ◌≢◌, refl, ◌⊎◌, inl, inr, Bool, true, false, none, List, [], ◌∷◌,
  arith, ==_refl, ◌&&◌, if◌then◌else◌, Option-cases, length, ok, throw, duplicate_replica,
}
use hotstuff.Config.{
  ReplicaInfo, ReplicaConfig, find, add_replica, finish_init, is_valid_replica, get_info,
}

-- No two entries share an id.
abbrev pub IsDistinct : List ReplicaInfo → Type 0
IsDistinct [] = Unit {0}
IsDistinct (info ∷ infos) = (find info.id infos ≡ none) × IsDistinct infos

pub record IsConfig (c : ReplicaConfig) : Type 0 where
  pub counted : c.nreplicas ≡ length c.replica_map
  pub distinct : IsDistinct c.replica_map

get_info-head :
    (c : ReplicaConfig) (info : ReplicaInfo) (infos : List ReplicaInfo)
    → c.replica_map ≡ info ∷ infos
    → get_info c info.id ≡ ok info
unfolding get_info find
get_info-head c info infos e = rw (get_info, e, ==_refl info.id) refl

-- In a configuration whose replicas are counted and have distinct ids, a replica whose id is taken
-- is refused; any other is added, is found under its id, and keeps the map free of duplicates and
-- `nreplicas` its size.
pub add_replica-IsConfig :
    (c : ReplicaConfig) (info : ReplicaInfo)
    → IsConfig c
    → ((is_valid_replica c info.id ≡ true) × (add_replica c info ≡ throw duplicate_replica))
      ⊎ ((is_valid_replica c info.id ≡ false)
          × ((d : ReplicaConfig) × (add_replica c info ≡ ok d)
              × IsConfig d
              × (get_info d info.id ≡ ok info)))
unfolding add_replica is_valid_replica get_info
add_replica-IsConfig c info i = elim (Option-cases (find info.id c.replica_map)) [
  | inr (other, e) ↦ inl (rw (e, is_valid_replica), rw (e, add_replica))
  | inl e ↦
      let d : ReplicaConfig = record c {
        replica_map = info ∷ c.replica_map;
        nreplicas = c.nreplicas + 1;
      } in
      inr (
        rw (e, is_valid_replica),
        (
          d,
          rw (e, add_replica) refl,
          record { counted = omega (arith, i.counted); distinct = (e, i.distinct) },
          get_info-head d info c.replica_map refl,
        ),
      )
]

-- How many entries satisfy a test.
unfoldable pub count : (ReplicaInfo → Bool) → List ReplicaInfo → ℕ
count p [] = 0
count p (info ∷ infos) = count p infos + (if p info then 1 else 0)

pub count-le :
    (p q : ReplicaInfo → Bool) (infos : List ReplicaInfo)
    → ((info : ReplicaInfo) → p info ≡ true → q info ≡ true)
    → count p infos ≤ count q infos
unfolding count
count-le p q [] le = omega arith
count-le p q (info ∷ infos) le = ground (arith, count-le p q infos le, le info)

-- Two sets of entries overlap at least by what their sizes exceed the whole.
pub count-overlap :
    (p q : ReplicaInfo → Bool) (infos : List ReplicaInfo)
    → count p infos + count q infos ≤ length infos + count (λ info. p info && q info) infos
unfolding count
count-overlap p q [] = omega arith
count-overlap p q (info ∷ infos) = ground (arith, count-overlap p q infos)

-- With `n` replicas a quorum is `n - n / 3` of them, and two quorums exceed the whole by
-- `n - 2 * (n / 3)`: by more than the `n / 3` faulty ones, unless 3 divides `n`.
pub finish_init_overlap :
    (c : ReplicaConfig) (common : ℕ)
    → (finish_init c).nmajority + (finish_init c).nmajority ≤ c.nreplicas + common
    → (c.nreplicas / 3 ≤ common) × (c.nreplicas % 3 ≢ 0 → c.nreplicas / 3 < common)
unfolding finish_init
finish_init_overlap c common h = (omega arith, λ e. omega arith)
