-- ===== src/Config.antt =====
-- hotstuff/config/replica_config.cc and its header: the replicas and the quorum size.
-- `replica_map` is the list of its entries, keyed by their ids. The host name, the ports and the
-- data folder of a replica only reach the sockets and file names, and are left out.
pub mod Laws
use hotstuff.Prelude.{
  ℕ, ◌+◌, ◌-◌, ◌/◌, Bool, true, false, Option, none, some, List, [], ◌∷◌, ◌==◌, if◌then◌else◌,
  Result, ok, throw, ◌>>=◌, unknown_replica, duplicate_replica,
}

pub record ReplicaInfo : Type 0 where
  pub id : ℕ
  pub pk : ℕ

pub record ReplicaConfig : Type 0 where
  pub replica_map : List ReplicaInfo
  pub nreplicas : ℕ
  pub nmajority : ℕ

-- `replica_map.find`
unfoldable pub find : ℕ → List ReplicaInfo → Option ReplicaInfo
find rid [] = none
find rid (info ∷ infos) = if info.id == rid then some info else find rid infos

unfoldable pub empty_config : ReplicaConfig
empty_config = record { replica_map = []; nreplicas = 0; nmajority = 0 }

unfoldable pub add_replica : ReplicaConfig → ReplicaInfo → Result ReplicaConfig
add_replica c info = elim (find info.id c.replica_map) [
  | some _ ↦ throw duplicate_replica
  | none ↦ ok (record c { replica_map = info ∷ c.replica_map; nreplicas = c.nreplicas + 1 })
]

unfoldable pub finish_init : ReplicaConfig → ReplicaConfig
finish_init c = let nfaulty = c.nreplicas / 3 in record c { nmajority = c.nreplicas - nfaulty }

unfoldable pub get_info : ReplicaConfig → ℕ → Result ReplicaInfo
get_info c rid = elim (find rid c.replica_map) [ none ↦ throw unknown_replica | some i ↦ ok i ]

unfoldable pub get_publickey : ReplicaConfig → ℕ → Result ℕ
unfolding get_info
get_publickey c rid = do info ← get_info c rid; ok info.pk

unfoldable pub list_info : ReplicaConfig → List ReplicaInfo
list_info c = c.replica_map

unfoldable pub is_valid_replica : ReplicaConfig → ℕ → Bool
is_valid_replica c rid = elim (find rid c.replica_map) [ none ↦ false | some _ ↦ true ]
