-- ===== src/Agreement/Quorums.antt =====
-- Sets of replicas of the size that hotstuff/config/replica_config.cc asks for.
use hotstuff.Prelude.{
  ◌/◌, ◌%◌, ◌≤◌, ◌<◌, ◌≡◌, ◌≢◌, refl, ◌⊎◌, inl, inr, Bool, true, false, List, [], ◌∷◌, arith, not,
  ◌&&◌, All, Bool-cases,
}
use hotstuff.Config.{ReplicaInfo, ReplicaConfig, finish_init}
use hotstuff.Config.Laws.{IsConfig, count, count-overlap, finish_init_overlap}

-- If more entries pass one test than another, one passes the first and not the second.
count_exceeds :
    (p q : ReplicaInfo → Bool) (P : ReplicaInfo → Type 0) (infos : List ReplicaInfo)
    → All P infos
    → count q infos < count p infos
    → (info : ReplicaInfo) × (p info ≡ true) × (q info ≡ false) × P info
unfolding count
count_exceeds p q P [] a lt = absurd (omega arith)
count_exceeds p q P (info ∷ infos) a lt = elim (Bool-cases (p info)) [
  | inl yes_p ↦ elim (Bool-cases (q info)) [
    | inr no_q ↦ (info, yes_p, no_q, a.0)
    | inl yes_q ↦ count_exceeds p q P infos a.1 (ground arith)
  ]
  | inr no_p ↦ count_exceeds p q P infos a.1 (ground arith)
]

-- The faulty replicas are at most a third, and the code's quorum fits the number of replicas.
pub record IsTolerant (c : ReplicaConfig) (honest : ReplicaInfo → Bool) : Type 0 where
  pub config : IsConfig c
  pub no_third : c.nreplicas % 3 ≢ 0
  pub few_faults : count (λ info. not (honest info)) c.replica_map ≤ c.nreplicas / 3

-- A quorum whose honest members have a property.
abbrev pub Quorum : ReplicaConfig → (ReplicaInfo → Bool) → (ReplicaInfo → Type 0) → Type 0
Quorum c honest P =
    (p : ReplicaInfo → Bool) × ((finish_init c).nmajority ≤ count p c.replica_map)
    × All (λ info. p info ≡ true → honest info ≡ true → P info) c.replica_map

All-zip :
    (P Q : ReplicaInfo → Type 0) (infos : List ReplicaInfo)
    → All P infos
    → All Q infos
    → All (λ info. P info × Q info) infos
All-zip P Q [] a b = tt
All-zip P Q (info ∷ infos) (x, a) (y, b) = ((x, y), All-zip P Q infos a b)

both_true : (a b : Bool) → a && b ≡ true → (a ≡ true) × (b ≡ true)
both_true true true e = (refl, refl)
both_true true false e = cc
both_true false b e = cc

-- Two quorums share an honest member.
pub Quorum-overlap :
    (c : ReplicaConfig) (honest : ReplicaInfo → Bool) (P Q : ReplicaInfo → Type 0)
    → IsTolerant c honest
    → Quorum c honest P
    → Quorum c honest Q
    → (info : ReplicaInfo) × P info × Q info
unfolding finish_init
Quorum-overlap c honest P Q tolerant (p, big_p, all_p) (q, big_q, all_q) =
    let infos : List ReplicaInfo = c.replica_map in
    let shared = count-overlap p q infos in
    let more =
      (finish_init_overlap c (count (λ info. p info && q info) infos)
          (omega (arith, shared, big_p, big_q, tolerant.config.counted))).1
        tolerant.no_third in
    let (info, both, sound, (x, y)) =
      count_exceeds (λ info. p info && q info) (λ info. not (honest info)) _ infos
        (All-zip _ _ infos all_p all_q) (omega (arith, more, tolerant.few_faults)) in
    let (in_p, in_q) = both_true (p info) (q info) both in
    let good : honest info ≡ true = ground arith in (info, x in_p good, y in_q good)

-- A property of the members of a quorum that each of them has, or that yields `B` at once.
pub Quorum-split :
    (c : ReplicaConfig) (honest : ReplicaInfo → Bool) (P Q : ReplicaInfo → Type 0) (B : Type 0)
    → ((info : ReplicaInfo) → P info → Q info ⊎ B)
    → Quorum c honest P
    → Quorum c honest Q ⊎ B
Quorum-split c honest P Q B each (p, big, all) = elim (members c.replica_map all) [
  | inl all_q ↦ inl (p, big, all_q)
  | inr b ↦ inr b
]
  where
    one :
        (info : ReplicaInfo)
        → (p info ≡ true → honest info ≡ true → P info)
        → (p info ≡ true → honest info ≡ true → Q info) ⊎ B
    one info x = elim (Bool-cases (p info)) [
      | inr out ↦ inl (λ e. cc)
      | inl within ↦ elim (Bool-cases (honest info)) [
        | inr faulty ↦ inl (λ e f. cc)
        | inl good ↦ elim (each info (x within good)) [ inl q ↦ inl (λ e f. q) | inr b ↦ inr b ]
      ]
    ]

    members :
        (infos : List ReplicaInfo)
        → All (λ info. p info ≡ true → honest info ≡ true → P info) infos
        → All (λ info. p info ≡ true → honest info ≡ true → Q info) infos ⊎ B
    members [] a = inl tt
    members (info ∷ infos) (x, a) = elim (one info x) [
      | inr b ↦ inr b
      | inl y ↦ elim (members infos a) [ inl ys ↦ inl (y, ys) | inr b ↦ inr b ]
    ]

pub Quorum-map :
    (c : ReplicaConfig) (honest : ReplicaInfo → Bool) (P Q : ReplicaInfo → Type 0)
    → ((info : ReplicaInfo) → P info → Q info)
    → Quorum c honest P
    → Quorum c honest Q
Quorum-map c honest P Q f (p, big, all) = (p, big, All-map c.replica_map all)
  where
    All-map :
        (infos : List ReplicaInfo)
        → All (λ info. p info ≡ true → honest info ≡ true → P info) infos
        → All (λ info. p info ≡ true → honest info ≡ true → Q info) infos
    All-map [] a = tt
    All-map (info ∷ infos) (x, a) = ((λ e g. f info (x e g)), All-map infos a)
