-- ===== src/Agreement/Local.antt =====
-- What one replica keeps to in a group: its part of the tree, its lock, and its votes.
use hotstuff.Prelude.{◌≤◌, ◌<◌, ◌≡◌, ◌≢◌, ◌⊎◌, inl, inr, true, none, some, has}
use hotstuff.Foreign.{Foreign}
use hotstuff.Block.{Ptr, Heap}
use hotstuff.Block.Tree.{IsSameNode, Extends}
use hotstuff.Consensus.Calls.{votes}
use hotstuff.Consensus.Settled.{IsThreeChain}
use hotstuff.Consensus.Run.{IsSound}
use hotstuff.Consensus.{Core}

-- The genesis block needs no certificate.
abbrev pub OrGenesis : (Ptr → Type 0) → Ptr → Type 0
OrGenesis cert p = (p ≡ 0) ⊎ cert p

abbrev pub Voted : Core → Ptr → Type 0
Voted s p = has p (votes s.calls) ≡ true

-- The replica has received the block.
abbrev pub Known : Heap → Ptr → Type 0
Known h p = (p ≡ 0) ⊎ ((h p).justify ≢ none)

module _ (tree : Heap) where
  -- A certified ancestor of `x` that is lower than `x` and no lower than `low`.
  pub record Supports (cert : Ptr → Type 0) (low x c : Ptr) : Type 0 where
    pub no_lower : (tree low).height ≤ (tree c).height
    pub lower : (tree c).height < (tree x).height
    pub ancestor : Extends tree c x
    pub certified : OrGenesis cert c

  -- The vote for `x` keeps to the rule: for each lower block voted for, `x` stands on a certified
  -- block that is no lower than the end of that block's chain of two certificates.
  abbrev pub IsGoodVote : (cert : Ptr → Type 0) → (voted : Ptr → Type 0) → Ptr → Type 0
  IsGoodVote cert voted x =
      (v b1 b0 : Ptr)
      → voted v
      → (tree v).height < (tree x).height
      → (tree v).justify ≡ some b1
      → (tree b1).justify ≡ some b0
      → (c : Ptr) × Supports cert b0 x c

  -- A block that the commit rule has reached, from a certified block two above it.
  abbrev pub IsCommitted : (cert : Ptr → Type 0) → Ptr → Type 0
  IsCommitted cert b0 =
      (b2 b1 : Ptr) × cert b2 × ((tree b2).justify ≡ some b1) × IsThreeChain tree b2 b1 b0

  -- The lock is no lower than the end of the chain of two certificates below any block voted for.
  abbrev pub Covers : Core → (voted : Ptr → Type 0) → Type 0
  Covers s voted =
      (v b1 b0 : Ptr)
      → voted v
      → (tree v).justify ≡ some b1
      → (tree b1).justify ≡ some b0
      → (tree b0).height ≤ (tree s.b_lock).height

  module _ ⦃f : Foreign⦄ where
    pub record IsLocal (cert good : Ptr → Type 0) (s : Core) : Type 0 where
      pub sound : IsSound s
      pub genesis : s.genesis ≡ 0
      pub view : (p : Ptr) → Known s.heap p → IsSameNode (tree p) (s.heap p)
      pub blank : (p : Ptr) → (s.heap p).justify ≡ none → (s.heap p).parent ≡ none
      pub closed : (p j : Ptr) → (s.heap p).justify ≡ some j → Known s.heap j
      pub certified : (p j : Ptr) → (s.heap p).justify ≡ some j → OrGenesis cert j
      pub lock_known : Known s.heap s.b_lock
      pub lock_certified : OrGenesis cert s.b_lock
      pub low : (x : Ptr) → (s.heap x).decided ≡ true → (s.heap x).height ≤ (s.heap s.b_lock).height
      pub exec : (s.b_exec ≡ 0) ⊎ IsCommitted cert s.b_exec
      pub voted_known : (v : Ptr) → Voted s v → Known s.heap v
      pub top : (v : Ptr) → Voted s v → (tree v).height ≤ s.vheight
      pub once : (v w : Ptr) → Voted s v → Voted s w → (tree v).height ≡ (tree w).height → v ≡ w
      pub rule : (x : Ptr) → Voted s x → IsGoodVote cert (Voted s) x ⊎ good x

    OrGenesis-map :
        (P Q : Ptr → Type 0) (p : Ptr) → ((x : Ptr) → P x → Q x) → OrGenesis P p → OrGenesis Q p
    OrGenesis-map P Q p up (inl e) = inl e
    OrGenesis-map P Q p up (inr k) = inr (up p k)

    pub IsGoodVote-map :
        (P Q : Ptr → Type 0) (voted : Ptr → Type 0) (x : Ptr)
        → ((y : Ptr) → P y → Q y)
        → IsGoodVote P voted x
        → IsGoodVote Q voted x
    IsGoodVote-map P Q voted x up g v b1 b0 k lt j1 j0 =
        let (c, s) = g v b1 b0 k lt j1 j0 in
        (
          c,
          record {
            no_lower = s.no_lower;
            lower = s.lower;
            ancestor = s.ancestor;
            certified = OrGenesis-map P Q c up s.certified;
          },
        )

    IsCommitted-map :
        (P Q : Ptr → Type 0) (p : Ptr) → ((y : Ptr) → P y → Q y) → IsCommitted P p → IsCommitted Q p
    IsCommitted-map P Q p up (b2, b1, k, j, chain) = (b2, b1, up b2 k, j, chain)

    -- More certificates do no harm.
    pub IsLocal-map :
        (P Q M N : Ptr → Type 0) (s : Core)
        → ((x : Ptr) → P x → Q x)
        → ((x : Ptr) → M x → N x)
        → IsLocal P M s
        → IsLocal Q N s
    IsLocal-map P Q M N s up more i = record {
      sound = i.sound;
      genesis = i.genesis;
      view = i.view;
      blank = i.blank;
      closed = i.closed;
      certified = λ p j e. OrGenesis-map P Q j up (i.certified p j e);
      lock_known = i.lock_known;
      lock_certified = OrGenesis-map P Q s.b_lock up i.lock_certified;
      low = i.low;
      exec = elim i.exec [ inl e ↦ inl e | inr k ↦ inr (IsCommitted-map P Q s.b_exec up k) ];
      voted_known = i.voted_known;
      top = i.top;
      once = i.once;
      rule = λ x k. elim (i.rule x k) [
        | inl g ↦ inl (IsGoodVote-map P Q (Voted s) x up g)
        | inr m ↦ inr (more x m)
      ];
    }
