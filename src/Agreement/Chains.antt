-- ===== src/Agreement/Chains.antt =====
-- Agreement: the blocks that replicas have executed are on one branch.
use hotstuff.Prelude.{
  ℕ, zero, suc, ◌+◌, ◌≤◌, ◌<◌, ◌≡◌, ◌∙◌, ap, inl, inr, Bool, some, arith, ltb, ltb→lt, ltb→le, ◌==◌,
  Bool-cases,
}
use hotstuff.Foreign.{Foreign}
use hotstuff.Config.{ReplicaInfo, ReplicaConfig}
use hotstuff.Block.{Ptr, Heap}
use hotstuff.Block.Tree.{Extends, here, up, Extends-trans}
use hotstuff.Consensus.Settled.{IsThreeChain}
use hotstuff.Agreement.Quorums.{IsTolerant, Quorum-overlap}
use hotstuff.Agreement.Tree.{IsTree, root_of_height, genesis_height}
use hotstuff.Agreement.Local.{Supports, OrGenesis}
use hotstuff.Agreement.Group.{Group, IsCertified, IsGroup, certified-IsGood}

module _ ⦃f : Foreign⦄ (config : ReplicaConfig) (honest : ReplicaInfo → Bool)
    (tolerant : IsTolerant config honest) (tree : Heap) (is_tree : IsTree tree) (g : Group)
    (i : IsGroup config honest tree g) where
  abbrev Cert : Ptr → Type 0
  Cert = IsCertified config honest g

  -- At one height at most one block is certified.
  certified-once : (x y : Ptr) → Cert x → Cert y → (tree x).height ≡ (tree y).height → x ≡ y
  certified-once x y cx cy e =
      let (info, vx, vy) = Quorum-overlap config honest _ _ tolerant cx cy in
      (i info.id).0.once x y vx vy e

  -- A certificate that a signer has checked.
  pub justify-certified : (x j : Ptr) → Cert x → (tree x).justify ≡ some j → OrGenesis Cert j
  justify-certified x j cx e =
      let (info, vx, vy) = Quorum-overlap config honest _ _ tolerant cx cx in
      let l = (i info.id).0 in l.certified x j ((l.view x (l.voted_known x vx)).justify ∙ e)

  module _ (b2 b1 b0 : Ptr) (c2 : Cert b2) (j2 : (tree b2).justify ≡ some b1)
      (chain : IsThreeChain tree b2 b1 b0) (c1 : Cert b1) (c0 : Cert b0) where
    heights : ((tree b1).height ≡ (tree b0).height + 1) × ((tree b2).height ≡ (tree b0).height + 2)
    heights =
        let h1 = is_tree.forest.linked b1 b0 chain.parent1 in
        let h2 = is_tree.forest.linked b2 b1 chain.parent2 in
        (omega (arith, h1), omega (arith, h1, h2))

    -- A certified block among the three heights is one of the three.
    near :
        (x : Ptr)
        → Cert x
        → (tree b0).height ≤ (tree x).height
        → (tree x).height ≤ (tree b2).height
        → Extends tree b0 x
    near x cx low high = elim (Bool-cases ((tree x).height == (tree b0).height)) [
      | inl level ↦ rw (certified-once x b0 cx c0 (ground arith)) here
      | inr other ↦ elim (Bool-cases ((tree x).height == (tree b1).height)) [
        | inl level ↦ rw (certified-once x b1 cx c1 (ground arith)) (up chain.parent1 here)
        | inr over ↦
            let top : (tree x).height ≡ (tree b2).height =
              ground (arith, heights.0, heights.1, low, high) in
            rw (certified-once x b2 cx c2 top) (up chain.parent2 (up chain.parent1 here))
      ]
    ]

    -- A certified block above the three stands on a certified block that is no lower than them.
    far :
        (x : Ptr)
        → Cert x
        → (tree b2).height < (tree x).height
        → (c : Ptr) × Supports tree Cert b0 x c
    far x cx high =
        let (info, v2, (vx, rule)) =
          Quorum-overlap config honest _ _ tolerant c2
            (certified-IsGood config honest tree g i x cx) in
        rule b2 b1 b0 v2 high j2 chain.justified

    -- A certified block that is no lower than the end of a committed chain descends from it.
    pub descends :
        (n : ℕ) (x : Ptr)
        → (tree x).height < n
        → Cert x
        → (tree b0).height ≤ (tree x).height
        → Extends tree b0 x
    descends zero x bound cx low = absurd (omega (arith, bound))
    descends (suc n) x bound cx low = elim (Bool-cases (ltb (tree b2).height (tree x).height)) [
      | inr under ↦ near x cx low (ltb→le _ _ under)
      | inl over ↦
          let (c, s) = far x cx (ltb→lt _ _ over) in
          elim s.certified [
            | inr signed ↦
                Extends-trans (descends n c (omega (arith, s.lower, bound)) signed s.no_lower)
                  s.ancestor
            | inl root ↦
                let zeros : (tree c).height ≡ 0 =
                  ap (λ y. (tree y).height) root ∙ genesis_height tree is_tree in
                let at : b0 ≡ 0 =
                  root_of_height tree is_tree b0 (omega (arith, zeros, s.no_lower)) in
                rw (at, ← root) s.ancestor
          ]
    ]
