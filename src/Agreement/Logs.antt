-- ===== src/Agreement/Logs.antt =====
-- Agreement on logs: of the blocks that two replicas have applied, one list begins with the other.
use mathlib.Core.Path.{subst}
use hotstuff.Prelude.{
  ℕ, suc, ◌≤◌, ◌≡◌, ◌∙◌, ap, ◌⊎◌, inl, inr, Bool, List, [], ◌∷◌, ◌++◌, arith, ltb, ltb→lt, ltb→le,
  Bool-cases,
}
use hotstuff.Foreign.{Foreign}
use hotstuff.Config.{ReplicaInfo, ReplicaConfig}
use hotstuff.Block.{Ptr, Heap}
use hotstuff.Block.Tree.{Extends, Chain}
use hotstuff.Consensus.Calls.{applied}
use hotstuff.Agreement.Quorums.{IsTolerant}
use hotstuff.Agreement.Tree.{IsTree, root_of_height, genesis_height, Extends-root, Chain-prefix}
use hotstuff.Agreement.Local.{OrGenesis, IsCommitted}
use hotstuff.Agreement.Moved.{tree_parent}
use hotstuff.Agreement.Group.{Group, IsCertified, GroupReach, IsGroup, GroupReach-IsGroup}
use hotstuff.Agreement.Chains.{justify-certified, descends}

module _ ⦃f : Foreign⦄ (config : ReplicaConfig) (honest : ReplicaInfo → Bool)
    (tolerant : IsTolerant config honest) (tree : Heap) (is_tree : IsTree tree) (g : Group)
    (i : IsGroup config honest tree g) where
  abbrev Executed : Ptr → Type 0
  Executed e = (e ≡ 0) ⊎ IsCommitted tree (IsCertified config honest g) e

  from_root : (a b : Ptr) → a ≡ 0 → Extends tree a b
  from_root a b at = rw at (Extends-root tree is_tree (tree b).height b (omega arith))

  Executed-IsCertified : (e : Ptr) → Executed e → OrGenesis (IsCertified config honest g) e
  Executed-IsCertified e (inl at) = inl at
  Executed-IsCertified e (inr (b2, b1, c2, j2, chain)) =
      elim (justify-certified config honest tolerant tree is_tree g i b2 b1 c2 j2) [
        | inl root ↦
            let zeros : (tree b1).height ≡ 0 =
              ap (λ y. (tree y).height) root ∙ genesis_height tree is_tree in
            absurd (omega (arith, zeros, is_tree.forest.linked b1 e chain.parent1))
        | inr c1 ↦ justify-certified config honest tolerant tree is_tree g i b1 e c1 chain.justified
      ]

  -- Of two executed blocks the higher one descends from the other.
  Executed-Extends :
      (a b : Ptr) → Executed a → Executed b → (tree a).height ≤ (tree b).height → Extends tree a b
  Executed-Extends a b (inl at) y low = from_root a b at
  Executed-Extends a b (inr (b2, b1, c2, j2, chain)) y low =
      elim (Executed-IsCertified a (inr (b2, b1, c2, j2, chain))) [
        | inl at ↦ from_root a b at
        | inr ca ↦ elim (Executed-IsCertified b y) [
          | inl at ↦
              let zeros : (tree b).height ≡ 0 =
                ap (λ y. (tree y).height) at ∙ genesis_height tree is_tree in
              from_root a b (root_of_height tree is_tree a (omega (arith, zeros, low)))
          | inr cb ↦ elim (justify-certified config honest tolerant tree is_tree g i b2 b1 c2 j2) [
            | inl root ↦
                let zeros : (tree b1).height ≡ 0 =
                  ap (λ y. (tree y).height) root ∙ genesis_height tree is_tree in
                absurd (omega (arith, zeros, is_tree.forest.linked b1 a chain.parent1))
            | inr c1 ↦
                descends config honest tolerant tree is_tree g i b2 b1 a c2 j2 chain c1 ca
                  (suc (tree b).height) b (omega arith) cb low
          ]
        ]
      ]

  -- The log of a replica as a chain of the tree.
  log-Chain : (r : ℕ) → Chain tree 0 (applied (g r).calls) (g r).b_exec
  log-Chain r =
      let l = (i r).0 in
      in_tree r (applied (g r).calls) 0
        (subst (λ a. Chain (g r).heap a (applied (g r).calls) (g r).b_exec) l.genesis l.sound.log)
    where
      in_tree :
          (r : ℕ) (xs : List Ptr) (a : Ptr)
          → Chain (g r).heap a xs (g r).b_exec
          → Chain tree a xs (g r).b_exec
      in_tree r [] a e = e
      in_tree r (x ∷ xs) a (e, rest) =
          (tree_parent tree is_tree _ _ (g r) (i r).0 x a e, in_tree r xs x rest)

  prefix :
      (r q : ℕ)
      → (tree (g r).b_exec).height ≤ (tree (g q).b_exec).height
      → (more : List Ptr) × (applied (g q).calls ≡ applied (g r).calls ++ more)
  prefix r q low =
      Chain-prefix tree 0 (g r).b_exec (g q).b_exec (applied (g r).calls) (applied (g q).calls)
        is_tree.forest (Executed-Extends _ _ (i r).0.exec (i q).0.exec low) (log-Chain r)
        (log-Chain q)

module _ ⦃f : Foreign⦄ where
  -- Replicas start from the genesis block and make their moves, one at a time, in any order: they
  -- hear votes and proposals, and receive blocks. They are counted, with distinct ids, their
  -- number is no multiple of 3, and at most a third of them, rounded down, are faulty and sign
  -- anything. Every block stands in one tree, descends from the block that its certificate is on,
  -- and has been received with a certificate that a quorum has signed; proposals are below height
  -- `2 ^ 32`. Then of the blocks that any two replicas have applied, one list begins with the
  -- other.
  pub logs_agree :
      (config : ReplicaConfig) (honest : ReplicaInfo → Bool) (tree : Heap) (g : Group)
      → IsTolerant config honest
      → IsTree tree
      → GroupReach config honest tree g
      → (r q : ℕ)
      → ((more : List Ptr) × (applied (g q).calls ≡ applied (g r).calls ++ more))
        ⊎ ((more : List Ptr) × (applied (g r).calls ≡ applied (g q).calls ++ more))
  logs_agree config honest tree g tolerant is_tree run r q =
      let i = GroupReach-IsGroup config honest tree g is_tree run in
      elim (Bool-cases (ltb (tree (g q).b_exec).height (tree (g r).b_exec).height)) [
        | inl higher ↦
            inr (
              prefix config honest tolerant tree is_tree g i q r (omega (arith, ltb→lt _ _ higher)))
        | inr lower ↦ inl (prefix config honest tolerant tree is_tree g i r q (ltb→le _ _ lower))
      ]
