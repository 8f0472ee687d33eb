-- ===== src/Ofs/Cluster/Sound.antt =====
-- ofs/master/chunk/cluster/DefaultDataCluster.cpp, Distribute: which servers are given a block.
use zookeeper.Prelude.{
  ℕ, zero, suc, ◌+◌, ◌-◌, ◌≤◌, ◌≡◌, subst, arith, List, [], ◌∷◌, Option, none, some, leb, ◌==◌,
  length, Option-cases, Bool-cases, inl, inr,
}
use zookeeper.Prelude.Eq.{nat_eq}
use zookeeper.Ofs.Cluster.{
  DataCenter, Wish, choose_random, choose_local, choose_local_rack, choose_remote_rack, choose_more,
  after_second, after_local, distribute,
}
use zookeeper.Ofs.Cluster.Adding.{
  IsGiven, Adds-IsGiven, choose_random-Adds, choose_local-Adds, choose_remote_rack-Adds,
  choose_local_rack-Adds,
}

module _ (w : Wish) where
  IsGiven-most :
      (less most : ℕ) (add : List ℕ) → IsGiven w less add → less ≤ most → IsGiven w most add
  IsGiven-most less most add g l = (g.0, g.1, omega (arith, g.2))

  module _ (rand : List ℕ → ℕ) (centers : List DataCenter) where
    choose_more-IsGiven :
        (most : ℕ) (add : List ℕ) (n : ℕ)
        → IsGiven w most add
        → IsGiven w (most + n) (choose_more rand w add n centers)
    unfolding choose_more
    choose_more-IsGiven most add zero g = IsGiven-most most (most + 0) add g (omega arith)
    choose_more-IsGiven most add (suc n) g =
        let found : Option ℕ × List ℕ = choose_random rand (n ∷ 4 ∷ []) w add none centers in
        let step =
          Adds-IsGiven w most add found g
            (choose_random-Adds w rand add (n ∷ 4 ∷ []) none centers) in
        elim (Option-cases found.0) [
          | inl e ↦
              let same : found.1 ≡ choose_more rand w add (suc n) centers = ground (arith, e) in
              subst (IsGiven w (most + suc n)) same
                (IsGiven-most (suc most) (most + suc n) found.1 step (omega arith))
          | inr (cs, e) ↦
              let same : choose_more rand w found.1 n centers
                  ≡ choose_more rand w add (suc n) centers =
                ground (arith, e) in
              subst (IsGiven w (most + suc n)) same (
                IsGiven-most (suc most + n) (most + suc n) (choose_more rand w found.1 n centers)
                  (choose_more-IsGiven (suc most) found.1 n step) (omega arith))
        ]

    after_second-IsGiven :
        (block_count : ℕ) (r : Option ℕ × List ℕ)
        → 2 ≤ block_count
        → IsGiven w 2 r.1
        → IsGiven w block_count (after_second rand block_count w r centers)
    unfolding after_second
    after_second-IsGiven block_count (none, add) l g =
        IsGiven-most (2 + (block_count - 3)) block_count
          (choose_more rand w add (block_count - 3) centers)
          (choose_more-IsGiven 2 add (block_count - 3) g) (omega arith)
    after_second-IsGiven block_count (some second, add) l g =
        let third : Option ℕ × List ℕ = choose_local_rack rand block_count w add second centers in
        elim (Bool-cases (block_count == 2)) [
          | inl t ↦ rw t (IsGiven-most 2 block_count add g l)
          | inr f ↦ rw f (
              IsGiven-most (3 + (block_count - 3)) block_count
                (choose_more rand w third.1 (block_count - 3) centers)
                (choose_more-IsGiven 3 third.1 (block_count - 3) (
                  Adds-IsGiven w 2 add third g
                    (choose_local_rack-Adds w rand add block_count second centers)))
                (ground arith))
        ]

    after_local-IsGiven :
        (block_count : ℕ) (r : Option ℕ × List ℕ)
        → 1 ≤ block_count
        → IsGiven w 1 r.1
        → IsGiven w block_count (after_local rand block_count w r centers)
    unfolding after_local
    after_local-IsGiven block_count (none, add) l g = IsGiven-most 1 block_count add g l
    after_local-IsGiven block_count (some local, add) l g = elim (Bool-cases (block_count == 1)) [
      | inl t ↦ rw t (IsGiven-most 1 block_count add g l)
      | inr f ↦ rw f (
          after_second-IsGiven block_count (choose_remote_rack rand w add local centers)
            (ground arith)
            (Adds-IsGiven w 1 add (choose_remote_rack rand w add local centers) g
              (choose_remote_rack-Adds w rand add local centers)))
    ]

    -- The servers that Distribute gives a block are usable, do not have the block, are not among the excepted ones,
    -- are all different, and are no more than a block is to have in all.
    pub distribute-IsGiven :
        (block_count : ℕ) → IsGiven w block_count (distribute rand block_count w centers)
    unfolding distribute
    distribute-IsGiven block_count = elim (Bool-cases (leb block_count (length w.old))) [
      | inl t ↦ rw t (tt, tt, omega arith)
      | inr f ↦ rw f (
          after_local-IsGiven block_count (choose_local rand w [] centers) (ground arith) (
            Adds-IsGiven w 0 [] (choose_local rand w [] centers) (tt, tt, omega arith)
              (choose_local-Adds w rand [] centers)))
    ]
