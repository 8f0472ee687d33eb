-- ===== src/Ofs/Tree/Gc.antt =====
-- ofs/master/file/Directory.cpp, StartGC: deleted nodes leave the tree after some time.
use zookeeper.Prelude.{
  ℕ, ◌+◌, ◌≡◌, refl, arith, List, [], ◌∷◌, none, some, Bool, true, false, if◌then◌else◌, ltb, not,
  ◌&&◌, ◌||◌, Option-cases, inl, inr,
}
use zookeeper.Prelude.Eq.{Name, ==ₙ_iff}
use zookeeper.Ofs.Tree.{Meta, Node, file, dir, Nodes, nil, entry, meta_of, is_dir, is_delete, find}
use zookeeper.Ofs.Tree.View.{live}
use zookeeper.Ofs.Tree.Names.{
  Fresh, NodeDistinct, NodesDistinct, find-Fresh, same_name, find-Distinct,
}

unfoldable pub is_used_file : Node → Bool
is_used_file (file m id size used) = ltb 0 used
is_used_file (dir m mark children) = false

unfoldable pub can_clean_up : Node → Bool
can_clean_up (file m id size used) = true
can_clean_up (dir m mark children) = not mark

-- The test of the second loop: the child stays. `expire` is the time that deleted nodes are kept.
unfoldable pub stays : ℕ → ℕ → Node → Bool
stays expire now n =
    is_used_file n
    || not (is_delete n && ltb ((meta_of n).delete_tick + expire) now && can_clean_up n)

unfoldable pub sweep_children : ℕ → ℕ → Nodes → Nodes
sweep_children expire now nil = nil
sweep_children expire now (entry k n rest) =
    let swept = sweep_children expire now rest in
    if stays expire now n then entry k n swept else swept

-- `_canNotCleanUp` after the second loop.
unfoldable pub any_used : Nodes → Bool
any_used nil = false
any_used (entry k n rest) = is_used_file n || any_used rest

unfoldable mutual
  pub start_gc : ℕ → ℕ → Node → Node
  start_gc expire now (file m id size used) = file m id size used
  start_gc expire now (dir m mark children) =
      dir m (any_used children) (sweep_children expire now (gc_children expire now children))

  -- The first loop.
  pub gc_children : ℕ → ℕ → Nodes → Nodes
  gc_children expire now nil = nil
  gc_children expire now (entry k n rest) =
      entry k (start_gc expire now n) (gc_children expire now rest)

module _ (expire now : ℕ) where
  pub start_gc-meta :
      (n : Node)
      → (meta_of (start_gc expire now n) ≡ meta_of n)
        × (is_dir (start_gc expire now n) ≡ is_dir n)
        × (is_delete (start_gc expire now n) ≡ is_delete n)
  unfolding start_gc meta_of is_dir is_delete
  start_gc-meta (file m id size used) = (refl, refl, refl)
  start_gc-meta (dir m mark children) = (refl, refl, refl)

  gc_children-Fresh : (k : Name) (ch : Nodes) → Fresh k ch → Fresh k (gc_children expire now ch)
  unfolding start_gc
  gc_children-Fresh k nil h = tt
  gc_children-Fresh k (entry j n rest) h = (h.0, gc_children-Fresh k rest h.1)

  sweep_children-Fresh :
      (k : Name) (ch : Nodes) → Fresh k ch → Fresh k (sweep_children expire now ch)
  unfolding sweep_children
  sweep_children-Fresh k nil h = tt
  sweep_children-Fresh k (entry j n rest) h = ground (arith, sweep_children-Fresh k rest h.1)

  find-gc_children :
      (k : Name) (ch : Nodes)
      → find k (gc_children expire now ch)
        ≡ elim (find k ch) [ none ↦ none | some n ↦ some (start_gc expire now n) ]
  unfolding find start_gc
  find-gc_children k nil = refl
  find-gc_children k (entry j n rest) = ground (arith, find-gc_children k rest)

  sweep_children-Distinct :
      (ch : Nodes) → NodesDistinct ch → NodesDistinct (sweep_children expire now ch)
  unfolding sweep_children
  sweep_children-Distinct nil h = tt
  sweep_children-Distinct (entry k n rest) h =
      ground (arith, sweep_children-Distinct rest h.2, sweep_children-Fresh k rest h.0)

  find-sweep_children :
      (k : Name) (ch : Nodes)
      → NodesDistinct ch
      → find k (sweep_children expire now ch)
        ≡ elim (find k ch) [ none ↦ none | some n ↦ if stays expire now n then some n else none ]
  unfolding find sweep_children
  find-sweep_children k nil h = refl
  find-sweep_children k (entry j n rest) h = ground (
    arith,
    find-sweep_children k rest h.2,
    find-Fresh k rest,
    ==ₙ_iff j k,
    same_name j k rest h.0,
  )

  stays_live : (n : Node) → is_delete n ≡ false → stays expire now n ≡ true
  unfolding stays
  stays_live n h = ground arith

  mutual
    unfolding start_gc

    pub start_gc-Distinct : (n : Node) → NodeDistinct n → NodeDistinct (start_gc expire now n)
    start_gc-Distinct (file m id size used) h = tt
    start_gc-Distinct (dir m mark children) h =
        sweep_children-Distinct (gc_children expire now children) (gc_children-Distinct children h)

    gc_children-Distinct :
        (ch : Nodes) → NodesDistinct ch → NodesDistinct (gc_children expire now ch)
    gc_children-Distinct nil h = tt
    gc_children-Distinct (entry k n rest) h =
        (gc_children-Fresh k rest h.0, start_gc-Distinct n h.1, gc_children-Distinct rest h.2)

  -- In a tree where no directory has two children of one name, a collection leaves what a client can see as it is:
  -- under every path there is a visible node after it exactly if there was one before, of the same kind and with
  -- the same metadata.
  pub start_gc-live :
      (q : List Name) (n : Node) → NodeDistinct n → live q (start_gc expire now n) ≡ live q n
  unfolding live start_gc
  start_gc-live [] n h = ground (arith, start_gc-meta n)
  start_gc-live (k ∷ q) (file m id size used) h = refl
  start_gc-live (k ∷ q) (dir m mark children) h = elim (Option-cases (find k children)) [
    | inl e ↦ ground (
      arith,
      find-sweep_children k (gc_children expire now children) (gc_children-Distinct children h),
      find-gc_children k children,
    )
    | inr (c, e) ↦ ground (
      arith,
      find-sweep_children k (gc_children expire now children) (gc_children-Distinct children h),
      find-gc_children k children,
      start_gc-live q c (find-Distinct k children c h e),
      start_gc-meta c,
      stays_live (start_gc expire now c),
    )
  ]

  -- Exactly which directories a collection takes away: those that are deleted, whose time has passed, and that
  -- hold no used file directly. The files in their subdirectories are not asked.
  pub start_gc-dir :
      (k : Name) (children : Nodes) (m : Meta) (mark : Bool) (inner : Nodes)
      → NodesDistinct children
      → find k children ≡ some (dir m mark inner)
      → find k (sweep_children expire now (gc_children expire now children)) ≡ (
          if m.deleted && ltb (m.delete_tick + expire) now && not (any_used inner)
          then none
          else some (start_gc expire now (dir m mark inner)))
  unfolding start_gc stays is_used_file is_delete can_clean_up meta_of
  start_gc-dir k children m mark inner h e = ground (
    arith,
    find-sweep_children k (gc_children expire now children) (gc_children-Distinct children h),
    find-gc_children k children,
  )
