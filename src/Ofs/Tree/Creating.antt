-- ===== src/Ofs/Tree/Creating.antt =====
-- ofs/master/file/Directory.cpp: what CreateNode does to the tree that clients see.
use zookeeper.Prelude.{
  ℕ, ◌≡◌, refl, ap, arith, List, [], ◌∷◌, ◌++◌, none, some, Bool, true, false, if◌then◌else◌, ◌≢◌,
  Option-cases, inl, inr,
}
use zookeeper.Prelude.Eq.{Name, ◌==ₙ◌, ==ₙ_iff}
use zookeeper.Ofs.Users.{User}
use zookeeper.Ofs.Tree.{
  ec_none, Meta, Node, file, dir, Nodes, meta_of, is_dir, is_delete, with_meta, recover,
  check_authority, find, put, new_node, create_here, create_node,
}
use zookeeper.Ofs.Tree.Paths.{FilePath}
use zookeeper.Ofs.Tree.View.{
  reach, names, live, query_node-unreached, query_node-code, query_node-below, query_node-refused,
  reach-live, find-put,
}

live-put :
    (k j : Name) (r : List Name) (m : Meta) (mark : Bool) (n : Node) (children : Nodes)
    → live (k ∷ r) (dir m mark (put j n children)) ≡ (
        if j ==ₙ k
        then if is_delete n then none else live r n
        else live (k ∷ r) (dir m mark children))
unfolding live
live-put k j r m mark n children = ground (arith, find-put k j n children)

recover-kept : (n : Node) → (is_delete (recover n) ≡ false) × (is_dir (recover n) ≡ is_dir n)
unfolding recover with_meta is_delete is_dir meta_of
recover-kept (file m id size used) = (refl, refl)
recover-kept (dir m mark children) = (refl, refl)

recover-meta : (n : Node) → meta_of (recover n) ≡ record (meta_of n) { deleted = false }
unfolding recover with_meta meta_of
recover-meta (file m id size used) = refl
recover-meta (dir m mark children) = refl

new_node-kind :
    (user : User) (name : Name) (authority : ℕ) (directory : Bool) (id now : ℕ)
    → (is_delete (new_node user name authority directory id now) ≡ false)
      × (is_dir (new_node user name authority directory id now) ≡ directory)
unfolding new_node is_delete is_dir meta_of
new_node-kind user name authority true id now = (refl, refl)
new_node-kind user name authority false id now = (refl, refl)

live_self : (n : Node) → live [] n ≡ some (meta_of n, is_dir n)
unfolding live
live_self n = refl

is_delete-meta : (a b : Node) → meta_of b ≡ meta_of a → is_delete b ≡ is_delete a
unfolding is_delete
is_delete-meta a b h = ap (λ (m : Meta). m.deleted) h

module _ (user : User) (name : Name) (authority : ℕ) (directory : Bool) (id now : ℕ) where
  create_here-keeps :
      (c : Node)
      → (create_here user name authority directory id now c).0 ≢ ec_none
      → (create_here user name authority directory id now c).1 ≡ c
  unfolding create_here
  create_here-keeps (file m i size used) h = refl
  create_here-keeps (dir m mark children) h = ground arith

  pub create_here-meta :
      (c : Node) → meta_of (create_here user name authority directory id now c).1 ≡ meta_of c
  unfolding create_here meta_of
  create_here-meta (file m i size used) = refl
  create_here-meta (dir m mark children) = ground arith

  -- What stands in the directory under the new name afterwards, and under the others.
  create_here-live :
      (c : Node)
      → (create_here user name authority directory id now c).0 ≡ ec_none
      → (m : Meta) × (live (name ∷ []) (create_here user name authority directory id now c).1
          ≡ some (m, directory))
  unfolding create_here
  create_here-live (file m i size used) h = absurd (cc)
  create_here-live (dir m mark children) h = elim (Option-cases (find name children)) [
    | inl e ↦ (
      meta_of (new_node user name authority directory id now),
      ground (
        arith,
        live-put name name [] m mark (new_node user name authority directory id now) children,
        new_node-kind user name authority directory id now,
        live_self (new_node user name authority directory id now),
        ==ₙ_iff name name,
      ),
    )
    | inr (old, e) ↦ (
      meta_of (recover old),
      ground (
        arith,
        live-put name name [] m mark (recover old) children,
        recover-kept old,
        live_self (recover old),
        ==ₙ_iff name name,
      ),
    )
  ]

  create_here-recovers :
      (m : Meta) (mark : Bool) (children : Nodes) (old : Node)
      → find name children ≡ some old
      → is_delete old ≡ true
      → is_dir old ≡ directory
      → check_authority user false (dir m mark children) ≡ true
      → create_here user name authority directory id now (dir m mark children)
        ≡ (ec_none, dir m mark (put name (recover old) children))
  unfolding create_here
  create_here-recovers m mark children old f d k a = ground arith

  module _ (p : FilePath) (root : Node) where
    -- A creation that succeeds has found a directory, and a node of the asked kind then stands where the path and
    -- the name say.
    pub create_node-live :
        (create_node user p name authority directory id now root).0 ≡ ec_none
        → (m : Meta) × (live
              (names p ++ (name ∷ []))
              (create_node user p name authority directory id now root).1
            ≡ some (m, directory))
    unfolding create_node
    create_node-live h = elim (Option-cases (reach p root)) [
      | inl e ↦ absurd (
          ground
            (arith, query_node-unreached (create_here user name authority directory id now) p root))
      | inr (c, e) ↦
          let code =
            query_node-code (create_here user name authority directory id now) p root c e in
          let made = create_here-live c (ground (arith, code)) in
          (
            made.0,
            ground (
              arith,
              query_node-below (create_here user name authority directory id now) p (name ∷ []) root
                  c e,
              reach-live p root c,
              create_here-meta c,
              is_delete-meta c (create_here user name authority directory id now c).1,
              made.1,
            ),
          )
    ]

    -- A creation that is refused changes nothing.
    pub create_node-refused :
        (create_node user p name authority directory id now root).0 ≢ ec_none
        → (create_node user p name authority directory id now root).1 ≡ root
    unfolding create_node
    create_node-refused h =
        query_node-refused (create_here user name authority directory id now) p root
          create_here-keeps h

    -- A creation under the name of a deleted node of the same kind brings that node back as it was, its owner,
    -- group and authority included, whatever the creation asks for.
    pub create_node-recovers :
        (m : Meta) (mark : Bool) (children : Nodes) (old : Node)
        → reach p root ≡ some (dir m mark children)
        → find name children ≡ some old
        → is_delete old ≡ true
        → is_dir old ≡ directory
        → check_authority user false (dir m mark children) ≡ true
        → live (names p ++ (name ∷ [])) (create_node user p name authority directory id now root).1
          ≡ some (record (meta_of old) { deleted = false }, directory)
    unfolding create_node
    create_node-recovers m mark children old e f d k a = ground (
      arith,
      query_node-below (create_here user name authority directory id now) p (name ∷ []) root
          (dir m mark children) e,
      reach-live p root (dir m mark children),
      create_here-meta (dir m mark children),
      is_delete-meta (dir m mark children)
          (create_here user name authority directory id now (dir m mark children)).1,
      create_here-recovers m mark children old f d k a,
      live-put name name [] m mark (recover old) children,
      recover-kept old,
      recover-meta old,
      live_self (recover old),
      ==ₙ_iff name name,
    )
