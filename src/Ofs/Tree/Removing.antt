-- ===== src/Ofs/Tree/Removing.antt =====
-- ofs/master/file/Directory.cpp: what Remove does to the tree that clients see.
use zookeeper.Prelude.{
  ℕ, ◌≡◌, arith, List, [], ◌++◌, none, true, false, if◌then◌else◌, ◌≢◌, Bool-cases, Option-cases,
  inl, inr,
}
use zookeeper.Prelude.Eq.{Name}
use zookeeper.Ofs.Users.{User}
use zookeeper.Ofs.Tree.{
  ec_none, ec_file_not_eixst, Node, file, dir, meta_of, is_delete, with_meta, mark_delete,
  remove_here, remove,
}
use zookeeper.Ofs.Tree.Paths.{FilePath}
use zookeeper.Ofs.Tree.View.{
  reach, names, live, begins, query_node-unreached, query_node-code, query_node-apart,
  query_node-below, query_node-here, query_node-refused, begins-split, begins_prefix, reach-none,
}

pub remove_here-keeps :
    (user : User) (now : ℕ) (c : Node)
    → (remove_here user now c).0 ≢ ec_none
    → (remove_here user now c).1 ≡ c
unfolding remove_here
remove_here-keeps user now c h = ground arith

pub remove_here-marks :
    (user : User) (now : ℕ) (c : Node)
    → (remove_here user now c).0 ≡ ec_none
    → (is_delete (remove_here user now c).1 ≡ true) × ((meta_of c).root ≡ false)
unfolding remove_here is_delete mark_delete with_meta meta_of
remove_here-marks user now (file m id size used) h = ground arith
remove_here-marks user now (dir m mark children) h = ground arith

-- A removal that is refused changes nothing.
pub remove-refused :
    (user : User) (now : ℕ) (p : FilePath) (root : Node)
    → (remove user now p root).0 ≢ ec_none
    → (remove user now p root).1 ≡ root
unfolding remove
remove-refused user now p root h =
    query_node-refused (remove_here user now) p root (remove_here-keeps user now) h

-- A removal that succeeds hides what the path names and all below it, and nothing else.
pub remove-live :
    (user : User) (now : ℕ) (p : FilePath) (q : List Name) (root : Node)
    → (meta_of root).root ≡ true
    → (remove user now p root).0 ≡ ec_none
    → live q (remove user now p root).1 ≡ (if begins (names p) q then none else live q root)
unfolding remove
remove-live user now p q root top h = elim (Bool-cases (begins (names p) q)) [
  | inr b ↦ ground (arith, query_node-apart (remove_here user now) p q root)
  | inl b ↦ elim (Option-cases (reach p root)) [
    | inl e ↦ ground (arith, query_node-unreached (remove_here user now) p root)
    | inr (c, e) ↦
        let split = begins-split (names p) q b in
        ground (
          arith,
          split.1,
          query_node-code (remove_here user now) p root c,
          query_node-below (remove_here user now) p split.0 root c,
          remove_here-marks user now c,
          query_node-here (remove_here user now) p root,
        )
  ]
]

-- What was removed is not found again, by anybody, until it is created anew.
pub remove-again :
    (user other : User) (now later : ℕ) (p : FilePath) (root : Node)
    → (meta_of root).root ≡ true
    → (remove user now p root).0 ≡ ec_none
    → remove other later p (remove user now p root).1
      ≡ (ec_file_not_eixst, (remove user now p root).1)
unfolding remove
remove-again user other now later p root top h =
    query_node-unreached (remove_here other later) p (remove user now p root).1 (
      reach-none p (remove user now p root).1 (
        ground
          (arith, remove-live user now p (names p ++ []) root top h, begins_prefix (names p) [])))
