-- ===== src/Ofs/Tree/Names.antt =====
-- ofs/master/file/Directory.cpp: no directory of the tree has two children of one name.
use zookeeper.Prelude.{
  ℕ, ◌≡◌, refl, subst, arith, none, some, Bool, true, false, Bool-cases, Option-cases, inl, inr,
}
use zookeeper.Prelude.Eq.{Name, ◌==ₙ◌, ==ₙ_iff}
use zookeeper.Ofs.Users.{User}
use zookeeper.Ofs.Tree.{
  ErrorCode, Meta, Node, file, dir, Nodes, nil, entry, meta_of, find, put, with_meta, recover,
  mark_delete, new_node, query_node, create_here, create_node, remove_here, remove,
}
use zookeeper.Ofs.Tree.Paths.{FilePath, here, at, into}

-- No name twice, in any directory of the tree.
abbrev pub Fresh : Name → Nodes → Type 0
Fresh k nil = Unit {0}
Fresh k (entry j n rest) = (j ==ₙ k ≡ false) × Fresh k rest

abbrev mutual
  pub NodeDistinct : Node → Type 0
  NodeDistinct (file m id size used) = Unit {0}
  NodeDistinct (dir m mark children) = NodesDistinct children

  pub NodesDistinct : Nodes → Type 0
  NodesDistinct nil = Unit {0}
  NodesDistinct (entry k n rest) = Fresh k rest × NodeDistinct n × NodesDistinct rest

pub find-Fresh : (k : Name) (ch : Nodes) → Fresh k ch → find k ch ≡ none
unfolding find
find-Fresh k nil h = refl
find-Fresh k (entry j n rest) h = ground (arith, find-Fresh k rest h.1)

-- A child's own name is the only one that finds it.
pub same_name : (j k : Name) (ch : Nodes) → Fresh j ch → j ==ₙ k ≡ true → Fresh k ch
same_name j k ch h e = subst (λ (i : Name). Fresh i ch) ((==ₙ_iff j k).0 e) h

pub find-Distinct :
    (k : Name) (ch : Nodes) (n : Node) → NodesDistinct ch → find k ch ≡ some n → NodeDistinct n
unfolding find
find-Distinct k nil n h e = absurd (cc)
find-Distinct k (entry j c rest) n h e = elim (Bool-cases (j ==ₙ k)) [
  | inl t ↦ subst (λ (i : Node). NodeDistinct i) (ground arith) h.1
  | inr f ↦ find-Distinct k rest n h.2 (ground arith)
]

put-Fresh :
    (k j : Name) (n : Node) (ch : Nodes) → j ==ₙ k ≡ false → Fresh k ch → Fresh k (put j n ch)
unfolding put
put-Fresh k j n nil e h = (e, tt)
put-Fresh k j n (entry i old rest) e h = ground (arith, put-Fresh k j n rest e h.1)

put-Distinct :
    (j : Name) (n : Node) (ch : Nodes)
    → NodeDistinct n
    → NodesDistinct ch
    → NodesDistinct (put j n ch)
unfolding put
put-Distinct j n nil d h = (tt, d, tt)
put-Distinct j n (entry i old rest) d h =
    ground (arith, put-Distinct j n rest d h.2, put-Fresh i j n rest, ==ₙ_iff i j, ==ₙ_iff j i)

with_meta-Distinct : (m : Meta) (n : Node) → NodeDistinct n → NodeDistinct (with_meta m n)
unfolding with_meta
with_meta-Distinct m (file old id size used) h = tt
with_meta-Distinct m (dir old mark children) h = h

query_node-Distinct :
    (fn : Node → ErrorCode × Node) (p : FilePath) (n : Node)
    → ((c : Node) → NodeDistinct c → NodeDistinct (fn c).1)
    → NodeDistinct n
    → NodeDistinct (query_node fn p n).1
unfolding query_node
query_node-Distinct fn here n keep h = keep n h
query_node-Distinct fn (at name) (file m id size used) keep h = tt
query_node-Distinct fn (at name) (dir m mark children) keep h =
    elim (Option-cases (find name children)) [
      | inl e ↦ ground arith
      | inr (child, e) ↦
          let d = find-Distinct name children child h e in
          ground (arith, put-Distinct name (fn child).1 children (keep child d) h)
    ]
query_node-Distinct fn (into name next) (file m id size used) keep h = tt
query_node-Distinct fn (into name next) (dir m mark children) keep h =
    elim (Option-cases (find name children)) [
      | inl e ↦ ground arith
      | inr (child, e) ↦
          let d = find-Distinct name children child h e in
          ground (
            arith,
            put-Distinct name (query_node fn next child).1 children
                (query_node-Distinct fn next child keep d) h,
          )
    ]

new_node-Distinct :
    (user : User) (name : Name) (authority : ℕ) (directory : Bool) (id now : ℕ)
    → NodeDistinct (new_node user name authority directory id now)
unfolding new_node
new_node-Distinct user name authority true id now = tt
new_node-Distinct user name authority false id now = tt

create_here-Distinct :
    (user : User) (name : Name) (authority : ℕ) (directory : Bool) (id now : ℕ) (c : Node)
    → NodeDistinct c
    → NodeDistinct (create_here user name authority directory id now c).1
unfolding create_here recover
create_here-Distinct user name authority directory id now (file m i size used) h = tt
create_here-Distinct user name authority directory id now (dir m mark children) h =
    elim (Option-cases (find name children)) [
      | inl e ↦ ground (
        arith,
        put-Distinct name (new_node user name authority directory id now) children
            (new_node-Distinct user name authority directory id now) h,
      )
      | inr (old, e) ↦ ground (
        arith,
        put-Distinct name (recover old) children
            (with_meta-Distinct (record (meta_of old) { deleted = false }) old
              (find-Distinct name children old h e))
            h,
      )
    ]

remove_here-Distinct :
    (user : User) (now : ℕ) (c : Node) → NodeDistinct c → NodeDistinct (remove_here user now c).1
unfolding remove_here mark_delete
remove_here-Distinct user now c h =
    ground
      (arith, with_meta-Distinct (record (meta_of c) { deleted = true; delete_tick = now }) c h)

-- No creation makes a directory with one name twice.
pub create_node-Distinct :
    (user : User) (p : FilePath) (name : Name) (authority : ℕ) (directory : Bool) (id now : ℕ)
    (root : Node)
    → NodeDistinct root
    → NodeDistinct (create_node user p name authority directory id now root).1
unfolding create_node
create_node-Distinct user p name authority directory id now root h =
    query_node-Distinct (create_here user name authority directory id now) p root
      (create_here-Distinct user name authority directory id now) h

-- Neither does a removal.
pub remove-Distinct :
    (user : User) (now : ℕ) (p : FilePath) (root : Node)
    → NodeDistinct root
    → NodeDistinct (remove user now p root).1
unfolding remove
remove-Distinct user now p root h =
    query_node-Distinct (remove_here user now) p root (remove_here-Distinct user now) h
