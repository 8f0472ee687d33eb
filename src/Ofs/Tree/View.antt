-- ===== src/Ofs/Tree/View.antt =====
-- ofs/master/file/Directory.cpp: what a client can see of the tree, as a function of names.
use zookeeper.Prelude.{
  ◌≡◌, refl, arith, List, [], ◌∷◌, ◌++◌, Option, none, some, Bool, true, false, if◌then◌else◌, not,
  ◌&&◌, ◌||◌, ◌≢◌, Option-cases, inl, inr,
}
use zookeeper.Prelude.Eq.{Name, ◌==ₙ◌, ==ₙ_iff}
use zookeeper.Ofs.Tree.{
  ErrorCode, ec_none, ec_file_not_eixst, Meta, Node, file, dir, Nodes, nil, entry, meta_of, is_dir,
  is_delete, find, put, query_node,
}
use zookeeper.Ofs.Tree.Paths.{FilePath, here, at, into}

-- The node that QueryNode calls back for, if it does.
unfoldable pub reach : FilePath → Node → Option Node
reach here n = some n
reach (at name) (file m id size used) = none
reach (at name) (dir m mark children) = elim (find name children) [
  | none ↦ none
  | some child ↦ if is_delete child then none else some child
]
reach (into name next) (file m id size used) = none
reach (into name next) (dir m mark children) = elim (find name children) [
  | none ↦ none
  | some child ↦
      let below = reach next child in if is_delete child || not (is_dir child) then none else below
]

abbrev pub names : FilePath → List Name
names here = []
names (at name) = name ∷ []
names (into name next) = name ∷ names next

-- What is at a list of names: the fields, and whether it is a directory. A deleted node hides all below it.
unfoldable pub live : List Name → Node → Option (Meta × Bool)
live [] n = some (meta_of n, is_dir n)
live (name ∷ more) (file m id size used) = none
live (name ∷ more) (dir m mark children) = elim (find name children) [
  | none ↦ none
  | some child ↦ let below = live more child in if is_delete child then none else below
]

unfoldable pub begins : List Name → List Name → Bool
begins [] q = true
begins (p ∷ ps) [] = false
begins (p ∷ ps) (q ∷ qs) = p ==ₙ q && begins ps qs

-- The directory itself is not looked up in a parent.
abbrev pub is_here : List Name → Bool
is_here [] = true
is_here (p ∷ ps) = false

pub find-put :
    (k j : Name) (n : Node) (children : Nodes)
    → find k (put j n children) ≡ (if j ==ₙ k then some n else find k children)
unfolding find put
find-put k j n nil = refl
find-put k j n (entry i old rest) =
    ground (arith, ==ₙ_iff j k, ==ₙ_iff i k, ==ₙ_iff i j, find-put k j n rest)

-- Writing a child back changes nothing.
pub put_same :
    (k : Name) (n : Node) (children : Nodes)
    → find k children ≡ some n
    → put k n children ≡ children
unfolding find put
put_same k n nil h = absurd (cc)
put_same k n (entry i old rest) h = ground (arith, put_same k n rest)

-- A query whose path leads nowhere is refused, and changes nothing.
pub query_node-unreached :
    (fn : Node → ErrorCode × Node) (p : FilePath) (n : Node)
    → reach p n ≡ none
    → query_node fn p n ≡ (ec_file_not_eixst, n)
unfolding reach query_node
query_node-unreached fn here n h = absurd (cc)
query_node-unreached fn (at name) (file m id size used) h = refl
query_node-unreached fn (at name) (dir m mark children) h = ground arith
query_node-unreached fn (into name next) (file m id size used) h = refl
query_node-unreached fn (into name next) (dir m mark children) h =
    elim (Option-cases (find name children)) [
      | inl e ↦ ground arith
      | inr (child, e) ↦
          ground (arith, query_node-unreached fn next child, put_same name child children e)
    ]

-- A query returns what its callback returns for the node that it reaches.
pub query_node-code :
    (fn : Node → ErrorCode × Node) (p : FilePath) (n c : Node)
    → reach p n ≡ some c
    → (query_node fn p n).0 ≡ (fn c).0
unfolding reach query_node
query_node-code fn here n c h = ground (arith)
query_node-code fn (at name) (file m id size used) c h = absurd (cc)
query_node-code fn (at name) (dir m mark children) c h = ground arith
query_node-code fn (into name next) (file m id size used) c h = absurd (cc)
query_node-code fn (into name next) (dir m mark children) c h =
    elim (Option-cases (find name children)) [
      | inl e ↦ ground arith
      | inr (child, e) ↦ ground (arith, query_node-code fn next child c)
    ]

-- A query below a node leaves that node's own fields.
pub query_node-meta :
    (fn : Node → ErrorCode × Node) (p : FilePath) (n : Node)
    → is_here (names p) ≡ false
    → (meta_of (query_node fn p n).1 ≡ meta_of n) × (is_dir (query_node fn p n).1 ≡ is_dir n)
unfolding query_node meta_of is_dir
query_node-meta fn here n h = absurd (cc)
query_node-meta fn (at name) (file m id size used) h = (refl, refl)
query_node-meta fn (at name) (dir m mark children) h = ground arith
query_node-meta fn (into name next) (file m id size used) h = (refl, refl)
query_node-meta fn (into name next) (dir m mark children) h = ground arith

pub query_node-here :
    (fn : Node → ErrorCode × Node) (p : FilePath) (n : Node)
    → is_here (names p) ≡ true
    → (query_node fn p n ≡ fn n) × (reach p n ≡ some n)
unfolding query_node reach
query_node-here fn here n h = (refl, refl)
query_node-here fn (at name) n h = absurd (cc)
query_node-here fn (into name next) n h = absurd (cc)

begins-here : (p q : List Name) → is_here p ≡ true → begins p q ≡ true
unfolding begins
begins-here [] q h = refl
begins-here (k ∷ p) q h = absurd (cc)

-- What is not at the path nor below it stays as it is.
pub query_node-apart :
    (fn : Node → ErrorCode × Node) (p : FilePath) (q : List Name) (n : Node)
    → begins (names p) q ≡ false
    → live q (query_node fn p n).1 ≡ live q n
unfolding query_node begins live meta_of is_dir is_delete
query_node-apart fn here q n h = absurd (cc)
query_node-apart fn (at name) q (file m id size used) h = refl
query_node-apart fn (at name) [] (dir m mark children) h = ground arith
query_node-apart fn (at name) (k ∷ ks) (dir m mark children) h =
    elim (Option-cases (find name children)) [
      | inl e ↦ ground arith
      | inr (child, e) ↦ ground (arith, find-put k name (fn child).1 children)
    ]
query_node-apart fn (into name next) q (file m id size used) h = refl
query_node-apart fn (into name next) [] (dir m mark children) h = ground arith
query_node-apart fn (into name next) (k ∷ ks) (dir m mark children) h =
    elim (Option-cases (find name children)) [
      | inl e ↦ ground arith
      | inr (child, e) ↦ ground (
        arith,
        find-put k name (query_node fn next child).1 children,
        query_node-apart fn next ks child,
        query_node-meta fn next child,
        begins-here (names next) ks,
        ==ₙ_iff name k,
      )
    ]

-- At the path and below it there is what the callback left.
pub query_node-below :
    (fn : Node → ErrorCode × Node) (p : FilePath) (r : List Name) (n c : Node)
    → reach p n ≡ some c
    → live (names p ++ r) (query_node fn p n).1
      ≡ (if not (is_here (names p)) && is_delete (fn c).1 then none else live r (fn c).1)
unfolding query_node reach live is_delete is_dir
query_node-below fn here r n c h = ground arith
query_node-below fn (at name) r (file m id size used) c h = absurd (cc)
query_node-below fn (at name) r (dir m mark children) c h =
    elim (Option-cases (find name children)) [
      | inl e ↦ ground arith
      | inr (child, e) ↦ ground (arith, find-put name name (fn child).1 children, ==ₙ_iff name name)
    ]
query_node-below fn (into name next) r (file m id size used) c h = absurd (cc)
query_node-below fn (into name next) r (dir m mark children) c h =
    elim (Option-cases (find name children)) [
      | inl e ↦ ground arith
      | inr (child, e) ↦ ground (
        arith,
        find-put name name (query_node fn next child).1 children,
        query_node-below fn next r child c,
        query_node-meta fn next child,
        query_node-here fn next child,
        ==ₙ_iff name name,
      )
    ]

-- A node that is reached by name is not deleted.
pub reach-live :
    (p : FilePath) (n c : Node)
    → reach p n ≡ some c
    → is_here (names p) ≡ false
    → is_delete c ≡ false
unfolding reach query_node
reach-live here n c h k = absurd (cc)
reach-live (at name) (file m id size used) c h k = absurd (cc)
reach-live (at name) (dir m mark children) c h k = ground arith
reach-live (into name next) (file m id size used) c h k = absurd (cc)
reach-live (into name next) (dir m mark children) c h k = elim (Option-cases (find name children)) [
  | inl e ↦ ground arith
  | inr (child, e) ↦
      ground (arith, reach-live next child c, query_node-here (λ n. (ec_none, n)) next child)
]

-- Below a node that is reached there is what is below that node.
pub live_below :
    (p : FilePath) (r : List Name) (n c : Node)
    → reach p n ≡ some c
    → live (names p ++ r) n ≡ live r c
unfolding reach live
live_below here r n c h = ground arith
live_below (at name) r (file m id size used) c h = absurd (cc)
live_below (at name) r (dir m mark children) c h = ground arith
live_below (into name next) r (file m id size used) c h = absurd (cc)
live_below (into name next) r (dir m mark children) c h = elim (Option-cases (find name children)) [
  | inl e ↦ ground arith
  | inr (child, e) ↦ ground (arith, live_below next r child c)
]

pub begins-split : (p q : List Name) → begins p q ≡ true → (r : List Name) × (q ≡ p ++ r)
unfolding begins
begins-split [] q h = (q, refl)
begins-split (k ∷ p) [] h = absurd (cc)
begins-split (k ∷ p) (j ∷ q) h =
    let rest = begins-split p q (ground arith) in (rest.0, ground (arith, ==ₙ_iff k j, rest.1))

pub begins_prefix : (p r : List Name) → begins p (p ++ r) ≡ true
unfolding begins
begins_prefix [] r = refl
begins_prefix (k ∷ p) r = ground (arith, begins_prefix p r, ==ₙ_iff k k)

-- A path where nothing is seen leads nowhere.
pub reach-none : (p : FilePath) (n : Node) → live (names p ++ []) n ≡ none → reach p n ≡ none
unfolding live
reach-none p n h = elim (Option-cases (reach p n)) [
  | inl e ↦ e
  | inr (c, e) ↦ ground (arith, live_below p [] n c e)
]

pub begins-append : (p q r : List Name) → begins (p ++ q) (p ++ r) ≡ begins q r
unfolding begins
begins-append [] q r = refl
begins-append (k ∷ p) q r = ground (arith, begins-append p q r, ==ₙ_iff k k)

-- A callback that leaves what it refuses makes a query that leaves what it refuses.
pub query_node-refused :
    (fn : Node → ErrorCode × Node) (p : FilePath) (n : Node)
    → ((c : Node) → (fn c).0 ≢ ec_none → (fn c).1 ≡ c)
    → (query_node fn p n).0 ≢ ec_none
    → (query_node fn p n).1 ≡ n
unfolding query_node
query_node-refused fn here n keep h = keep n h
query_node-refused fn (at name) (file m id size used) keep h = refl
query_node-refused fn (at name) (dir m mark children) keep h =
    elim (Option-cases (find name children)) [
      | inl e ↦ ground arith
      | inr (child, e) ↦ ground (arith, keep child, put_same name child children)
    ]
query_node-refused fn (into name next) (file m id size used) keep h = refl
query_node-refused fn (into name next) (dir m mark children) keep h =
    elim (Option-cases (find name children)) [
      | inl e ↦ ground arith
      | inr (child, e) ↦
          ground (arith, query_node-refused fn next child keep, put_same name child children)
    ]
