-- ===== src/Ofs/Tree.antt =====
-- ofs/master/file: the tree of directories and files, Node, Directory and File.
pub mod Paths
pub mod View
pub mod Removing
pub mod Creating
pub mod Names
pub mod Gc
pub mod Reached
use zookeeper.Prelude.{
  ℕ, ◌+◌, ◌*◌, ◌/◌, ◌%◌, ◌^◌, ◌≡◌, List, [], ◌∷◌, Option, none, some, Bool, true, false,
  if◌then◌else◌, ltb, ◌==◌, ◌&&◌, ◌||◌, not,
}
use zookeeper.Prelude.Eq.{Name, ◌==ₙ◌}
use zookeeper.Ofs.Users.{User}
use zookeeper.Ofs.Tree.Paths.{FilePath, here, at, into}

-- `ErrorCode`
pub data ErrorCode : Type 0 where
  ec_none ec_file_not_eixst ec_file_eixst ec_permission_deny ec_dir_not_empty ec_authority_expire :
      ErrorCode
  ec_is_dir ec_user_or_password_error ec_user_expire ec_is_not_directory : ErrorCode
  ec_already_exist_delete_file ec_out_of_range ec_block_not_ready ec_block_missing : ErrorCode

-- The fields of a Node; `authority` is the pattern of its 16 bits.
pub record Meta : Type 0 where
  pub name : Name
  pub owner : Name
  pub owner_group : Name
  pub authority : ℕ
  pub create_time : ℕ
  pub update_time : ℕ
  pub deleted : Bool
  pub delete_tick : ℕ
  pub root : Bool

-- A file has its id, its size and the number of its users; a directory its mark and its children by name.
mutual
  pub data Node : Type 0 where
    file : Meta → ℕ → ℕ → ℕ → Node
    dir : Meta → Bool → Nodes → Node

  pub data Nodes : Type 0 where
    nil : Nodes
    entry : Name → Node → Nodes → Nodes

unfoldable pub meta_of : Node → Meta
meta_of (file m id size used) = m
meta_of (dir m mark children) = m

unfoldable pub is_dir : Node → Bool
is_dir (file m id size used) = false
is_dir (dir m mark children) = true

unfoldable pub is_delete : Node → Bool
is_delete n = (meta_of n).deleted

unfoldable pub with_meta : Meta → Node → Node
with_meta m (file old id size used) = file m id size used
with_meta m (dir old mark children) = dir m mark children

unfoldable pub mark_delete : ℕ → Node → Node
mark_delete now n = with_meta (record (meta_of n) { deleted = true; delete_tick = now }) n

unfoldable pub recover : Node → Node
recover n = with_meta (record (meta_of n) { deleted = false }) n

-- `authority & (1 << bit)`
unfoldable pub has_bit : ℕ → ℕ → Bool
has_bit bit authority = authority / 2 ^ bit % 2 == 1

unfoldable pub check_authority : User → Bool → Node → Bool
check_authority user read n =
    if user.super
    then true
    else if user.name ==ₙ (meta_of n).owner
    then has_bit (if read then 0 else 1) (meta_of n).authority
    else if user.group ==ₙ (meta_of n).owner_group
    then has_bit (if read then 3 else 4) (meta_of n).authority
    else has_bit (if read then 6 else 7) (meta_of n).authority

-- `_children.find(name)`
unfoldable pub find : Name → Nodes → Option Node
find k nil = none
find k (entry j n rest) = if j ==ₙ k then some n else find k rest

-- `_children[name] = node`, and a change of the child that a pointer names.
unfoldable pub put : Name → Node → Nodes → Nodes
put k n nil = entry k n nil
put k n (entry j old rest) = if j ==ₙ k then entry j n rest else entry j old (put k n rest)

-- What a callback of QueryNode returns, and what it leaves of the node.
unfoldable pub query_node : (Node → ErrorCode × Node) → FilePath → Node → ErrorCode × Node
query_node fn here n = fn n
query_node fn (at name) (file m id size used) = (ec_file_not_eixst, file m id size used)
query_node fn (at name) (dir m mark children) = elim (find name children) [
  | none ↦ (ec_file_not_eixst, dir m mark children)
  | some child ↦
      if is_delete child
      then (ec_file_not_eixst, dir m mark children)
      else ((fn child).0, dir m mark (put name (fn child).1 children))
]
query_node fn (into name next) (file m id size used) = (ec_file_not_eixst, file m id size used)
query_node fn (into name next) (dir m mark children) = elim (find name children) [
  | none ↦ (ec_file_not_eixst, dir m mark children)
  | some child ↦
      let below = query_node fn next child in
      if is_delete child || not (is_dir child)
      then (ec_file_not_eixst, dir m mark children)
      else (below.0, dir m mark (put name below.1 children))
]

-- The node that `new` makes for a user: the id is IdGenerator's.
unfoldable pub new_node : User → Name → ℕ → Bool → ℕ → ℕ → Node
new_node user name authority directory id now =
    let m : Meta = record {
      name = name;
      owner = user.name;
      owner_group = user.group;
      authority = authority;
      create_time = now;
      update_time = now;
      deleted = false;
      delete_tick = 0;
      root = false;
    } in
    if directory then dir m false nil else file m id 0 0

-- Directory::CreateNode of the directory itself, after the check of EC_IS_NOT_DIRECTORY.
unfoldable pub create_here : User → Name → ℕ → Bool → ℕ → ℕ → Node → ErrorCode × Node
create_here user name authority directory id now (file m i size used) =
    (ec_is_not_directory, file m i size used)
create_here user name authority directory id now (dir m mark children) =
    if not (check_authority user false (dir m mark children))
    then (ec_permission_deny, dir m mark children)
    else elim (find name children) [
      | some old ↦
          if is_delete old
          then if directory && not (is_dir old) || not directory && is_dir old
            then (ec_already_exist_delete_file, dir m mark children)
            else (ec_none, dir m mark (put name (recover old) children))
          else (ec_file_eixst, dir m mark children)
      | none ↦
          (ec_none, dir m mark (put name (new_node user name authority directory id now) children))
    ]

unfoldable pub create_node : User → FilePath → Name → ℕ → Bool → ℕ → ℕ → Node → ErrorCode × Node
create_node user path name authority directory id now root =
    query_node (create_here user name authority directory id now) path root

unfoldable pub remove_here : User → ℕ → Node → ErrorCode × Node
remove_here user now n =
    if not (check_authority user true n)
    then (ec_permission_deny, n)
    else if (meta_of n).root
    then (ec_permission_deny, n)
    else (ec_none, mark_delete now n)

unfoldable pub remove : User → ℕ → FilePath → Node → ErrorCode × Node
remove user now path root = query_node (remove_here user now) path root

-- Directory::List of a directory: its children that are not deleted.
unfoldable pub live_children : Nodes → List Node
live_children nil = []
live_children (entry k n rest) =
    let more = live_children rest in if is_delete n then more else n ∷ more

unfoldable pub list_here : Node → List Node
list_here (file m id size used) = file m id size used ∷ []
list_here (dir m mark children) = live_children children
