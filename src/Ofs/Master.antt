-- ===== src/Ofs/Master.antt =====
-- ofs/master/client/ClientService.cpp and chunk/DataNodeService.cpp: the requests of clients and data nodes.
mod Tests
pub mod Requests
pub mod Reports
pub mod Listing
use zookeeper.Prelude.{
  ℕ, zero, suc, ◌+◌, ◌≡◌, List, [], ◌∷◌, ◌++◌, Option, none, some, Bool, true, false, if◌then◌else◌,
  ltb, leb, ◌==◌, ◌&&◌, ◌||◌, not,
}
use zookeeper.Prelude.Eq.{Name, name_eq, nat_eq}
use zookeeper.Prelude.Map.{lookup, insert, erase}
use zookeeper.Ofs.Ids.{block_id, file_id_from_block, index_from_block}
use zookeeper.Ofs.Users.{User, UserManager, acquire, release}
use zookeeper.Ofs.Sizes.{calc_block_count, calc_append_block, calc_file_size, update_size}
use zookeeper.Ofs.Tree.{
  ErrorCode, ec_none, ec_file_not_eixst, ec_user_expire, ec_is_dir, ec_out_of_range,
  ec_block_missing, ec_block_not_ready, Meta, Node, file, dir, Nodes, nil, entry, create_node,
  remove, list_here,
}
use zookeeper.Ofs.Tree.Paths.{FilePath}
use zookeeper.Ofs.Tree.View.{reach}
use zookeeper.Ofs.Blocks.{Block, read, write, update_replica, report_replica, clear_replica}
use zookeeper.Ofs.Blocks.Checking.{Command, clean_block, clean_all, servers_of}

-- The singletons of the master: the users, the root directory, and the blocks by their ids.
pub record Master : Type 0 where
  pub user_manager : UserManager
  pub root : Node
  pub blocks : List (ℕ × Block)
  pub block_size : ℕ

-- A request of a client: the user of its token is held while the request runs.
unfoldable pub as_user : Name → (User → Node → ErrorCode × Node) → Master → ErrorCode × Master
as_user token body m =
    let taken = acquire token m.user_manager in
    elim taken.0 [
      | none ↦ (ec_user_expire, m)
      | some name ↦ elim (lookup name taken.1.users) [
        | none ↦ (ec_user_expire, m)
        | some user ↦
            let done = body user m.root in
            (done.0, record m { user_manager = release name taken.1; root = done.1 })
      ]
    ]

unfoldable pub make_dir : Name → FilePath → Name → ℕ → ℕ → Master → ErrorCode × Master
make_dir token directory name authority now m =
    as_user token (λ user. create_node user directory name authority true 0 now) m

unfoldable pub create : Name → FilePath → Name → ℕ → ℕ → ℕ → Master → ErrorCode × Master
create token directory name authority id now m =
    as_user token (λ user. create_node user directory name authority false id now) m

unfoldable pub remove_file : Name → FilePath → ℕ → Master → ErrorCode × Master
remove_file token path now m = as_user token (λ user. remove user now path) m

-- What Read answers for a node: the block's id and the servers.
unfoldable pub read_here : ℕ → List (ℕ × Block) → ℕ → Node → ErrorCode × Option (ℕ × List ℕ)
read_here block_size blocks index (dir m mark children) = (ec_is_dir, none)
read_here block_size blocks index (file m id size used) =
    if ltb index 1 || ltb (calc_block_count block_size size) index
    then (ec_out_of_range, none)
    else elim (lookup (block_id id index) blocks) [
      | none ↦ (ec_block_missing, none)
      | some b ↦ (ec_none, some (b.id, read b))
    ]

-- The user of the token only has to be there: no authority is checked.
unfoldable pub read_file : Name → FilePath → ℕ → Master → ErrorCode × Option (ℕ × List ℕ)
read_file token path index m = elim (acquire token m.user_manager).0 [
  | none ↦ (ec_user_expire, none)
  | some name ↦ elim (reach path m.root) [
    | none ↦ (ec_file_not_eixst, none)
    | some node ↦ read_here m.block_size m.blocks index node
  ]
]

-- What a client is told of its lease.
pub record Lease : Type 0 where
  pub id : ℕ
  pub until : ℕ
  pub version : ℕ
  pub new_version : ℕ
  pub server : ℕ
  pub chunk_servers : List ℕ

-- The end of Write and of Append, with the block and what Block::Write has answered.
unfoldable pub lease_of : Option (ℕ × List ℕ) → Block → ErrorCode × Option Lease
lease_of none b = (ec_block_not_ready, none)
lease_of (some (server, re)) b = (
  ec_none,
  some (record {
    id = b.id;
    until = b.lease;
    version = b.version;
    new_version = b.expect_version;
    server = server;
    chunk_servers = re;
  }),
)

-- What the clocks, the settings and the cluster give to a Write.
pub record Moment : Type 0 where
  pub distribute : List ℕ
  pub useable : ℕ → Bool
  pub write_lease : ℕ
  pub now : ℕ

unfoldable pub write_block :
    Moment → ℕ → Block → List (ℕ × Block) → (ErrorCode × Option Lease) × List (ℕ × Block)
write_block at id b blocks =
    let written = write at.distribute at.useable at.write_lease at.now b in
    (lease_of written.0 written.1, insert id written.1 blocks)

unfoldable pub write_here :
    Moment → ℕ → List (ℕ × Block) → ℕ → Node → (ErrorCode × Option Lease) × List (ℕ × Block)
write_here at block_size blocks index (dir m mark children) = ((ec_is_dir, none), blocks)
write_here at block_size blocks index (file m id size used) =
    if ltb index 1 || ltb (calc_block_count block_size size) index
    then ((ec_out_of_range, none), blocks)
    else elim (lookup (block_id id index) blocks) [
      | none ↦ ((ec_block_missing, none), blocks)
      | some b ↦ write_block at (block_id id index) b blocks
    ]

abbrev pub new_block : ℕ → Block
new_block id = record {
  id = id;
  version = 0;
  expect_version = 0;
  lease = 0;
  size = 0;
  recover_lease = 0;
  chunk_server = [];
}

-- BlockManager::GetOrCreate.
unfoldable pub get_or_create : ℕ → List (ℕ × Block) → Block
get_or_create id blocks = elim (lookup id blocks) [ none ↦ new_block id | some b ↦ b ]

unfoldable pub append_here :
    Moment → ℕ → List (ℕ × Block) → Node → (ErrorCode × Option Lease) × List (ℕ × Block)
append_here at block_size blocks (dir m mark children) = ((ec_is_dir, none), blocks)
append_here at block_size blocks (file m id size used) =
    let key = block_id id (calc_append_block block_size size) in
    write_block at key (get_or_create key blocks) blocks

-- A request that gets a lease, on the node that the path leads to.
unfoldable pub lease_at :
    Name
    → FilePath
    → (Node → (ErrorCode × Option Lease) × List (ℕ × Block))
    → Master
    → (ErrorCode × Option Lease) × Master
lease_at token path body m = elim (acquire token m.user_manager).0 [
  | none ↦ ((ec_user_expire, none), m)
  | some name ↦ elim (reach path m.root) [
    | none ↦ ((ec_file_not_eixst, none), m)
    | some node ↦ let done = body node in (done.0, record m { blocks = done.1 })
  ]
]

unfoldable pub write_file :
    Moment → Name → FilePath → ℕ → Master → (ErrorCode × Option Lease) × Master
write_file at token path index m = lease_at token path (write_here at m.block_size m.blocks index) m

unfoldable pub append_file : Moment → Name → FilePath → Master → (ErrorCode × Option Lease) × Master
append_file at token path m = lease_at token path (append_here at m.block_size m.blocks) m

-- File::UpdateSize of the file with an id; the ids of the files are different.
unfoldable mutual
  pub grow : ℕ → ℕ → Node → Node
  grow id new (file m i size used) = file m i (if i == id then update_size new size else size) used
  grow id new (dir m mark children) = dir m mark (grow_all id new children)

  pub grow_all : ℕ → ℕ → Nodes → Nodes
  grow_all id new nil = nil
  grow_all id new (entry k n rest) = entry k (grow id new n) (grow_all id new rest)

-- FileSystem::GetFile finds the files of the tree.
unfoldable mutual
  pub has_file : ℕ → Node → Bool
  has_file id (file m i size used) = i == id
  has_file id (dir m mark children) = any_file id children

  pub any_file : ℕ → Nodes → Bool
  any_file id nil = false
  any_file id (entry k n rest) = has_file id n || any_file id rest

-- What a data node says of a block.
pub record BlockStatus : Type 0 where
  pub id : ℕ
  pub version : ℕ
  pub size : ℕ
  pub fault : Bool

-- The end of OnReport and of OnUpdate: the block is stored, and the file grows with it.
unfoldable pub learned : ℕ → ℕ × Block → Master → Master
learned id (new_size, b) m = record m {
  blocks = insert id b m.blocks;
  root =
      if ltb 0 new_size
      then grow (file_id_from_block id) (calc_file_size m.block_size (index_from_block id) new_size)
          m.root
      else m.root;
}

unfoldable pub report_block : ℕ → BlockStatus → Master → List Command × Master
report_block server st m =
    if has_file (file_id_from_block st.id) m.root
    then (
      [],
      learned st.id
          (report_replica server st.version st.size st.fault (get_or_create st.id m.blocks)) m,
    )
    else (clean_block server st.id ∷ [], m)

unfoldable pub on_report : ℕ → List BlockStatus → Master → List Command × Master
on_report server [] m = ([], m)
on_report server (st ∷ sts) m =
    let first = report_block server st m in
    let rest = on_report server sts first.1 in (first.0 ++ rest.0, rest.1)

-- A block whose file is gone is cleaned on all its servers and forgotten.
unfoldable pub on_update : ℕ → BlockStatus → Master → List Command × Master
on_update server st m = elim (lookup st.id m.blocks) [
  | none ↦ ([], m)
  | some b ↦
      if has_file (file_id_from_block st.id) m.root
      then ([], learned st.id (update_replica server st.version st.size st.fault b) m)
      else (clean_all st.id (servers_of b.chunk_server), record m { blocks = erase st.id m.blocks })
]

unfoldable pub on_clean : ℕ → ℕ → Master → Master
on_clean server id m = elim (lookup id m.blocks) [
  | none ↦ m
  | some b ↦ record m { blocks = insert id (clear_replica server b) m.blocks }
]

-- What List and Status tell of a node.
pub record FileInfo : Type 0 where
  pub about : Meta
  pub file_size : ℕ
  pub block_length : ℕ
  pub directory : Bool

unfoldable pub info_of : ℕ → Node → FileInfo
info_of block_size (file m id size used) = record {
  about = m;
  file_size = size;
  block_length = block_size;
  directory = false;
}
info_of block_size (dir m mark children) = record {
  about = m;
  file_size = 0;
  block_length = block_size;
  directory = true;
}

unfoldable pub infos_of : ℕ → List Node → List FileInfo
infos_of block_size [] = []
infos_of block_size (n ∷ ns) = info_of block_size n ∷ infos_of block_size ns

-- A path that leads nowhere lists nothing, and is no error.
unfoldable pub list_files : Name → FilePath → Master → ErrorCode × List FileInfo
list_files token path m = elim (acquire token m.user_manager).0 [
  | none ↦ (ec_user_expire, [])
  | some name ↦ elim (reach path m.root) [
    | none ↦ (ec_none, [])
    | some node ↦ (ec_none, infos_of m.block_size (list_here node))
  ]
]

unfoldable pub status : Name → FilePath → Master → ErrorCode × Option FileInfo
status token path m = elim (acquire token m.user_manager).0 [
  | none ↦ (ec_user_expire, none)
  | some name ↦ elim (reach path m.root) [
    | none ↦ (ec_file_not_eixst, none)
    | some node ↦ (ec_none, some (info_of m.block_size node))
  ]
]
