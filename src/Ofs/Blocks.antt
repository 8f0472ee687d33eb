-- ===== src/Ofs/Blocks.antt =====
-- ofs/master/block/Block.h and Block.cpp: the replicas of a block, their versions and the lease to write.
pub mod Lease
pub mod Writing
pub mod Status
pub mod Moving
pub mod Checking
pub mod Spared
use zookeeper.Prelude.{
  ℕ, zero, suc, ◌+◌, ◌-◌, ◌*◌, ◌/◌, ◌%◌, ◌^◌, ◌≡◌, List, [], ◌∷◌, ◌++◌, Option, none, some, Bool,
  true, false, if◌then◌else◌, ltb, leb, ◌==◌, ◌&&◌, ◌||◌, not, length, drop, get_elem?,
}

-- A server stands by its id.
pub record Replica : Type 0 where
  pub server : ℕ
  pub lease_tick : ℕ
  pub version : ℕ
  pub fault : Bool

abbrev pub replica_on : ℕ → Replica
replica_on server = record { server = server; lease_tick = 0; version = 0; fault = false }

pub record Block : Type 0 where
  pub id : ℕ
  pub version : ℕ
  pub expect_version : ℕ
  pub lease : ℕ
  pub size : ℕ
  pub recover_lease : ℕ
  pub chunk_server : List Replica

unfoldable pub next_version : ℕ → ℕ
next_version version = (version / 2 ^ 32 % 2 ^ 32 + 1) * 2 ^ 32 % 2 ^ 64

-- Block::Read: the servers that its callback sees.
unfoldable pub readable : ℕ → List Replica → List ℕ
readable version [] = []
readable version (r ∷ rs) =
    let rest = readable version rs in if r.version == version then r.server ∷ rest else rest

unfoldable pub read : Block → List ℕ
read b = readable b.version b.chunk_server

-- `lower`, once it is set, stays.
unfoldable pub first_of : Option ℕ → ℕ → Option ℕ
first_of none i = some i
first_of (some j) i = some j

-- The loop of FindMainReplica from the replica at `i` on: the index of the replica, `lower` when none has a
-- lease. Behind a main replica the loop only skips.
unfoldable pub find_main : (ℕ → Bool) → ℕ → ℕ → ℕ → Option ℕ → List Replica → Option ℕ
find_main useable now version i lower [] = lower
find_main useable now version i lower (r ∷ rs) =
    let free = if r.version == version && useable r.server then first_of lower i else lower in
    let rest = find_main useable now version (suc i) free rs in
    if r.version == version && ltb now r.lease_tick
    then if useable r.server then some i else none
    else rest

unfoldable pub find_main_replica : (ℕ → Bool) → ℕ → Block → Option ℕ
find_main_replica useable now b = find_main useable now b.version 0 none b.chunk_server

unfoldable pub set_lease : ℕ → ℕ → List Replica → List Replica
set_lease i tick [] = []
set_lease zero tick (r ∷ rs) = record r { lease_tick = tick } ∷ rs
set_lease (suc i) tick (r ∷ rs) = r ∷ set_lease i tick rs

unfoldable pub others : ℕ → List Replica → List ℕ
others server [] = []
others server (r ∷ rs) =
    let rest = others server rs in if r.server == server then rest else r.server ∷ rest

unfoldable pub replicas_on : List ℕ → List Replica
replicas_on [] = []
replicas_on (s ∷ ss) = replica_on s ∷ replicas_on ss

-- `distribute` is DataNodeService's choice of servers for a new block.
unfoldable pub placed : List ℕ → Block → Block
placed distribute b = elim b.chunk_server [
  | [] ↦ record b { chunk_server = replicas_on distribute }
  | r ∷ rs ↦ b
]

-- The lease of the main replica at `i`, whose own lease is `tick`.
unfoldable pub leased : ℕ → ℕ → ℕ → ℕ → Block → Block
leased write_lease now i tick b =
    if leb tick now
    then record b {
      chunk_server = set_lease i (now + write_lease) b.chunk_server;
      lease = now + write_lease;
      expect_version = next_version b.version;
    }
    else b

-- The main replica's server, with the others, and the block afterwards.
unfoldable pub grant : ℕ → ℕ → Option ℕ → Block → Option (ℕ × List ℕ) × Block
grant write_lease now none b = (none, b)
grant write_lease now (some i) b = elim (get_elem? b.chunk_server i) [
  | none ↦ (none, b)
  | some r ↦
      (some (r.server, others r.server b.chunk_server), leased write_lease now i r.lease_tick b)
]

unfoldable pub write : List ℕ → (ℕ → Bool) → ℕ → ℕ → Block → Option (ℕ × List ℕ) × Block
write distribute useable write_lease now b =
    let b' = placed distribute b in grant write_lease now (find_main_replica useable now b') b'

unfoldable pub has_server : ℕ → List Replica → Bool
has_server server [] = false
has_server server (r ∷ rs) = r.server == server || has_server server rs

-- The first replica on a server, changed.
unfoldable pub set_status : ℕ → ℕ → Bool → List Replica → List Replica
set_status server version fault [] = []
set_status server version fault (r ∷ rs) =
    let rest = set_status server version fault rs in
    if r.server == server then record r { version = version; fault = fault } ∷ rs else r ∷ rest

-- What a replica's status does to the block's own: the new size, 0 if it has not grown.
unfoldable pub take_status : ℕ → ℕ → Bool → Block → ℕ × Block
take_status version size fault b = if fault then (0, b) else (
  if ltb b.size size then size else 0,
  record b {
    version = if ltb b.version version then version else b.version;
    expect_version = if ltb b.expect_version version then version else b.expect_version;
    size = if ltb b.size size then size else b.size;
  },
)

unfoldable pub update_replica : ℕ → ℕ → ℕ → Bool → Block → ℕ × Block
update_replica server version size fault b =
    if has_server server b.chunk_server
    then take_status version size fault
        (record b { chunk_server = set_status server version fault b.chunk_server })
    else (0, b)

unfoldable pub report_replica : ℕ → ℕ → ℕ → Bool → Block → ℕ × Block
report_replica server version size fault b =
    let rs =
      if has_server server b.chunk_server
      then b.chunk_server
      else b.chunk_server ++ (replica_on server ∷ []) in
    take_status version size fault (record b { chunk_server = set_status server version fault rs })

unfoldable pub without_server : ℕ → List Replica → List Replica
without_server server [] = []
without_server server (r ∷ rs) =
    let rest = without_server server rs in if r.server == server then rest else r ∷ rest

-- `std::remove_if`: the kept elements come to the front, the places behind them keep what stood there.
unfoldable pub remove_if : ℕ → List Replica → List Replica
remove_if server rs = without_server server rs ++ drop (length (without_server server rs)) rs

unfoldable pub clear_replica : ℕ → Block → Block
clear_replica server b = record b { chunk_server = remove_if server b.chunk_server }
