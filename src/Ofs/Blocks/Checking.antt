-- ===== src/Ofs/Blocks/Checking.antt =====
-- ofs/master/block/Block.cpp, CheckReplica: the replicas that are made and cleaned.
use zookeeper.Prelude.{
  ℕ, ◌+◌, List, [], ◌∷◌, ◌++◌, Option, none, some, Bool, if◌then◌else◌, ltb, ◌==◌, ◌&&◌, not,
  length, get_elem?,
}
use zookeeper.Prelude.Eq.{nat_eq}
use zookeeper.Prelude.Distinct.{contains}
use zookeeper.Ofs.Blocks.{Replica, Block, find_main_replica, replicas_on}

-- The messages to data nodes, with the node that each goes to.
pub data Command : Type 0 where
  clean_block : ℕ → ℕ → Command
  recover_block : ℕ → ℕ → ℕ → ℕ → List ℕ → Command

unfoldable pub is_sound : (ℕ → Bool) → ℕ → Replica → Bool
is_sound useable version r = not r.fault && r.version == version && useable r.server

-- The lists `has` and `except`.
unfoldable pub sound_servers : (ℕ → Bool) → ℕ → List Replica → List ℕ
sound_servers useable version [] = []
sound_servers useable version (r ∷ rs) =
    let rest = sound_servers useable version rs in
    if is_sound useable version r then r.server ∷ rest else rest

unfoldable pub excepted : (ℕ → Bool) → ℕ → List Replica → List ℕ
excepted useable version [] = []
excepted useable version (r ∷ rs) =
    let rest = excepted useable version rs in
    if is_sound useable version r then rest else r.server ∷ rest

unfoldable pub clean_all : ℕ → List ℕ → List Command
clean_all block [] = []
clean_all block (s ∷ ss) = clean_block s block ∷ clean_all block ss

-- The last loop: the servers of the replicas that are among those that SelectUnnecessary returns.
unfoldable pub among : List ℕ → List Replica → List ℕ
among ret [] = []
among ret (r ∷ rs) =
    let rest = among ret rs in if contains r.server ret then r.server ∷ rest else rest

-- `distribute` and `select` are DataNodeService's.
pub record Choices : Type 0 where
  pub block_count : ℕ
  pub interval : ℕ
  pub recover_time : ℕ
  pub distribute : List ℕ → List ℕ → List ℕ
  pub select : List ℕ → List ℕ

-- What follows the first loop, for new servers.
unfoldable pub recovered : ℕ → Choices → ℕ → List ℕ → Block → List Command × Block
recovered main ch now [] b = ([], b)
recovered main ch now (s ∷ ss) b = (
  recover_block main b.id b.version (now + ch.recover_time) (s ∷ ss) ∷ [],
  record b {
    recover_lease = now + ch.recover_time;
    chunk_server = b.chunk_server ++ replicas_on (s ∷ ss);
  },
)

unfoldable pub levelled : ℕ → Choices → ℕ → List ℕ → List ℕ → Block → List Command × Block
levelled main ch now has except b =
    if ltb (length has) ch.block_count
    then recovered main ch now (ch.distribute has except) b
    else if ltb ch.block_count (length has)
    then (clean_all b.id (among (ch.select has) b.chunk_server), b)
    else ([], b)

unfoldable pub check_at : (ℕ → Bool) → Choices → ℕ → Option Replica → Block → List Command × Block
check_at useable ch now none b = ([], b)
check_at useable ch now (some main) b =
    let has = sound_servers useable b.version b.chunk_server in
    let except = excepted useable b.version b.chunk_server in
    let more = levelled main.server ch now has except b in
    if ltb now (main.lease_tick + ch.interval)
    then ([], b)
    else (clean_all b.id except ++ more.0, more.1)

unfoldable pub replica_at : List Replica → Option ℕ → Option Replica
replica_at rs none = none
replica_at rs (some i) = get_elem? rs i

unfoldable pub check_replica : (ℕ → Bool) → Choices → ℕ → Block → List Command × Block
check_replica useable ch now b =
    if ltb now b.recover_lease
    then ([], b)
    else check_at useable ch now (replica_at b.chunk_server (find_main_replica useable now b)) b

-- The servers that BrocastCleanUp writes to.
abbrev pub servers_of : List Replica → List ℕ
servers_of [] = []
servers_of (r ∷ rs) = r.server ∷ servers_of rs
