-- ===== src/Ofs/Blocks/Status.antt =====
-- ofs/master/block/Block.cpp: what the reports of the servers do to a block.
use zookeeper.Prelude.{
  ℕ, ◌-◌, ◌%◌, ◌^◌, ◌≤◌, ◌<◌, ◌≡◌, refl, ap, arith, List, [], ◌∷◌, ◌++◌, Bool, true, false, length,
  drop, length-append, length-drop,
}
use zookeeper.Prelude.Eq.{nat_eq}
use zookeeper.Prelude.Distinct.{contains}
use zookeeper.Ofs.Blocks.{
  Replica, replica_on, Block, next_version, readable, read, has_server, set_status, take_status,
  update_replica, report_replica, without_server, remove_if, clear_replica,
}

-- The next version is larger, ends in 32 zero bits, and is still an `int64_t`.
pub next_version-bounds :
    (version : ℕ)
    → version < 2 ^ 63 - 2 ^ 32
    → (version < next_version version)
      × (next_version version % 2 ^ 32 ≡ 0)
      × (next_version version < 2 ^ 63)
unfolding next_version
next_version-bounds version h = (omega arith, omega arith, omega arith)

-- Nothing that a block has learned is lost.
abbrev pub Grows : Block → Block → Type 0
Grows b b' =
    (b.id ≡ b'.id)
    × (b.version ≤ b'.version)
    × (b.expect_version ≤ b'.expect_version)
    × (b.size ≤ b'.size)
    × (length b.chunk_server ≤ length b'.chunk_server)

length-set_status :
    (server version : ℕ) (fault : Bool) (rs : List Replica)
    → length (set_status server version fault rs) ≡ length rs
unfolding set_status
length-set_status server version fault [] = refl
length-set_status server version fault (r ∷ rs) =
    ground (arith, length-set_status server version fault rs)

-- An update and a report let the block's version, its expected version, its size and its number of replicas only
-- grow, and keep the version within the expected one.
pub report_replica-Grows :
    (server version size : ℕ) (fault : Bool) (b : Block)
    → b.version ≤ b.expect_version
    → Grows b (update_replica server version size fault b).1
      × Grows b (report_replica server version size fault b).1
      × ((update_replica server version size fault b).1.version
          ≤ (update_replica server version size fault b).1.expect_version)
      × ((report_replica server version size fault b).1.version
          ≤ (report_replica server version size fault b).1.expect_version)
unfolding update_replica report_replica take_status
report_replica-Grows server version size fault b h = ground (
  arith,
  length-set_status server version fault b.chunk_server,
  length-set_status server version fault (b.chunk_server ++ (replica_on server ∷ [])),
  length-append {0} b.chunk_server (replica_on server ∷ []),
)

set_status-readable :
    (server version : ℕ) (fault : Bool) (rs : List Replica)
    → has_server server rs ≡ true
    → contains server (readable version (set_status server version fault rs)) ≡ true
unfolding set_status readable has_server
set_status-readable server version fault [] h = absurd (cc)
set_status-readable server version fault (r ∷ rs) h =
    ground (arith, set_status-readable server version fault rs)

has_server-append :
    (server : ℕ) (rs : List Replica) → has_server server (rs ++ (replica_on server ∷ [])) ≡ true
unfolding has_server
has_server-append server [] = ground arith
has_server-append server (r ∷ rs) = ground (arith, has_server-append server rs)

-- A server that reports the newest version without a fault is read from then on.
pub report_replica-readable :
    (server version size : ℕ) (b : Block)
    → b.version ≤ version
    → contains server (read (report_replica server version size false b).1) ≡ true
unfolding report_replica read take_status
report_replica-readable server version size b h = ground (
  arith,
  set_status-readable server version false b.chunk_server,
  set_status-readable server version false (b.chunk_server ++ (replica_on server ∷ [])),
  has_server-append server b.chunk_server,
)

-- A server that reports a fault at the block's version is read all the same.
pub report_replica-faulty :
    (server size : ℕ) (b : Block)
    → contains server (read (report_replica server b.version size true b).1) ≡ true
unfolding report_replica read take_status
report_replica-faulty server size b = ground (
  arith,
  set_status-readable server b.version true b.chunk_server,
  set_status-readable server b.version true (b.chunk_server ++ (replica_on server ∷ [])),
  has_server-append server b.chunk_server,
)

length-without_server :
    (server : ℕ) (rs : List Replica) → length (without_server server rs) ≤ length rs
unfolding without_server
length-without_server server [] = omega arith
length-without_server server (r ∷ rs) = ground (arith, length-without_server server rs)

-- Clearing a replica leaves as many replicas as before.
pub length-clear_replica :
    (server : ℕ) (b : Block) → length (clear_replica server b).chunk_server ≡ length b.chunk_server
unfolding clear_replica remove_if
length-clear_replica server b = omega (
  arith,
  length-append {0} (without_server server b.chunk_server)
      (drop (length (without_server server b.chunk_server)) b.chunk_server),
  length-drop {0} (length (without_server server b.chunk_server)) b.chunk_server,
  length-without_server server b.chunk_server,
)

without_server_absent :
    (server : ℕ) (front : List Replica) (r : Replica)
    → has_server server front ≡ false
    → r.server ≡ server
    → (without_server server (front ++ (r ∷ [])) ≡ front)
      × (drop (length front) (front ++ (r ∷ [])) ≡ r ∷ [])
unfolding without_server has_server
without_server_absent server [] r h e = ground arith
without_server_absent server (q ∷ front) r h e =
    ground (arith, without_server_absent server front r)

remove_if-last :
    (server : ℕ) (front : List Replica) (r : Replica) (rs : List Replica)
    → rs ≡ front ++ (r ∷ [])
    → has_server server front ≡ false
    → r.server ≡ server
    → remove_if server rs ≡ rs
unfolding remove_if
remove_if-last server front r rs e h k = ground (arith, without_server_absent server front r h k)

-- Clearing the only replica of a server where it stands last changes nothing: that replica stays.
pub clear_replica-last :
    (server : ℕ) (front : List Replica) (r : Replica) (b : Block)
    → b.chunk_server ≡ front ++ (r ∷ [])
    → has_server server front ≡ false
    → r.server ≡ server
    → clear_replica server b ≡ b
unfolding clear_replica
clear_replica-last server front r b e h k =
    ap (λ (rs : List Replica). record b { chunk_server = rs })
      (remove_if-last server front r b.chunk_server e h k)
