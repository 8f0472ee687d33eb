-- ===== src/Ofs/Nodes.antt =====
-- ofs/master/chunk/DataNode.h, DataNodeService.cpp and cluster: data nodes register and beat.
pub mod Beating
use zookeeper.Prelude.{
  ℕ, zero, suc, ◌+◌, ◌*◌, ◌≡◌, List, [], ◌∷◌, ◌++◌, Option, none, some, Bool, true, false,
  if◌then◌else◌, ltb, leb, ◌==◌, ◌&&◌, not,
}
use zookeeper.Prelude.Eq.{Name, nat_eq}
use zookeeper.Prelude.Map.{lookup, insert}
use zookeeper.Ofs.Cluster.{Rack, DataCenter, Wish, choose_random}

pub record Address : Type 0 where
  pub host : Name
  pub port : ℕ

pub record NodeInfo : Type 0 where
  pub cpu : ℕ
  pub rss : ℕ
  pub vss : ℕ
  pub disk : ℕ
  pub fault : Bool

pub record DataNode : Type 0 where
  pub id : ℕ
  pub outpost : Address
  pub harbor : Address
  pub tick : ℕ
  pub info : NodeInfo

abbrev pub hour : ℕ
hour = 3600000

unfoldable pub is_useable : ℕ → DataNode → Bool
is_useable now n = not n.info.fault && leb now (n.tick + hour)

-- DefaultDataCluster: the data centers with their racks, and the nodes by their ids.
pub record DataCluster : Type 0 where
  pub centers : List DataCenter
  pub nodes : List (ℕ × DataNode)

-- Rack::Get with `create`: `lower_bound` of a sorted vector is the first element that is not smaller.
unfoldable pub add_server : ℕ → List ℕ → List ℕ
add_server id [] = id ∷ []
add_server id (s ∷ ss) =
    let rest = add_server id ss in
    if ltb s id then s ∷ rest else if s == id then s ∷ ss else id ∷ s ∷ ss

-- DataCenter::Get with `create`, and the server in its rack.
unfoldable pub add_to_rack : ℕ → ℕ → List Rack → List Rack
add_to_rack id rack [] = record { id = rack; chunk_servers = id ∷ [] } ∷ []
add_to_rack id rack (r ∷ rs) =
    let rest = add_to_rack id rack rs in
    if ltb r.id rack
    then r ∷ rest
    else if r.id == rack
    then record r { chunk_servers = add_server id r.chunk_servers } ∷ rs
    else record { id = rack; chunk_servers = id ∷ [] } ∷ r ∷ rs

unfoldable pub add_to_center : ℕ → ℕ → ℕ → List DataCenter → List DataCenter
add_to_center id rack dc [] = record { id = dc; racks = add_to_rack id rack [] } ∷ []
add_to_center id rack dc (c ∷ cs) =
    let rest = add_to_center id rack dc cs in
    if ltb c.id dc
    then c ∷ rest
    else if c.id == dc
    then record c { racks = add_to_rack id rack c.racks } ∷ cs
    else record { id = dc; racks = add_to_rack id rack [] } ∷ c ∷ cs

-- DefaultDataCluster::Register: only a node that is not there yet is put into a rack.
unfoldable pub register_node : ℕ → ℕ → ℕ → DataCluster → DataCluster
register_node id rack dc c = elim (lookup id c.nodes) [
  | some n ↦ c
  | none ↦ record c { centers = add_to_center id rack dc c.centers }
]

pub record Registration : Type 0 where
  pub id : ℕ
  pub rack : ℕ
  pub dc : ℕ
  pub outpost : Address
  pub harbor : Address
  pub info : NodeInfo

-- DataNodeService::OnRegister, up to the choice of a neighbour.
unfoldable pub on_register : ℕ → Registration → DataCluster → DataCluster
on_register now req c =
    let placed = register_node req.id req.rack req.dc c in
    record placed {
      nodes =
          insert req.id
            (record {
              id = req.id;
              outpost = req.outpost;
              harbor = req.harbor;
              tick = now;
              info = req.info;
            })
            placed.nodes;
    }

-- A heartbeat of a node that has registered; the source asserts that it has.
unfoldable pub on_heartbeat : ℕ → ℕ → NodeInfo → DataCluster → DataCluster
on_heartbeat now id info c = elim (lookup id c.nodes) [
  | none ↦ c
  | some n ↦ record c { nodes = insert id (record n { tick = now; info = info }) c.nodes }
]

-- Which servers can be used at a time.
unfoldable pub useable_at : ℕ → DataCluster → ℕ → Bool
useable_at now c id = elim (lookup id c.nodes) [ none ↦ false | some n ↦ is_useable now n ]

unfoldable pub front : List ℕ → Option ℕ
front [] = none
front (s ∷ ss) = some s

-- DefaultDataCluster::ChooseOne: a neighbour for a node.
unfoldable pub choose_one : (List ℕ → ℕ) → ℕ → ℕ → DataCluster → Option ℕ
choose_one rand now except c =
    front
      (choose_random rand (5 ∷ [])
        (record { useable = useable_at now c; old = []; except = except ∷ [] }) [] none c.centers).1
