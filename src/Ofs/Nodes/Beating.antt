-- ===== src/Ofs/Nodes/Beating.antt =====
-- ofs/master/chunk: which data nodes can be used, and when.
use zookeeper.Prelude.{
  ℕ, ◌+◌, ◌<◌, ◌≡◌, ◌≢◌, arith, List, [], ◌∷◌, none, some, true, if◌then◌else◌, leb, ◌==◌, ◌&&◌,
  not, inl, inr,
}
use zookeeper.Prelude.Eq.{nat_eq}
use zookeeper.Prelude.Map.{lookup, lookup-insert}
use zookeeper.Prelude.Distinct.{contains}
use zookeeper.Ofs.Cluster.{Rack, DataCenter, fits, rack_in, rack_of}
use zookeeper.Ofs.Cluster.Adding.{choose_random-Adds}
use zookeeper.Ofs.Nodes.{
  NodeInfo, DataNode, DataCluster, Registration, hour, is_useable, add_server, add_to_rack,
  add_to_center, register_node, on_register, on_heartbeat, useable_at, front, choose_one,
}

-- The ids in a rack rise.
abbrev pub IsSorted : List ℕ → Type 0
IsSorted [] = Unit {0}
IsSorted (s ∷ []) = Unit {0}
IsSorted (s ∷ t ∷ ss) = (s < t) × IsSorted (t ∷ ss)

-- A registered server stands in its rack, and the rack stays sorted.
pub add_server-IsSorted :
    (id : ℕ) (ss : List ℕ)
    → IsSorted ss
    → IsSorted (add_server id ss) × (contains id (add_server id ss) ≡ true)
unfolding add_server
add_server-IsSorted id [] h = (tt, ground arith)
add_server-IsSorted id (s ∷ []) h = ground arith
add_server-IsSorted id (s ∷ t ∷ ss) h = ground (arith, add_server-IsSorted id (t ∷ ss) h.1)

contains-add_server : (id : ℕ) (ss : List ℕ) → contains id (add_server id ss) ≡ true
unfolding add_server
contains-add_server id [] = ground arith
contains-add_server id (s ∷ ss) = ground (arith, contains-add_server id ss)

rack_in-add_to_rack :
    (id rack : ℕ) (racks : List Rack) → rack_in id (add_to_rack id rack racks) ≢ none
unfolding rack_in add_to_rack
rack_in-add_to_rack id rack [] = ground arith
rack_in-add_to_rack id rack (r ∷ rs) =
    ground (arith, rack_in-add_to_rack id rack rs, contains-add_server id r.chunk_servers)

rack_of-add_to_center :
    (id rack dc : ℕ) (centers : List DataCenter)
    → rack_of id (add_to_center id rack dc centers) ≢ none
unfolding rack_of add_to_center
rack_of-add_to_center id rack dc [] = ground (arith, rack_in-add_to_rack id rack [])
rack_of-add_to_center id rack dc (c ∷ cs) = ground (
  arith,
  rack_in-add_to_rack id rack [],
  rack_in-add_to_rack id rack c.racks,
  rack_of-add_to_center id rack dc cs,
)

register_node-nodes :
    (id rack dc : ℕ) (c : DataCluster) → (register_node id rack dc c).nodes ≡ c.nodes
unfolding register_node
register_node-nodes id rack dc c = ground arith

-- A node that registers for the first time has a rack.
pub on_register-rack :
    (now : ℕ) (req : Registration) (c : DataCluster)
    → lookup req.id c.nodes ≡ none
    → rack_of req.id (on_register now req c).centers ≢ none
unfolding on_register register_node
on_register-rack now req c h =
    ground (arith, rack_of-add_to_center req.id req.rack req.dc c.centers)

-- From its registration on, a node can be used for an hour unless it has reported a fault; the other nodes are as
-- they were.
pub on_register-useable :
    (at now other : ℕ) (req : Registration) (c : DataCluster)
    → useable_at now (on_register at req c) other ≡ (
        if req.id == other
        then not req.info.fault && leb now (at + hour)
        else useable_at now c other)
unfolding useable_at on_register is_useable
on_register-useable at now other req c =
    let n : DataNode = record {
      id = req.id;
      outpost = req.outpost;
      harbor = req.harbor;
      tick = at;
      info = req.info;
    } in
    ground
      (arith, register_node-nodes req.id req.rack req.dc c, lookup-insert other req.id n c.nodes)

-- A heartbeat gives a node another hour, unless it reports a fault; the other nodes are as they were.
pub on_heartbeat-useable :
    (at now id other : ℕ) (info : NodeInfo) (n : DataNode) (c : DataCluster)
    → lookup id c.nodes ≡ some n
    → useable_at now (on_heartbeat at id info c) other
      ≡ (if id == other then not info.fault && leb now (at + hour) else useable_at now c other)
unfolding useable_at on_heartbeat is_useable
on_heartbeat-useable at now id other info n c h =
    ground (arith, h, lookup-insert other id (record n { tick = at; info = info }) c.nodes)

-- The neighbour that is chosen for a node is another one, and can be used.
pub choose_one-useable :
    (rand : List ℕ → ℕ) (now except s : ℕ) (c : DataCluster)
    → choose_one rand now except c ≡ some s
    → (s ≢ except) × (useable_at now c s ≡ true)
unfolding choose_one front fits
choose_one-useable rand now except s c h =
    elim (choose_random-Adds (record { useable = useable_at now c; old = []; except = except ∷ [] })
      rand [] (5 ∷ []) none c.centers) [
        | inl e ↦ absurd (ground (arith, e, h))
        | inr (cs, e, f) ↦ (ground (arith, e, f, h), ground (arith, e, f, h))
      ]
