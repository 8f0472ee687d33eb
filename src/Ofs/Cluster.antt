-- ===== src/Ofs/Cluster.antt =====
-- ofs/master/chunk/cluster/DefaultDataCluster.h and .cpp: racks, data centers, and the choice of servers.
mod Tests
pub mod Ring
pub mod Adding
pub mod Sound
pub mod Selecting
use zookeeper.Prelude.{
  ℕ, zero, suc, ◌+◌, ◌-◌, ◌%◌, ◌≡◌, List, [], ◌∷◌, ◌++◌, Option, none, some, Bool, true, false,
  if◌then◌else◌, ltb, leb, ◌==◌, ◌&&◌, ◌||◌, not, length, get_elem?,
}
use zookeeper.Prelude.Eq.{nat_eq}
use zookeeper.Prelude.Distinct.{contains}

-- A chunk server stands by its id.
pub record Rack : Type 0 where
  pub id : ℕ
  pub chunk_servers : List ℕ

pub record DataCenter : Type 0 where
  pub id : ℕ
  pub racks : List Rack

-- What a choice heeds: the servers that can be used, those that have the block, and those that must not get it.
pub record Wish : Type 0 where
  pub useable : ℕ → Bool
  pub old : List ℕ
  pub except : List ℕ

-- The tests of a server, of which the first that fails passes it over.
unfoldable pub fits : Wish → List ℕ → ℕ → Bool
fits w add cs = not (contains cs w.old || contains cs w.except || contains cs add) && w.useable cs

-- What a call returns, and what it has put behind `add`.
unfoldable pub chosen : Option ℕ → List ℕ → Option ℕ × List ℕ
chosen none add = (none, add)
chosen (some cs) add = (some cs, add ++ (cs ∷ []))

-- The loop of Rack::ChooseChunkServer, with `c` rounds to go.
unfoldable pub rack_from : Wish → List ℕ → List ℕ → ℕ → ℕ → Option ℕ
rack_from w add servers zero r = none
rack_from w add servers (suc c) r =
    let next = suc r % length servers in
    let rest = rack_from w add servers c next in
    elim (get_elem? servers next) [
      | none ↦ none
      | some cs ↦ if fits w add cs then some cs else rest
    ]

-- `rand` is drawn by the place of the call.
unfoldable pub choose_in_rack : (List ℕ → ℕ) → List ℕ → Wish → List ℕ → Rack → Option ℕ × List ℕ
choose_in_rack rand place w add rack =
    chosen
      (if length rack.chunk_servers == 0
        then none
        else rack_from w add rack.chunk_servers (length rack.chunk_servers)
            (rand place % length rack.chunk_servers))
      add

-- One step further, if the rack or data center at the index is the excluded one.
unfoldable pub skip_excluded : Option ℕ → Option ℕ → ℕ → ℕ → ℕ
skip_excluded (some e) (some i) n r = if i == e then suc r % n else r
skip_excluded (some e) none n r = r
skip_excluded none i n r = r

unfoldable pub rack_id_at : List Rack → ℕ → Option ℕ
rack_id_at racks r = elim (get_elem? racks r) [ none ↦ none | some rack ↦ some rack.id ]

-- The loop of DataCenter::ChooseChunkServer.
unfoldable pub center_from :
    (List ℕ → ℕ) → List ℕ → Wish → List ℕ → Option ℕ → List Rack → ℕ → ℕ → Option ℕ × List ℕ
center_from rand place w add exclude racks zero r = (none, add)
center_from rand place w add exclude racks (suc c) r =
    let at = skip_excluded exclude (rack_id_at racks r) (length racks) r in
    let rest = center_from rand place w add exclude racks c (suc at % length racks) in
    elim (get_elem? racks at) [
      | none ↦ (none, add)
      | some rack ↦
          let found = choose_in_rack rand (c ∷ place) w add rack in
          elim found.0 [ none ↦ rest | some cs ↦ found ]
    ]

unfoldable pub choose_in_center :
    (List ℕ → ℕ) → List ℕ → Wish → List ℕ → Option ℕ → DataCenter → Option ℕ × List ℕ
choose_in_center rand place w add exclude center =
    if length center.racks == 0
    then (none, add)
    else center_from rand place w add exclude center.racks (length center.racks)
        (rand place % length center.racks)

unfoldable pub center_id_at : List DataCenter → ℕ → Option ℕ
center_id_at centers r = elim (get_elem? centers r) [ none ↦ none | some center ↦ some center.id ]

-- The loop of ChooseRandomChunkServer.
unfoldable pub random_from :
    (List ℕ → ℕ) → List ℕ → Wish → List ℕ → Option ℕ → List DataCenter → ℕ → ℕ → Option ℕ × List ℕ
random_from rand place w add exclude centers zero r = (none, add)
random_from rand place w add exclude centers (suc c) r =
    let at = skip_excluded exclude (center_id_at centers r) (length centers) r in
    let rest = random_from rand place w add exclude centers c (suc at % length centers) in
    elim (get_elem? centers at) [
      | none ↦ (none, add)
      | some center ↦
          let found = choose_in_center rand (c ∷ place) w add none center in
          elim found.0 [ none ↦ rest | some cs ↦ found ]
    ]

unfoldable pub choose_random :
    (List ℕ → ℕ) → List ℕ → Wish → List ℕ → Option ℕ → List DataCenter → Option ℕ × List ℕ
choose_random rand place w add exclude centers =
    if length centers == 0
    then (none, add)
    else random_from rand place w add exclude centers (length centers) (rand place % length centers)

-- GetRack: the rack of a server, in the racks of a data center and in all.
unfoldable pub rack_in : ℕ → List Rack → Option Rack
rack_in cs [] = none
rack_in cs (rack ∷ racks) =
    let rest = rack_in cs racks in if contains cs rack.chunk_servers then some rack else rest

unfoldable pub rack_of : ℕ → List DataCenter → Option (DataCenter × Rack)
rack_of cs [] = none
rack_of cs (center ∷ centers) =
    let rest = rack_of cs centers in
    elim (rack_in cs center.racks) [ none ↦ rest | some rack ↦ some (center, rack) ]

unfoldable pub choose_local : (List ℕ → ℕ) → Wish → List ℕ → List DataCenter → Option ℕ × List ℕ
choose_local rand w add centers = elim w.old [
  | [] ↦ choose_random rand (0 ∷ []) w add none centers
  | first ∷ more ↦ (some first, add)
]

-- Two servers' racks are one: the same rack of the same data center.
unfoldable pub same_rack : List DataCenter → ℕ → ℕ → Bool
same_rack centers a b = elim (rack_of a centers) [
  | none ↦ false
  | some (c, r) ↦ elim (rack_of b centers) [
    | none ↦ false
    | some (d, s) ↦ c.id == d.id && r.id == s.id
  ]
]

unfoldable pub other_rack : List DataCenter → ℕ → List ℕ → Option ℕ
other_rack centers base [] = none
other_rack centers base (cs ∷ more) =
    let rest = other_rack centers base more in if same_rack centers cs base then rest else some cs

unfoldable pub in_rack_of :
    (List ℕ → ℕ) → List ℕ → Wish → List ℕ → ℕ → List DataCenter → Option ℕ × List ℕ
in_rack_of rand place w add base centers = elim (rack_of base centers) [
  | none ↦ (none, add)
  | some (center, rack) ↦ choose_in_rack rand place w add rack
]

unfoldable pub choose_local_rack :
    (List ℕ → ℕ) → ℕ → Wish → List ℕ → ℕ → List DataCenter → Option ℕ × List ℕ
choose_local_rack rand block_count w add base centers = elim w.old [
  | [] ↦ in_rack_of rand (3 ∷ []) w add base centers
  | first ∷ more ↦ elim (other_rack centers base more) [
    | some cs ↦ (some cs, add)
    | none ↦
        if ltb 1 (length w.old) && leb block_count (length w.old + length add)
        then (none, add)
        else in_rack_of rand (3 ∷ []) w add base centers
  ]
]

unfoldable pub choose_remote_rack :
    (List ℕ → ℕ) → Wish → List ℕ → ℕ → List DataCenter → Option ℕ × List ℕ
choose_remote_rack rand w add base centers = elim (rack_of base centers) [
  | none ↦ (none, add)
  | some (center, rack) ↦
      let found = choose_in_center rand (1 ∷ []) w add (some rack.id) center in
      elim found.0 [
        | some cs ↦ found
        | none ↦ choose_random rand (2 ∷ []) w add (some center.id) centers
      ]
]

-- The last loop of Distribute.
unfoldable pub choose_more : (List ℕ → ℕ) → Wish → List ℕ → ℕ → List DataCenter → List ℕ
choose_more rand w add zero centers = add
choose_more rand w add (suc n) centers =
    let found = choose_random rand (n ∷ 4 ∷ []) w add none centers in
    let rest = choose_more rand w found.1 n centers in
    elim found.0 [ none ↦ found.1 | some cs ↦ rest ]

-- What Distribute does once the second server is chosen, or not.
unfoldable pub after_second : (List ℕ → ℕ) → ℕ → Wish → Option ℕ × List ℕ → List DataCenter → List ℕ
after_second rand block_count w (none, add) centers =
    choose_more rand w add (block_count - 3) centers
after_second rand block_count w (some second, add) centers =
    let third = choose_local_rack rand block_count w add second centers in
    if block_count == 2 then add else choose_more rand w third.1 (block_count - 3) centers

unfoldable pub after_local : (List ℕ → ℕ) → ℕ → Wish → Option ℕ × List ℕ → List DataCenter → List ℕ
after_local rand block_count w (none, add) centers = add
after_local rand block_count w (some local, add) centers =
    if block_count == 1
    then add
    else after_second rand block_count w (choose_remote_rack rand w add local centers) centers

unfoldable pub distribute : (List ℕ → ℕ) → ℕ → Wish → List DataCenter → List ℕ
distribute rand block_count w centers =
    if leb block_count (length w.old)
    then []
    else after_local rand block_count w (choose_local rand w [] centers) centers
