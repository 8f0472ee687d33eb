-- ===== src/Ofs/Cluster/Tests.antt =====
-- ofs/master/chunk/cluster and block: the theorems at a small cluster.
use zookeeper.Prelude.{ℕ, ◌≡◌, refl, arith, [], ◌∷◌, ◌++◌, some, Bool, true, false, take}
use zookeeper.Ofs.Blocks.{Replica, Block, find_main_replica, find_main, first_of}
use zookeeper.Ofs.Blocks.Checking.{
  Choices, sound_servers, excepted, is_sound, check_replica, check_at, replica_at, clean_all,
  levelled, recovered,
}
use zookeeper.Prelude.Eq.{nat_eq}
use zookeeper.Ofs.Blocks.Spared.{told, check_replica-spares}
use zookeeper.Ofs.Cluster.{Rack, DataCenter, Wish, fits, choose_in_rack, distribute}
use zookeeper.Ofs.Cluster.Ring.{choose_in_rack-finds}
use zookeeper.Ofs.Cluster.Adding.{IsGiven}
use zookeeper.Ofs.Cluster.Sound.{distribute-IsGiven}

abbrev rack : Rack
rack = record { id = 1; chunk_servers = 1 ∷ 2 ∷ 3 ∷ [] }

abbrev center : DataCenter
center = record { id = 1; racks = rack ∷ [] }

abbrev wish : Wish
wish = record { useable = λ s. true; old = 1 ∷ []; except = [] }

choose_in_rack-finds_example :
    (found : ℕ) × (choose_in_rack (λ place. 5) [] wish [] rack ≡ (some found, [] ++ (found ∷ [])))
    × (fits wish [] found ≡ true)
unfolding fits
choose_in_rack-finds_example = choose_in_rack-finds (λ place. 5) [] wish [] rack 1 2 refl refl

distribute-IsGiven_example : IsGiven wish 3 (distribute (λ place. 5) 3 wish (center ∷ []))
distribute-IsGiven_example = distribute-IsGiven wish (λ place. 5) (center ∷ []) 3

abbrev replica : ℕ → Bool → Replica
replica server fault = record { server = server; lease_tick = 0; version = 4; fault = fault }

abbrev block : Block
block = record {
  id = 9;
  version = 4;
  expect_version = 4;
  lease = 0;
  size = 10;
  recover_lease = 0;
  chunk_server = replica 1 false ∷ replica 2 true ∷ replica 3 false ∷ [];
}

abbrev choices : ℕ → Choices
choices count = record {
  block_count = count;
  interval = 10;
  recover_time = 30;
  distribute = λ has except. 7 ∷ [];
  select = λ has. take count has;
}

check_replica-spares_example : told 3 (check_replica (λ s. true) (choices 3) 60 block).0 ≡ false
unfolding sound_servers is_sound
check_replica-spares_example =
    check_replica-spares (λ s. true) (choices 3) 60 3 block (refl, (refl, (refl, tt))) (omega arith)
      refl

-- Two replicas on server 3, of which one has missed a write: its server is told to clean the block.
stale_copy-cleaned :
    told 3
      (check_replica
        (λ s. true)
        (choices 3)
        60
        (record block {
          chunk_server =
              replica 2 false ∷ replica 3 false ∷ record (replica 3 false) { version = 3 } ∷ [];
        })).0
    ≡ true
unfolding check_replica check_at replica_at find_main_replica find_main first_of clean_all excepted
    sound_servers is_sound levelled recovered
stale_copy-cleaned = refl
