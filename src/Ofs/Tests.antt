-- ===== src/Ofs/Tests.antt =====
-- ofs/master: the theorems at concrete users, trees, logins and blocks.
use zookeeper.Prelude.{
  ℕ, ◌+◌, ◌≤◌, ◌≡◌, refl, arith, List, [], ◌∷◌, ◌++◌, none, some, Bool, true, false, if◌then◌else◌,
  length,
}
use zookeeper.Prelude.Eq.{Name}
use zookeeper.Ofs.Ids.{tick_from_id, tick_from_timestamp, generate_ids}
use zookeeper.Ofs.Ids.Unique.{Rises, generate_ids-Rises, generate_ids-returns}
use zookeeper.Ofs.Users.{User, UserManager, login}
use zookeeper.Ofs.Users.Tokens.{seed_after, login-empty}
use zookeeper.Ofs.Users.References.{Covers}
use zookeeper.Ofs.Users.Held.{started, logged_in, Reached-Covers}
use zookeeper.Ofs.Tree.{
  Meta, Node, file, dir, Nodes, nil, entry, create_node, create_here, remove, remove_here,
  query_node, check_authority, find, meta_of, is_delete, is_dir,
}
use zookeeper.Ofs.Tree.Paths.{at, into, path_of}
use zookeeper.Ofs.Tree.Paths.Text.{text_of, path_of_roundtrip}
use zookeeper.Ofs.Tree.View.{live, begins, names}
use zookeeper.Ofs.Tree.Removing.{remove-live}
use zookeeper.Ofs.Tree.Creating.{create_node-live}
use zookeeper.Ofs.Tree.Gc.{start_gc, start_gc-live}
use zookeeper.Ofs.Tree.Reached.{Reached as Trees}
use zookeeper.Ofs.Blocks.{
  Replica, Block, write, placed, find_main_replica, find_main, first_of, grant, leased, set_lease,
  others, update_replica, report_replica,
}
use zookeeper.Ofs.Blocks.Lease.{holds}
use zookeeper.Ofs.Blocks.Writing.{write-steady}
use zookeeper.Ofs.Blocks.Status.{Grows, report_replica-Grows}

-- A second of the clock, at three readings: two in it and one behind it.
abbrev now : ℕ
now = 1500000000000

abbrev clock : List ℕ
clock = now ∷ now ∷ (now + 1000) ∷ []

abbrev first_id : ℕ
first_id = 3221225472000000000

generate_ids-Rises_example : Rises first_id (generate_ids first_id clock)
generate_ids-Rises_example = generate_ids-Rises first_id clock (omega arith) (omega arith)

generate_ids-returns_example : 1 ≤ length (generate_ids first_id clock)
unfolding tick_from_id tick_from_timestamp
generate_ids-returns_example = generate_ids-returns first_id clock 2 (now + 1000) refl (omega arith)

abbrev admin : User
admin = record { name = 97 ∷ []; group = 97 ∷ []; password = []; super = true; count = 0 }

abbrev guest : User
guest = record { name = 103 ∷ []; group = 103 ∷ []; password = []; super = false; count = 0 }

-- A directory d, and in it a file f.
abbrev meta : Name → Bool → Bool → Meta
meta name deleted root = record {
  name = name;
  owner = 97 ∷ [];
  owner_group = 97 ∷ [];
  authority = 75;
  create_time = 1;
  update_time = 1;
  deleted = deleted;
  delete_tick = 1;
  root = root;
}

abbrev d : Name
d = 100 ∷ []

abbrev f : Name
f = 102 ∷ []

abbrev tree : Bool → Node
tree deleted =
    dir (meta [] false true) false (
      entry d (dir (meta d deleted false) false (entry f (file (meta f true false) 1 0 1) nil)) nil)

remove-live_example :
    live (d ∷ f ∷ []) (remove admin 5 (at d) (tree false)).1
    ≡ (if begins (names (at d)) (d ∷ f ∷ []) then none else live (d ∷ f ∷ []) (tree false))
unfolding remove remove_here query_node check_authority find is_delete meta_of
remove-live_example = remove-live admin 5 (at d) (d ∷ f ∷ []) (tree false) refl refl

create_node-live_example :
    (m : Meta) × (live
        (names (at d) ++ (f ∷ []))
        (create_node admin (at d) f 75 false 2 9 (tree false)).1
      ≡ some (m, false))
unfolding create_node create_here query_node check_authority find is_delete meta_of is_dir
create_node-live_example = create_node-live admin f 75 false 2 9 (at d) (tree false) refl

start_gc-live_example : live (d ∷ []) (start_gc 10 90 (tree false)) ≡ live (d ∷ []) (tree false)
start_gc-live_example = start_gc-live 10 90 (d ∷ []) (tree false) (tt, (tt, tt, tt), tt)

abbrev children : Nodes
children =
    entry d (dir (meta d true false) false (entry f (file (meta f true false) 1 0 0) nil)) nil

path_of_roundtrip_example : path_of (text_of (into d (at f))) ≡ into d (at f)
path_of_roundtrip_example = path_of_roundtrip (into d (at f)) (refl, refl)

abbrev one_user : UserManager
one_user = record { users = (d, guest) ∷ []; auths = []; expire = 100; seed = 7 }

Reached-Covers_example : Covers (login d [] 1 one_user).1.auths [] (login d [] 1 one_user).1.users
Reached-Covers_example =
    Reached-Covers (login d [] 1 one_user).1 []
      (logged_in one_user (login d [] 1 one_user).1 [] d [] 1 (started one_user refl) refl)

late : UserManager
late = record one_user { seed = seed_after 11 }

login-empty_example : (login d [] 1 late).0 ≡ []
unfolding late
login-empty_example = login-empty 11 d [] 1 late (omega arith) refl

abbrev replica : ℕ → ℕ → Replica
replica server lease = record { server = server; lease_tick = lease; version = 4; fault = false }

abbrev block : Block
block = record {
  id = 9;
  version = 4;
  expect_version = 4;
  lease = 0;
  size = 10;
  recover_lease = 0;
  chunk_server = replica 1 0 ∷ replica 2 50 ∷ [];
}

write-steady_example :
    write [] (λ s. true) 30 70 (write [] (λ s. true) 30 60 block).1
    ≡ (some (1, 2 ∷ []), (write [] (λ s. true) 30 60 block).1)
unfolding holds write placed find_main_replica find_main first_of grant leased set_lease others
write-steady_example =
    write-steady [] [] (λ s. true) (λ s. true) 30 60 70 block (write [] (λ s. true) 30 60 block).1 1
      (2 ∷ []) (refl, (refl, tt)) refl (omega arith) (omega arith) refl

report_replica-Grows_example :
    Grows block (update_replica 2 5 12 false block).1
    × Grows block (report_replica 2 5 12 false block).1
    × ((update_replica 2 5 12 false block).1.version
        ≤ (update_replica 2 5 12 false block).1.expect_version)
    × ((report_replica 2 5 12 false block).1.version
        ≤ (report_replica 2 5 12 false block).1.expect_version)
report_replica-Grows_example = report_replica-Grows 2 5 12 false block (omega arith)
