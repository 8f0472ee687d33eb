-- ===== src/Ofs/Master/Tests.antt =====
-- ofs/master: a user, a file, and a data node that reports the file's first block.
use zookeeper.Prelude.{◌≡◌, refl, [], ◌∷◌, true, false}
use zookeeper.Prelude.Eq.{Name, name_eq, nat_eq}
use zookeeper.Prelude.Map.{lookup}
use zookeeper.Ofs.Users.{User, Auth, add_ref}
use zookeeper.Ofs.Tree.{Meta, file, dir, nil, entry, remove}
use zookeeper.Ofs.Tree.Paths.{at}
use zookeeper.Ofs.Master.{Master, as_user}
use zookeeper.Ofs.Master.Requests.{as_user_lem}

abbrev f : Name
f = 102 ∷ []

abbrev meta : Meta
meta = record {
  name = f;
  owner = f;
  owner_group = f;
  authority = 75;
  create_time = 1;
  update_time = 1;
  deleted = false;
  delete_tick = 0;
  root = false;
}

abbrev user : User
user = record { name = f; group = f; password = []; super = true; count = 1 }

abbrev auth : Auth
auth = record { user = f; expire = 100 }

abbrev master : Master
master = record {
  user_manager = record { users = (f, user) ∷ []; auths = (f, auth) ∷ []; expire = 100; seed = 7 };
  root = dir (record meta { root = true }) false (entry f (file meta 5 0 0) nil);
  blocks = [];
  block_size = 1024;
}

as_user_lem_example : as_user f (λ u. remove u 5 (at f)) master ≡ (
  (remove (add_ref user) 5 (at f) master.root).0,
  record master { root = (remove (add_ref user) 5 (at f) master.root).1 },
)
unfolding lookup
as_user_lem_example = as_user_lem f (λ u. remove u 5 (at f)) master auth user refl refl
