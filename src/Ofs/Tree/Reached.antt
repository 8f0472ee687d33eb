-- ===== src/Ofs/Tree/Reached.antt =====
-- ofs/master/file: the trees that the master comes to, from the first start on.
use zookeeper.Prelude.{ℕ, ◌≡◌, [], ◌∷◌, Bool, true, false}
use zookeeper.Prelude.Eq.{Name}
use zookeeper.Ofs.Users.{User}
use zookeeper.Ofs.Tree.{Node, dir, nil, create_node, remove}
use zookeeper.Ofs.Tree.Paths.{FilePath}
use zookeeper.Ofs.Tree.Gc.{start_gc}

abbrev pub root_name : Name
root_name = 114 ∷ 111 ∷ 111 ∷ 116 ∷ []

-- The root of the first start: owner read and write, group read, other read.
unfoldable pub first_root : ℕ → Node
first_root now =
    dir
      (record {
        name = [];
        owner = root_name;
        owner_group = root_name;
        authority = 75;
        create_time = now;
        update_time = now;
        deleted = false;
        delete_tick = 0;
        root = true;
      })
      false nil

-- The requests of clients and the collections, in any order.
pub data Reached : Node → Type 0 where
  started : (now : ℕ) (n : Node) → n ≡ first_root now → Reached n
  created :
      (n m : Node) (user : User) (p : FilePath) (name : Name) (authority : ℕ) (directory : Bool)
      (id now : ℕ)
      → Reached n
      → m ≡ (create_node user p name authority directory id now n).1
      → Reached m
  removed :
      (n m : Node) (user : User) (now : ℕ) (p : FilePath)
      → Reached n
      → m ≡ (remove user now p n).1
      → Reached m
  collected : (n m : Node) (expire now : ℕ) → Reached n → m ≡ start_gc expire now n → Reached m
