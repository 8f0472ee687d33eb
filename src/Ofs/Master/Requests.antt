-- ===== src/Ofs/Master/Requests.antt =====
-- ofs/master/client/ClientService.cpp: what a request does apart from its body.
use zookeeper.Prelude.{ℕ, suc, ◌-◌, ◌≡◌, refl, ap, arith, List, [], ◌∷◌, some}
use zookeeper.Prelude.Eq.{Name, ==ₙ_iff, name_eq}
use zookeeper.Prelude.Map.{lookup}
use zookeeper.Ofs.Users.{User, Auth, UserManager, add_ref, dec_ref, modify, acquire, release}
use zookeeper.Ofs.Users.References.{lookup-modify}
use zookeeper.Ofs.Tree.{ErrorCode, Node}
use zookeeper.Ofs.Master.{Master, as_user}

dec_ref-add_ref : (u : User) → dec_ref (add_ref u) ≡ u
unfolding dec_ref add_ref
dec_ref-add_ref u =
    let same : suc u.count - 1 ≡ u.count = omega arith in
    ap (λ (n : ℕ). record u { count = n }) same

modify-released :
    (name : Name) (users : List (Name × User))
    → modify name dec_ref (modify name add_ref users) ≡ users
unfolding modify
modify-released name [] = refl
modify-released name ((k, u) ∷ users) =
    ground (arith, modify-released name users, dec_ref-add_ref u)

pub acquire-known :
    (token : Name) (m : UserManager) (a : Auth)
    → lookup token m.auths ≡ some a
    → acquire token m ≡ (some a.user, record m { users = modify a.user add_ref m.users })
unfolding acquire
acquire-known token m a h = ground (arith, h)

released-same :
    (name : Name) (m : UserManager)
    → release name (record m { users = modify name add_ref m.users }) ≡ m
unfolding release
released-same name m =
    ap (λ (users : List (Name × User)). record m { users = users }) (modify-released name m.users)

-- A request whose token is known runs its body for the token's user on the tree, answers what the body answers and
-- leaves the tree that the body leaves; the users, the tokens and the counters are as before.
pub as_user_lem :
    (token : Name) (body : User → Node → ErrorCode × Node) (m : Master) (a : Auth) (u : User)
    → lookup token m.user_manager.auths ≡ some a
    → lookup a.user m.user_manager.users ≡ some u
    → as_user token body m
      ≡ ((body (add_ref u) m.root).0, record m { root = (body (add_ref u) m.root).1 })
unfolding as_user
as_user_lem token body m a u h k = ground (
  arith,
  acquire-known token m.user_manager a h,
  lookup-modify a.user a.user add_ref m.user_manager.users,
  ==ₙ_iff a.user a.user,
  k,
  released-same a.user m.user_manager,
)
