-- ===== src/Ofs/Users.antt =====
-- ofs/master/user: the users, and the tokens of their logins.
pub mod Tokens
pub mod References
pub mod Held
use zookeeper.Prelude.{
  ℕ, zero, suc, ◌+◌, ◌-◌, ◌*◌, ◌/◌, ◌%◌, ◌^◌, ◌≡◌, List, [], ◌∷◌, Option, none, some, Bool, true,
  false, if◌then◌else◌, ltb, not,
}
use zookeeper.Prelude.Eq.{Name, ◌==ₙ◌, name_eq}
use zookeeper.Prelude.Map.{lookup, insert, erase}

-- `count` counts the tokens and the handlers that hold the user.
pub record User : Type 0 where
  pub name : Name
  pub group : Name
  pub password : Name
  pub super : Bool
  pub count : ℕ

unfoldable pub check : Name → User → Bool
check password u = u.password ==ₙ password

unfoldable pub add_ref : User → User
add_ref u = record u { count = suc u.count }

unfoldable pub dec_ref : User → User
dec_ref u = record u { count = u.count - 1 }

unfoldable pub is_used : User → Bool
is_used u = ltb 0 u.count

-- The pointer to a user is its name: the entries of `_users` do not move.
pub record Auth : Type 0 where
  pub user : Name
  pub expire : ℕ

pub record UserManager : Type 0 where
  pub users : List (Name × User)
  pub auths : List (Name × Auth)
  pub expire : ℕ
  pub seed : ℕ

-- `11231234123`, as `uint32_t` keeps it.
abbrev pub first_seed : ℕ
first_seed = 2641299531

unfoldable pub next_seed : ℕ → ℕ
next_seed seed = seed * 12978312 % 2 ^ 32

-- The loop of Generate: the digits of the key to the base 26, from the lowest, as letters.
unfoldable pub letters : ℕ → ℕ → Name
letters zero key = []
letters (suc count) key =
    let rest = letters count (key / 26) in if ltb 0 key then (97 + key % 26) ∷ rest else []

unfoldable pub generate : ℕ → Name
generate seed = letters 32 (next_seed seed)

-- A change of the user that a pointer leads to.
unfoldable pub modify : Name → (User → User) → List (Name × User) → List (Name × User)
modify name f [] = []
modify name f ((k, u) ∷ users) =
    if k ==ₙ name then (k, f u) ∷ users else (k, u) ∷ modify name f users

unfoldable pub login : Name → Name → ℕ → UserManager → Name × UserManager
login name password now m = elim (lookup name m.users) [
  | none ↦ ([], m)
  | some u ↦
      if check password u
      then (
        generate m.seed,
        record m {
          users = modify name add_ref m.users;
          auths =
              insert (generate m.seed) (record { user = name; expire = now + m.expire }) m.auths;
          seed = next_seed m.seed;
        },
      )
      else ([], m)
]

unfoldable pub add : Name → Name → Name → UserManager → Bool × UserManager
add name group password m = elim (lookup name m.users) [
  | none ↦ (
    true,
    record m {
      users =
          insert name
            (record { name = name; group = group; password = password; super = false; count = 0 })
            m.users;
    },
  )
  | some u ↦ (false, m)
]

unfoldable pub remove_user : Name → UserManager → Bool × UserManager
remove_user name m = elim (lookup name m.users) [
  | none ↦ (false, m)
  | some u ↦ if is_used u then (false, m) else (true, record m { users = erase name m.users })
]

unfoldable pub acquire : Name → UserManager → Option Name × UserManager
acquire token m = elim (lookup token m.auths) [
  | none ↦ (none, m)
  | some a ↦ (some a.user, record m { users = modify a.user add_ref m.users })
]

unfoldable pub release : Name → UserManager → UserManager
release name m = record m { users = modify name dec_ref m.users }

-- One round of ClearExpire: what it leaves of the users and of the tokens.
unfoldable pub clear_expire_from :
    ℕ → List (Name × Auth) → List (Name × User) → List (Name × User) × List (Name × Auth)
clear_expire_from tick [] users = (users, [])
clear_expire_from tick ((token, a) ∷ auths) users =
    let gone = ltb a.expire tick in
    let rest = clear_expire_from tick auths (if gone then modify a.user dec_ref users else users) in
    if gone then rest else (rest.0, (token, a) ∷ rest.1)

unfoldable pub clear_expire : ℕ → UserManager → UserManager
clear_expire tick m =
    let left = clear_expire_from tick m.auths m.users in record m { users = left.0; auths = left.1 }
