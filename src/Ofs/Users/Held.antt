-- ===== src/Ofs/Users/Held.antt =====
-- ofs/master/user/UserManager.cpp: the requests in any order, and the users that they hold.
use zookeeper.Prelude.{
  ℕ, ◌+◌, ◌≤◌, ◌≡◌, ap, subst, arith, ◌++◌, List, [], ◌∷◌, Option, some, false, Option-cases, inl,
  inr,
}
use zookeeper.Prelude.Eq.{Name, ==ₙ_iff, name_eq}
use zookeeper.Prelude.Map.{lookup}
use zookeeper.Ofs.Users.{
  User, UserManager, is_used, login, add, remove_user, acquire, release, clear_expire,
}
use zookeeper.Ofs.Users.References.{
  tokens_of, holders_of, IsCovered, Covers, login-Covers, add-Covers, remove_user-Covers,
  acquire-Covers, dec_ref-IsCovered, clear_expire_from-Covers,
}

holders_of-append :
    (k : Name) (before after : List Name)
    → holders_of k (before ++ after) ≡ holders_of k before + holders_of k after
holders_of-append k [] after = omega arith
holders_of-append k (h ∷ before) after = ground (arith, holders_of-append k before after)

-- The requests in any order, each handler with the user that it acquired until it releases it.
pub data Reached : UserManager → List Name → Type 0 where
  started : (m : UserManager) → m.auths ≡ [] → Reached m []
  logged_in :
      (m m' : UserManager) (held : List Name) (name password : Name) (now : ℕ)
      → Reached m held
      → m' ≡ (login name password now m).1
      → Reached m' held
  added :
      (m m' : UserManager) (held : List Name) (name group password : Name)
      → Reached m held
      → m' ≡ (add name group password m).1
      → Reached m' held
  removed :
      (m m' : UserManager) (held : List Name) (name : Name)
      → Reached m held
      → m' ≡ (remove_user name m).1
      → Reached m' held
  acquired :
      (m m' : UserManager) (held : List Name) (token name : Name)
      → Reached m held
      → acquire token m ≡ (some name, m')
      → Reached m' (name ∷ held)
  released :
      (m m' : UserManager) (held left before after : List Name) (name : Name)
      → Reached m held
      → held ≡ before ++ (name ∷ after)
      → left ≡ before ++ after
      → m' ≡ release name m
      → Reached m' left
  expired :
      (m m' : UserManager) (held : List Name) (tick : ℕ)
      → Reached m held
      → m' ≡ clear_expire tick m
      → Reached m' held

-- At all times each user's counter covers its tokens and the handlers that work for it, and each of these belongs
-- to a user that is there.
pub Reached-Covers :
    (m : UserManager) (held : List Name) → Reached m held → Covers m.auths held m.users
unfolding release clear_expire
Reached-Covers _ _ (started m e) j = elim (Option-cases (lookup j m.users)) [
  | inl n ↦ ground arith
  | inr (u, f) ↦ ground arith
]
Reached-Covers _ _ (logged_in m m' held name password now r e) j =
    rw e (login-Covers m held (Reached-Covers m held r) name password now j)
Reached-Covers _ _ (added m m' held name group password r e) j =
    rw e (add-Covers m held (Reached-Covers m held r) name group password j)
Reached-Covers _ _ (removed m m' held name r e) j =
    rw e (remove_user-Covers m held (Reached-Covers m held r) name j)
Reached-Covers _ _ (acquired m m' held token name r e) j =
    subst
      (λ (k : UserManager).
        IsCovered (tokens_of j k.auths + holders_of j (name ∷ held)) (lookup j k.users))
      (ap (λ (k : Option Name × UserManager). k.1) e)
      (acquire-Covers m held (Reached-Covers m held r) token name j
        (ap (λ (k : Option Name × UserManager). k.0) e))
Reached-Covers _ _ (released m m' held left before after name r e f g) j =
    rw (g, f)
      (dec_ref-IsCovered name j (tokens_of j m.auths + holders_of j (before ++ after)) m.users (
        subst (λ (n : ℕ). IsCovered n (lookup j m.users))
          (ground (
            arith,
            ap (λ (l : List Name). holders_of j l) e,
            holders_of-append j before (name ∷ after),
            holders_of-append j before after,
          ))
          (Reached-Covers m held r j)))
Reached-Covers _ _ (expired m m' held tick r e) j = rw e (
    clear_expire_from-Covers tick m.auths m.users (λ k. holders_of k held) (Reached-Covers m held r)
      j)

holders_of-lookup :
    (name : Name) (before after : List Name) → 1 ≤ holders_of name (before ++ (name ∷ after))
holders_of-lookup name before after =
    ground (arith, holders_of-append name before (name ∷ after), ==ₙ_iff name name)

-- The user that a handler works for is there, and no request removes it.
pub held-kept :
    (m : UserManager) (held before after : List Name) (name : Name)
    → Reached m held
    → held ≡ before ++ (name ∷ after)
    → ((u : User) × (lookup name m.users ≡ some u)) × (remove_user name m ≡ (false, m))
unfolding remove_user is_used
held-kept m held before after name r e = elim (Option-cases (lookup name m.users)) [
  | inl n ↦ absurd (ground (arith, covered, holders_of-lookup name before after, at_held))
  | inr (u, f) ↦ ((u, f), ground (arith, covered, holders_of-lookup name before after, at_held))
]
  where
    covered : IsCovered (tokens_of name m.auths + holders_of name held) (lookup name m.users)
    covered = Reached-Covers m held r name

    at_held : holders_of name held ≡ holders_of name (before ++ (name ∷ after))
    at_held = ap (holders_of name) e
