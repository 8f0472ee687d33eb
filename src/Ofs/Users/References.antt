-- ===== src/Ofs/Users/References.antt =====
-- ofs/master/user/UserManager.cpp: users that are held stay.
use zookeeper.Prelude.{
  ℕ, suc, ◌+◌, ◌≤◌, ◌≡◌, subst, arith, List, [], ◌∷◌, Option, none, some, false, if◌then◌else◌, ltb,
  Option-cases, Bool-cases, inl, inr,
}
use zookeeper.Prelude.Eq.{Name, ◌==ₙ◌, ==ₙ_iff, name_eq}
use zookeeper.Prelude.Map.{lookup, insert, lookup-insert, lookup-erase}
use zookeeper.Ofs.Users.{
  User, Auth, UserManager, add_ref, dec_ref, is_used, generate, modify, login, add, remove_user,
  acquire, clear_expire_from,
}

-- How many tokens, and how many handlers, hold a user.
abbrev pub tokens_of : Name → List (Name × Auth) → ℕ
tokens_of name [] = 0
tokens_of name ((token, a) ∷ auths) =
    if a.user ==ₙ name then suc (tokens_of name auths) else tokens_of name auths

abbrev pub holders_of : Name → List Name → ℕ
holders_of name [] = 0
holders_of name (h ∷ held) = if h ==ₙ name then suc (holders_of name held) else holders_of name held

-- A number of holders that the user's counter covers; without a user, no holder.
abbrev pub IsCovered : ℕ → Option User → Type 0
IsCovered holders none = holders ≡ 0
IsCovered holders (some u) = holders ≤ u.count

pub lookup-modify :
    (j name : Name) (f : User → User) (users : List (Name × User))
    → lookup j (modify name f users) ≡ (
        if name ==ₙ j
        then elim (lookup j users) [ none ↦ none | some u ↦ some (f u) ]
        else lookup j users)
unfolding lookup modify
lookup-modify j name f [] = ground arith
lookup-modify j name f ((k, u) ∷ users) =
    ground (arith, lookup-modify j name f users, ==ₙ_iff name j, ==ₙ_iff k name, ==ₙ_iff k j)

tokens_of-insert :
    (name token : Name) (a : Auth) (auths : List (Name × Auth))
    → tokens_of name (insert token a auths)
      ≤ (if a.user ==ₙ name then suc (tokens_of name auths) else tokens_of name auths)
unfolding insert
tokens_of-insert name token a [] = ground arith
tokens_of-insert name token a ((k, b) ∷ auths) = ground (arith, tokens_of-insert name token a auths)

tokens_of-lookup :
    (token : Name) (a : Auth) (auths : List (Name × Auth))
    → lookup token auths ≡ some a
    → 1 ≤ tokens_of a.user auths
unfolding lookup
tokens_of-lookup token a [] h = absurd (cc)
tokens_of-lookup token a ((k, b) ∷ auths) h =
    ground (arith, tokens_of-lookup token a auths, ==ₙ_iff b.user a.user)

-- The counter of each user covers its tokens and the handlers that work for it.
abbrev pub Covers : List (Name × Auth) → List Name → List (Name × User) → Type 0
Covers auths held users =
    (name : Name) → IsCovered (tokens_of name auths + holders_of name held) (lookup name users)

module _ (m : UserManager) (held : List Name) (covers : Covers m.auths held m.users) where
  pub login-Covers :
      (name password : Name) (now : ℕ) (j : Name)
      → let m' : UserManager = (login name password now m).1 in
        IsCovered (tokens_of j m'.auths + holders_of j held) (lookup j m'.users)
  unfolding login add_ref
  login-Covers name password now j = elim (Option-cases (lookup name m.users)) [
    | inl e ↦ ground (arith, covers j)
    | inr (u, e) ↦ ground (
      arith,
      covers j,
      lookup-modify j name add_ref m.users,
      tokens_of-insert j (generate m.seed) (record { user = name; expire = now + m.expire })
          m.auths,
      ==ₙ_iff name j,
    )
  ]

  pub add-Covers :
      (name group password : Name) (j : Name)
      → let m' : UserManager = (add name group password m).1 in
        IsCovered (tokens_of j m'.auths + holders_of j held) (lookup j m'.users)
  unfolding add
  add-Covers name group password j = elim (Option-cases (lookup name m.users)) [
    | inl e ↦ ground (
      arith,
      covers j,
      lookup-insert j name
          (record { name = name; group = group; password = password; super = false; count = 0 })
          m.users,
      ==ₙ_iff name j,
    )
    | inr (u, e) ↦ ground (arith, covers j)
  ]

  pub remove_user-Covers :
      (name : Name) (j : Name)
      → let m' : UserManager = (remove_user name m).1 in
        IsCovered (tokens_of j m'.auths + holders_of j held) (lookup j m'.users)
  unfolding remove_user is_used
  remove_user-Covers name j = elim (Option-cases (lookup name m.users)) [
    | inl e ↦ ground (arith, covers j)
    | inr (u, e) ↦ ground (arith, covers j, lookup-erase j name m.users, ==ₙ_iff name j)
  ]

  pub acquire-Covers :
      (token name : Name) (j : Name)
      → let m' : UserManager = (acquire token m).1 in
        (acquire token m).0 ≡ some name
        → IsCovered (tokens_of j m'.auths + holders_of j (name ∷ held)) (lookup j m'.users)
  unfolding acquire add_ref
  acquire-Covers token name j h = elim (Option-cases (lookup token m.auths)) [
    | inl e ↦ ground arith
    | inr (a, e) ↦ ground (
      arith,
      covers j,
      lookup-modify j a.user add_ref m.users,
      tokens_of-lookup token a m.auths e,
      ==ₙ_iff name j,
    )
  ]

pub dec_ref-IsCovered :
    (name k : Name) (holders : ℕ) (users : List (Name × User))
    → IsCovered (if name ==ₙ k then suc holders else holders) (lookup k users)
    → IsCovered holders (lookup k (modify name dec_ref users))
unfolding dec_ref
dec_ref-IsCovered name k holders users h =
    ground (arith, lookup-modify k name dec_ref users, ==ₙ_iff name k)

-- Whatever else holds the users, a round of ClearExpire lets go of the tokens that it takes away.
pub clear_expire_from-Covers :
    (tick : ℕ) (auths : List (Name × Auth)) (users : List (Name × User)) (others : Name → ℕ)
    → ((k : Name) → IsCovered (tokens_of k auths + others k) (lookup k users))
    → (j : Name)
    → IsCovered
        (tokens_of j (clear_expire_from tick auths users).1 + others j)
        (lookup j (clear_expire_from tick auths users).0)
unfolding clear_expire_from
clear_expire_from-Covers tick [] users others h j = h j
clear_expire_from-Covers tick ((token, a) ∷ auths) users others h j =
    elim (Bool-cases (ltb a.expire tick)) [
      | inl t ↦ rw t (
          clear_expire_from-Covers tick auths (modify a.user dec_ref users) others
            (λ k.
              dec_ref-IsCovered a.user k (tokens_of k auths + others k) users
                (subst (λ (n : ℕ). IsCovered n (lookup k users)) (ground arith) (h k)))
            j)
      | inr f ↦ rw f (
          subst (λ (n : ℕ). IsCovered n (lookup j (clear_expire_from tick auths users).0))
            (ground arith)
            (clear_expire_from-Covers tick auths users
              (λ k. others k + (if a.user ==ₙ k then 1 else 0))
              (λ k. subst (λ (n : ℕ). IsCovered n (lookup k users)) (ground arith) (h k)) j))
    ]
