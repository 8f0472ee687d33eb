-- ===== src/Ofs/Blocks/Lease.antt =====
-- ofs/master/block/Block.cpp, FindMainReplica and Write: who holds the lease to write.
use zookeeper.Prelude.{
  ℕ, zero, suc, ◌+◌, ◌≤◌, ◌<◌, ◌≡◌, refl, ap, arith, List, [], ◌∷◌, Option, none, some, Bool, true,
  false, if◌then◌else◌, ltb, ◌==◌, ◌&&◌, ◌⊎◌, inl, inr, Bool-cases,
}
use zookeeper.Ofs.Blocks.{Replica, find_main, first_of, set_lease}

-- A replica that a lease keeps for itself.
unfoldable pub holds : ℕ → ℕ → Replica → Bool
holds now version r = r.version == version && ltb now r.lease_tick

abbrev pub NoHolder : ℕ → ℕ → List Replica → Type 0
NoHolder now version [] = Unit {0}
NoHolder now version (r ∷ rs) = (holds now version r ≡ false) × NoHolder now version rs

-- The replica at an index is current and has the lease; those before it have none.
abbrev pub LeaseAt : ℕ → ℕ → ℕ → ℕ → List Replica → Type 0
LeaseAt now tick version j [] = ⊥
LeaseAt now tick version zero (r ∷ rs) = (r.version ≡ version) × (r.lease_tick ≡ tick)
LeaseAt now tick version (suc j) (r ∷ rs) =
    (holds now version r ≡ false) × LeaseAt now tick version j rs

abbrev pub CurrentAt : ℕ → ℕ → List Replica → Type 0
CurrentAt version j [] = ⊥
CurrentAt version zero (r ∷ rs) = r.version ≡ version
CurrentAt version (suc j) (r ∷ rs) = CurrentAt version j rs

abbrev pub ServerAt : ℕ → ℕ → List Replica → Type 0
ServerAt server j [] = ⊥
ServerAt server zero (r ∷ rs) = r.server ≡ server
ServerAt server (suc j) (r ∷ rs) = ServerAt server j rs

pub find_main-again :
    (useable : ℕ → Bool) (now later tick version server i j : ℕ) (lower : Option ℕ)
    (rs : List Replica)
    → LeaseAt now tick version j rs
    → ServerAt server j rs
    → now ≤ later
    → later < tick
    → useable server ≡ true
    → find_main useable later version i lower rs ≡ some (i + j)
unfolding find_main holds
find_main-again useable now later tick version server i j lower [] h s l k u = absurd h
find_main-again useable now later tick version server i zero lower (r ∷ rs) h s l k u =
    ground (arith, ap useable s)
find_main-again useable now later tick version server i (suc j) lower (r ∷ rs) h s l k u = ground (
  arith,
  find_main-again useable now later tick version server (suc i) j
      (if r.version == version && useable r.server then first_of lower i else lower) rs h.1 s l k u,
)

-- What the loop has found: a holder's index, or, without a holder, the first usable current replica's.
abbrev pub Found : ℕ → ℕ → ℕ → ℕ → Option ℕ → List Replica → Type 0
Found now version i k lower rs =
    ((j : ℕ) × (tick : ℕ) × (k ≡ i + j) × (now < tick) × LeaseAt now tick version j rs)
    ⊎ (NoHolder now version rs
        × ((lower ≡ some k) ⊎ ((j : ℕ) × (k ≡ i + j) × CurrentAt version j rs)))

Found-behind :
    (now version i k : ℕ) (lower lower' : Option ℕ) (r : Replica) (rs : List Replica)
    → holds now version r ≡ false
    → (lower' ≡ some k → (lower ≡ some k) ⊎ ((k ≡ i) × (r.version ≡ version)))
    → Found now version (suc i) k lower' rs
    → Found now version i k lower (r ∷ rs)
Found-behind now version i k lower lower' r rs h f (inl (j, tick, e, l, at)) =
    inl (suc j, tick, omega arith, l, (h, at))
Found-behind now version i k lower lower' r rs h f (inr (n, inr (j, e, c))) =
    inr ((h, n), inr (suc j, omega arith, c))
Found-behind now version i k lower lower' r rs h f (inr (n, inl e)) = elim (f e) [
  | inl same ↦ inr ((h, n), inl same)
  | inr (first, c) ↦ inr ((h, n), inr (0, omega arith, c))
]

first_kept :
    (lower : Option ℕ) (i k version : ℕ) (free : Bool) (r : Replica)
    → (if r.version == version && free then first_of lower i else lower) ≡ some k
    → (lower ≡ some k) ⊎ ((k ≡ i) × (r.version ≡ version))
unfolding first_of
first_kept none i k version free r h = inr (ground arith, ground arith)
first_kept (some l) i k version free r h = inl (ground arith)

pub find_main-Found :
    (useable : ℕ → Bool) (now version i k : ℕ) (lower : Option ℕ) (rs : List Replica)
    → find_main useable now version i lower rs ≡ some k
    → Found now version i k lower rs
unfolding find_main holds
find_main-Found useable now version i k lower [] h = inr (tt, inl h)
find_main-Found useable now version i k lower (r ∷ rs) h = elim (Bool-cases (holds now version r)) [
  | inl t ↦ inl (0, r.lease_tick, ground arith, ground arith, (ground arith, refl))
  | inr f ↦
      Found-behind now version i k lower
        (if r.version == version && useable r.server then first_of lower i else lower) r rs f
        (first_kept lower i k version (useable r.server) r)
        (find_main-Found useable now version (suc i) k
          (if r.version == version && useable r.server then first_of lower i else lower) rs
          (ground arith))
]

pub set_lease-LeaseAt :
    (now tick version j : ℕ) (rs : List Replica)
    → NoHolder now version rs
    → CurrentAt version j rs
    → LeaseAt now tick version j (set_lease j tick rs)
unfolding set_lease
set_lease-LeaseAt now tick version j [] n c = absurd c
set_lease-LeaseAt now tick version zero (r ∷ rs) n c = (c, refl)
set_lease-LeaseAt now tick version (suc j) (r ∷ rs) n c =
    (n.0, set_lease-LeaseAt now tick version j rs n.1 c)
