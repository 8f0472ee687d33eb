-- ===== src/Ofs/Blocks/Writing.antt =====
-- ofs/master/block/Block.cpp, Write: a lease is kept while it runs.
use zookeeper.Prelude.{
  ℕ, zero, suc, ◌+◌, ◌≤◌, ◌<◌, ◌≡◌, refl, ap, sym, subst, arith, List, [], ◌∷◌, Option, none, some,
  Bool, true, inl, inr, ◌∙◌, Option-cases, get_elem?,
}
use zookeeper.Ofs.Blocks.{
  Replica, Block, next_version, find_main_replica, set_lease, others, replicas_on, placed, leased,
  grant, write,
}
use zookeeper.Ofs.Blocks.Lease.{
  holds, NoHolder, LeaseAt, CurrentAt, ServerAt, find_main-again, find_main-Found,
  set_lease-LeaseAt,
}

replicas_on-NoHolder : (now version : ℕ) (ss : List ℕ) → NoHolder now version (replicas_on ss)
unfolding replicas_on holds
replicas_on-NoHolder now version [] = tt
replicas_on-NoHolder now version (s ∷ ss) = (ground arith, replicas_on-NoHolder now version ss)

placed-NoHolder :
    (now : ℕ) (distribute : List ℕ) (b : Block)
    → NoHolder now b.version b.chunk_server
    → NoHolder now b.version (placed distribute b).chunk_server
unfolding placed
placed-NoHolder now distribute b h = at_list b.chunk_server h
  where
    at_list :
        (rs : List Replica)
        → NoHolder now b.version rs
        → NoHolder now b.version (placed distribute (record b { chunk_server = rs })).chunk_server
    at_list [] n = replicas_on-NoHolder now b.version distribute
    at_list (r ∷ rs) n = n

others-set_lease :
    (server i tick : ℕ) (rs : List Replica) → others server (set_lease i tick rs) ≡ others server rs
unfolding others set_lease
others-set_lease server i tick [] = refl
others-set_lease server zero tick (r ∷ rs) = ground arith
others-set_lease server (suc i) tick (r ∷ rs) = ground (arith, others-set_lease server i tick rs)

get_elem?-set_lease :
    (i tick : ℕ) (rs : List Replica) (r : Replica)
    → get_elem? rs i ≡ some r
    → (get_elem? (set_lease i tick rs) i ≡ some (record r { lease_tick = tick }))
      × ServerAt r.server i (set_lease i tick rs)
unfolding set_lease
get_elem?-set_lease i tick [] r h = absurd (cc)
get_elem?-set_lease zero tick (q ∷ rs) r h = (ground arith, ground arith)
get_elem?-set_lease (suc i) tick (q ∷ rs) r h = get_elem?-set_lease i tick rs r h

-- A current replica without a lease, where nobody has one.
NoHolder-lease :
    (now version i : ℕ) (rs : List Replica) (r : Replica)
    → NoHolder now version rs
    → CurrentAt version i rs
    → get_elem? rs i ≡ some r
    → r.lease_tick ≤ now
unfolding holds
NoHolder-lease now version i [] r n c h = absurd c
NoHolder-lease now version zero (q ∷ rs) r n c h = ground arith
NoHolder-lease now version (suc i) (q ∷ rs) r n c h = NoHolder-lease now version i rs r n.1 c h

NoHolder-at :
    (now tick version j : ℕ) (rs : List Replica)
    → NoHolder now version rs
    → LeaseAt now tick version j rs
    → tick ≤ now
unfolding holds
NoHolder-at now tick version j [] n l = absurd l
NoHolder-at now tick version zero (r ∷ rs) n l = ground arith
NoHolder-at now tick version (suc j) (r ∷ rs) n l = NoHolder-at now tick version j rs n.1 l.1

placed_filled :
    (distribute : List ℕ) (b : Block) (i : ℕ) (r : Replica)
    → get_elem? b.chunk_server i ≡ some r
    → placed distribute b ≡ b
unfolding placed
placed_filled distribute b i r h = at_list b.chunk_server h
  where
    at_list :
        (rs : List Replica)
        → get_elem? rs i ≡ some r
        → placed distribute (record b { chunk_server = rs }) ≡ record b { chunk_server = rs }
    at_list [] e = absurd (cc)
    at_list (q ∷ rs) e = refl

placed-version : (distribute : List ℕ) (b : Block) → (placed distribute b).version ≡ b.version
unfolding placed
placed-version distribute b = at_list b.chunk_server
  where
    at_list :
        (rs : List Replica)
        → (placed distribute (record b { chunk_server = rs })).version ≡ b.version
    at_list [] = refl
    at_list (q ∷ rs) = refl

-- The block with a lease of its replica at an index.
abbrev with_lease : ℕ → ℕ → Block → Block
with_lease tick i b = record b {
  chunk_server = set_lease i tick b.chunk_server;
  lease = tick;
  expect_version = next_version b.version;
}

module _ (useable useable' : ℕ → Bool) (write_lease now later : ℕ) (b : Block) (i : ℕ) (r : Replica)
    (free : NoHolder now b.version b.chunk_server)
    (found : find_main_replica useable now b ≡ some i)
    (at : get_elem? b.chunk_server i ≡ some r) where
  current : CurrentAt b.version i b.chunk_server
  unfolding find_main_replica
  current = elim (find_main-Found useable now b.version 0 i none b.chunk_server found) [
    | inl (j, tick, e, l, h) ↦
        absurd (omega (arith, NoHolder-at now tick b.version j b.chunk_server free h))
    | inr (n, inl e) ↦ absurd (cc)
    | inr (n, inr (j, e, c)) ↦
        let same : i ≡ j = omega arith in
        subst (λ (k : ℕ). CurrentAt b.version k b.chunk_server) (sym same) c
  ]

  -- The main replica's lease begins.
  granted :
      grant write_lease now (some i) b
      ≡ (some (r.server, others r.server b.chunk_server), with_lease (now + write_lease) i b)
  unfolding grant leased
  granted = ground (arith, at, NoHolder-lease now b.version i b.chunk_server r free current at)

  -- Until it ends, the same server is found.
  kept :
      later < now + write_lease
      → now ≤ later
      → useable' r.server ≡ true
      → find_main_replica useable' later (with_lease (now + write_lease) i b) ≡ some i
  unfolding find_main_replica
  kept l k u =
      find_main-again useable' now later (now + write_lease) b.version r.server 0 i none
        (set_lease i (now + write_lease) b.chunk_server)
        (set_lease-LeaseAt now (now + write_lease) b.version i b.chunk_server free current)
        (get_elem?-set_lease i (now + write_lease) b.chunk_server r at).1 k l u
      ∙ ap (λ (n : ℕ). some n) (omega arith)

  again :
      later < now + write_lease
      → now ≤ later
      → useable' r.server ≡ true
      → grant write_lease later
          (find_main_replica useable' later (with_lease (now + write_lease) i b))
          (with_lease (now + write_lease) i b)
        ≡ (some (r.server, others r.server b.chunk_server), with_lease (now + write_lease) i b)
  unfolding grant leased
  again l k u = ground (
    arith,
    kept l k u,
    get_elem?-set_lease i (now + write_lease) b.chunk_server r at,
    others-set_lease r.server i (now + write_lease) b.chunk_server,
  )

-- What Write answers with the main replica that it finds.
pub write-answer :
    (distribute : List ℕ) (useable : ℕ → Bool) (write_lease now i : ℕ) (r : Replica) (b : Block)
    → find_main_replica useable now b ≡ some i
    → get_elem? b.chunk_server i ≡ some r
    → (write distribute useable write_lease now b).0
      ≡ some (r.server, others r.server b.chunk_server)
unfolding write grant
write-answer distribute useable write_lease now i r b found at =
    ground (arith, placed_filled distribute b i r at, found, at)

abbrev Given : Type 0
Given = Option (ℕ × List ℕ) × Block

-- A Write that gives a lease has found a main replica.
write-given :
    (distribute : List ℕ) (useable : ℕ → Bool) (write_lease now : ℕ) (b b' : Block) (server : ℕ)
    (re : List ℕ)
    → write distribute useable write_lease now b ≡ (some (server, re), b')
    → (i : ℕ) × (r : Replica) × (find_main_replica useable now (placed distribute b) ≡ some i)
      × (get_elem? (placed distribute b).chunk_server i ≡ some r)
      × (grant write_lease now (some i) (placed distribute b) ≡ (some (server, re), b'))
unfolding write grant
write-given distribute useable write_lease now b b' server re w =
    let b0 : Block = placed distribute b in
    elim (Option-cases (find_main_replica useable now b0)) [
      | inl none_found ↦ absurd (ground (arith, w, none_found))
      | inr (i, found) ↦
          let w' : grant write_lease now (some i) b0 ≡ (some (server, re), b') =
            sym (ap (λ (o : Option ℕ). grant write_lease now o b0) found) ∙ w in
          elim (Option-cases (get_elem? b0.chunk_server i)) [
            | inl outside ↦ absurd (ground (arith, w', outside))
            | inr (r, at) ↦ (i, r, found, at, w')
          ]
    ]

-- Where no lease runs and a Write gives one: a second Write on the block just as the first one left it, with no update
-- or report in between, before that lease ends and while its server is usable, gives the same answer and leaves the
-- block as it is.
pub write-steady :
    (distribute distribute' : List ℕ) (useable useable' : ℕ → Bool) (write_lease now later : ℕ)
    (b b' : Block) (server : ℕ) (re : List ℕ)
    → NoHolder now b.version b.chunk_server
    → write distribute useable write_lease now b ≡ (some (server, re), b')
    → now ≤ later
    → later < b'.lease
    → useable' server ≡ true
    → write distribute' useable' write_lease later b' ≡ (some (server, re), b')
unfolding write
write-steady distribute distribute' useable useable' write_lease now later b b' server re free w k l
      u =
    steady
  where
    g :
        (i : ℕ) × (r : Replica) × (find_main_replica useable now (placed distribute b) ≡ some i)
        × (get_elem? (placed distribute b).chunk_server i ≡ some r)
        × (grant write_lease now (some i) (placed distribute b) ≡ (some (server, re), b'))
    g = write-given distribute useable write_lease now b b' server re w

    free0 : NoHolder now (placed distribute b).version (placed distribute b).chunk_server
    free0 =
        subst (λ (v : ℕ). NoHolder now v (placed distribute b).chunk_server)
          (sym (placed-version distribute b)) (placed-NoHolder now distribute b free)

    given :
        ◌≡◌ {A = Given}
          (
            some (g.1.server, others g.1.server (placed distribute b).chunk_server),
            with_lease (now + write_lease) g.0 (placed distribute b),
          )
          (some (server, re), b')
    given =
        sym (
          granted useable useable' write_lease now later (placed distribute b) g.0 g.1 free0 g.2
            g.3)
        ∙ g.4

    steady : write distribute' useable' write_lease later b' ≡ (some (server, re), b')
    steady =
        subst (λ (x : Given). write distribute' useable' write_lease later x.1 ≡ (x.0, x.1)) given
          (ap (λ (c : Block). grant write_lease later (find_main_replica useable' later c) c)
              (placed_filled distribute' (with_lease (now + write_lease) g.0 (placed distribute b))
                g.0 (record g.1 { lease_tick = now + write_lease })
                (get_elem?-set_lease g.0 (now + write_lease) (placed distribute b).chunk_server g.1
                  g.3).0)
            ∙ again useable useable' write_lease now later (placed distribute b) g.0 g.1 free0 g.2
                g.3 (ground (arith, ap (λ (x : Given). x.1.lease) given, l)) k
                (ground (arith, given, u)))
