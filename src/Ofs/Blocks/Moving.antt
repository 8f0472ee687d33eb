-- ===== src/Ofs/Blocks/Moving.antt =====
-- ofs/master/block/Block.cpp, UpdateReplica and Write: the lease follows the first server with a new version.
use zookeeper.Prelude.{
  ℕ, suc, ◌+◌, ◌<◌, ◌≡◌, refl, ap, arith, List, [], ◌∷◌, Option, none, some, Bool, true, false,
  if◌then◌else◌, ◌==◌, get_elem?, All, ==_iff, Bool-cases, inl, inr,
}
use zookeeper.Ofs.Blocks.{
  Replica, Block, first_of, find_main, find_main_replica, others, write, has_server, set_status,
  take_status, update_replica,
}
use zookeeper.Ofs.Blocks.Writing.{write-answer}

index_on : ℕ → List Replica → ℕ
index_on server [] = 0
index_on server (r ∷ rs) =
    let rest = index_on server rs in if r.server == server then 0 else suc rest

find_main-stale :
    (useable : ℕ → Bool) (now version i : ℕ) (lower : Option ℕ) (rs : List Replica)
    → All (λ r. r.version < version) rs
    → find_main useable now version i lower rs ≡ lower
unfolding find_main
find_main-stale useable now version i lower [] h = refl
find_main-stale useable now version i lower (r ∷ rs) h =
    ground (arith, find_main-stale useable now version (suc i) lower rs h.1)

module _ (useable : ℕ → Bool) (now version server : ℕ) (can : useable server ≡ true) where
  find_main-new :
      (i : ℕ) (rs : List Replica)
      → All (λ r. r.version < version) rs
      → has_server server rs ≡ true
      → find_main useable now version i none (set_status server version false rs)
        ≡ some (i + index_on server rs)
  unfolding find_main has_server set_status index_on first_of
  find_main-new i [] h e = absurd (cc)
  find_main-new i (r ∷ rs) h e = elim (Bool-cases (r.server == server)) [
    | inl t ↦ ground (
      arith,
      ap useable ((==_iff r.server server).0 t),
      can,
      find_main-stale useable now version (suc i) (some i) rs h.1,
    )
    | inr f ↦ ground (arith, find_main-new (suc i) rs h.1)
  ]

  get_elem?-index_on :
      (rs : List Replica)
      → has_server server rs ≡ true
      → (r : Replica) × (get_elem? (set_status server version false rs) (index_on server rs)
          ≡ some r)
        × (r.server ≡ server)
  unfolding has_server set_status index_on
  get_elem?-index_on [] e = absurd (cc)
  get_elem?-index_on (r ∷ rs) e = elim (Bool-cases (r.server == server)) [
    | inl t ↦ (record r { version = version; fault = false }, ground arith, ground arith)
    | inr f ↦
        let rest = get_elem?-index_on rs (ground arith) in (rest.0, ground (arith, rest.1), rest.2)
  ]

  update_replica-fresh :
      (size : ℕ) (b : Block)
      → has_server server b.chunk_server ≡ true
      → b.version < version
      → ((update_replica server version size false b).1.version ≡ version)
        × ((update_replica server version size false b).1.chunk_server
            ≡ set_status server version false b.chunk_server)
  unfolding update_replica take_status
  update_replica-fresh size b e l = ground arith

  -- After a server's update with a version that no replica has yet, Write gives it the lease, whichever replica
  -- still has one.
  pub update_replica-moves :
      (distribute : List ℕ) (write_lease size : ℕ) (b : Block)
      → has_server server b.chunk_server ≡ true
      → b.version < version
      → All (λ r. r.version < version) b.chunk_server
      → (write distribute useable write_lease now (update_replica server version size false b).1).0
        ≡ some (server, others server (set_status server version false b.chunk_server))
  unfolding find_main_replica
  update_replica-moves distribute write_lease size b e l h =
      let new : Block = (update_replica server version size false b).1 in
      let fresh = update_replica-fresh size b e l in
      let r = get_elem?-index_on b.chunk_server e in
      ground (
        arith,
        write-answer distribute useable write_lease now (index_on server b.chunk_server) r.0 new,
        fresh,
        find_main-new 0 b.chunk_server h e,
        r.1,
        r.2,
      )
