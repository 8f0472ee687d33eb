-- ===== src/Ofs/Cluster/Adding.antt =====
-- ofs/master/chunk/cluster/DefaultDataCluster.cpp: what each choice of a server adds.
use zookeeper.Prelude.{
  ℕ, zero, suc, ◌+◌, ◌%◌, ◌≤◌, ◌≡◌, refl, sym, subst, arith, List, [], ◌∷◌, ◌++◌, Option, none,
  some, true, false, if◌then◌else◌, ltb, leb, ◌&&◌, ◌==◌, length, get_elem?, length-append, All,
  All-append, Option-cases, Bool-cases, inl, inr, ◌⊎◌,
}
use zookeeper.Prelude.Eq.{nat_eq}
use zookeeper.Prelude.Distinct.{contains, Distinct}
use zookeeper.Ofs.Cluster.{
  Rack, DataCenter, Wish, fits, chosen, rack_from, choose_in_rack, center_from, choose_in_center,
  random_from, choose_random, choose_local, in_rack_of, choose_local_rack, choose_remote_rack,
  rack_of, other_rack, skip_excluded, rack_id_at, center_id_at,
}
use zookeeper.Ofs.Cluster.Ring.{rack_from-fits}

-- A server that may be given the block.
abbrev pub IsFit : Wish → ℕ → Type 0
IsFit w cs = (w.useable cs ≡ true) × (contains cs w.old ≡ false) × (contains cs w.except ≡ false)

-- Servers that may, each once, and how many at most.
abbrev pub IsGiven : Wish → ℕ → List ℕ → Type 0
IsGiven w most add = All (IsFit w) add × Distinct add × (length add ≤ most)

contains-behind :
    (a b : ℕ) (xs : List ℕ)
    → contains a xs ≡ false
    → (b == a) ≡ false
    → contains a (xs ++ (b ∷ [])) ≡ false
contains-behind a b [] h e = ground arith
contains-behind a b (x ∷ xs) h e = ground (arith, contains-behind a b xs)

Distinct-behind :
    (b : ℕ) (xs : List ℕ) → Distinct xs → contains b xs ≡ false → Distinct (xs ++ (b ∷ []))
Distinct-behind b [] d h = (refl, tt)
Distinct-behind b (x ∷ xs) d h =
    (contains-behind x b xs d.0 (ground arith), Distinct-behind b xs d.1 (ground arith))

module _ (w : Wish) where
  pub IsGiven-one_more :
      (most cs : ℕ) (add : List ℕ)
      → IsGiven w most add
      → fits w add cs ≡ true
      → IsGiven w (suc most) (add ++ (cs ∷ []))
  unfolding fits
  IsGiven-one_more most cs add g f = (
    All-append (IsFit w) add (cs ∷ []) g.0 ((ground arith, ground arith, ground arith), tt),
    Distinct-behind cs add g.1 (ground arith),
    omega (arith, length-append {0} add (cs ∷ []), g.2),
  )

  pub IsGiven-more : (most : ℕ) (add : List ℕ) → IsGiven w most add → IsGiven w (suc most) add
  IsGiven-more most add g = (g.0, g.1, omega (arith, g.2))

  -- A choice adds nothing, or one server that fits.
  abbrev pub Adds : List ℕ → Option ℕ × List ℕ → Type 0
  Adds add r = (r.1 ≡ add) ⊎ ((cs : ℕ) × (r.1 ≡ add ++ (cs ∷ [])) × (fits w add cs ≡ true))

  pub Adds-IsGiven :
      (most : ℕ) (add : List ℕ) (r : Option ℕ × List ℕ)
      → IsGiven w most add
      → Adds add r
      → IsGiven w (suc most) r.1
  Adds-IsGiven most add r g (inl e) = subst (IsGiven w (suc most)) (sym e) (IsGiven-more most add g)
  Adds-IsGiven most add r g (inr (cs, e, f)) =
      subst (IsGiven w (suc most)) (sym e) (IsGiven-one_more most cs add g f)

  module _ (rand : List ℕ → ℕ) (add : List ℕ) where
    choose_in_rack-Adds :
        (place : List ℕ) (rack : Rack) → Adds add (choose_in_rack rand place w add rack)
    unfolding choose_in_rack chosen
    choose_in_rack-Adds place rack = elim (Bool-cases (length rack.chunk_servers == 0)) [
      | inl t ↦ inl (ground arith)
      | inr f ↦
          elim (Option-cases (
            rack_from w add rack.chunk_servers (length rack.chunk_servers)
              (rand place % length rack.chunk_servers))) [
                | inl e ↦ inl (ground (arith, e))
                | inr (cs, e) ↦ inr (
                  cs,
                  ground (arith, e, f),
                  rack_from-fits w add rack.chunk_servers (length rack.chunk_servers)
                      (rand place % length rack.chunk_servers) cs e,
                )
              ]
    ]

    center_from-Adds :
        (place : List ℕ) (exclude : Option ℕ) (racks : List Rack) (c r : ℕ)
        → Adds add (center_from rand place w add exclude racks c r)
    unfolding center_from
    center_from-Adds place exclude racks zero r = inl refl
    center_from-Adds place exclude racks (suc c) r =
        let at = skip_excluded exclude (rack_id_at racks r) (length racks) r in
        elim (Option-cases (get_elem? racks at)) [
          | inl e ↦ inl (ground (arith, e))
          | inr (rack, e) ↦ elim (Option-cases (choose_in_rack rand (c ∷ place) w add rack).0) [
            | inl n ↦
                let same : center_from rand place w add exclude racks c (suc at % length racks)
                    ≡ center_from rand place w add exclude racks (suc c) r =
                  ground (arith, e, n) in
                subst (Adds add) same
                  (center_from-Adds place exclude racks c (suc at % length racks))
            | inr (cs, f) ↦
                let same : choose_in_rack rand (c ∷ place) w add rack
                    ≡ center_from rand place w add exclude racks (suc c) r =
                  ground (arith, e, f) in
                subst (Adds add) same (choose_in_rack-Adds (c ∷ place) rack)
          ]
        ]

    choose_in_center-Adds :
        (place : List ℕ) (exclude : Option ℕ) (center : DataCenter)
        → Adds add (choose_in_center rand place w add exclude center)
    unfolding choose_in_center
    choose_in_center-Adds place exclude center = elim (Bool-cases (length center.racks == 0)) [
      | inl t ↦ rw t (inl refl)
      | inr f ↦ rw f (
          center_from-Adds place exclude center.racks (length center.racks)
            (rand place % length center.racks))
    ]

    random_from-Adds :
        (place : List ℕ) (exclude : Option ℕ) (centers : List DataCenter) (c r : ℕ)
        → Adds add (random_from rand place w add exclude centers c r)
    unfolding random_from
    random_from-Adds place exclude centers zero r = inl refl
    random_from-Adds place exclude centers (suc c) r =
        let at = skip_excluded exclude (center_id_at centers r) (length centers) r in
        elim (Option-cases (get_elem? centers at)) [
          | inl e ↦ inl (ground (arith, e))
          | inr (center, e) ↦
              elim (Option-cases (choose_in_center rand (c ∷ place) w add none center).0) [
                | inl n ↦
                    let same : random_from rand place w add exclude centers c
                          (suc at % length centers)
                        ≡ random_from rand place w add exclude centers (suc c) r =
                      ground (arith, e, n) in
                    subst (Adds add) same
                      (random_from-Adds place exclude centers c (suc at % length centers))
                | inr (cs, f) ↦
                    let same : choose_in_center rand (c ∷ place) w add none center
                        ≡ random_from rand place w add exclude centers (suc c) r =
                      ground (arith, e, f) in
                    subst (Adds add) same (choose_in_center-Adds (c ∷ place) none center)
              ]
        ]

    pub choose_random-Adds :
        (place : List ℕ) (exclude : Option ℕ) (centers : List DataCenter)
        → Adds add (choose_random rand place w add exclude centers)
    unfolding choose_random
    choose_random-Adds place exclude centers = elim (Bool-cases (length centers == 0)) [
      | inl t ↦ rw t (inl refl)
      | inr f ↦
          rw f
            (random_from-Adds place exclude centers (length centers) (rand place % length centers))
    ]

    pub choose_local-Adds : (centers : List DataCenter) → Adds add (choose_local rand w add centers)
    unfolding choose_local
    choose_local-Adds centers =
        elim (w.old)
          as (λ l. Adds add (elim l [
            | [] ↦ choose_random rand (0 ∷ []) w add none centers
            | first ∷ more ↦ (some first, add)
          ])) [ [] ↦ choose_random-Adds (0 ∷ []) none centers | first ∷ more ↦ inl refl ]

    in_rack_of-Adds :
        (place : List ℕ) (base : ℕ) (centers : List DataCenter)
        → Adds add (in_rack_of rand place w add base centers)
    unfolding in_rack_of
    in_rack_of-Adds place base centers = elim (Option-cases (rack_of base centers)) [
      | inl e ↦ rw (e, in_rack_of) (inl refl)
      | inr ((center, rack), e) ↦ rw (e, in_rack_of) (choose_in_rack-Adds place rack)
    ]

    pub choose_remote_rack-Adds :
        (base : ℕ) (centers : List DataCenter)
        → Adds add (choose_remote_rack rand w add base centers)
    unfolding choose_remote_rack
    choose_remote_rack-Adds base centers = elim (Option-cases (rack_of base centers)) [
      | inl e ↦ inl (ground (arith, e))
      | inr ((center, rack), e) ↦
          elim (Option-cases (choose_in_center rand (1 ∷ []) w add (some rack.id) center).0) [
            | inl n ↦
                let same : choose_random rand (2 ∷ []) w add (some center.id) centers
                    ≡ choose_remote_rack rand w add base centers =
                  ground (arith, e, n) in
                subst (Adds add) same (choose_random-Adds (2 ∷ []) (some center.id) centers)
            | inr (cs, f) ↦
                let same : choose_in_center rand (1 ∷ []) w add (some rack.id) center
                    ≡ choose_remote_rack rand w add base centers =
                  ground (arith, e, f) in
                subst (Adds add) same (choose_in_center-Adds (1 ∷ []) (some rack.id) center)
          ]
    ]

    pub choose_local_rack-Adds :
        (block_count base : ℕ) (centers : List DataCenter)
        → Adds add (choose_local_rack rand block_count w add base centers)
    unfolding choose_local_rack
    choose_local_rack-Adds block_count base centers = at_list w.old
      where
        at_list :
            (l : List ℕ)
            → Adds add (elim l [
              | [] ↦ in_rack_of rand (3 ∷ []) w add base centers
              | first ∷ more ↦ elim (other_rack centers base more) [
                | some cs ↦ (some cs, add)
                | none ↦
                    if ltb 1 (length w.old) && leb block_count (length w.old + length add)
                    then (none, add)
                    else in_rack_of rand (3 ∷ []) w add base centers
              ]
            ])
        at_list [] = in_rack_of-Adds (3 ∷ []) base centers
        at_list (first ∷ more) = elim (Option-cases (other_rack centers base more)) [
          | inr (cs, e) ↦ inl (ground (arith, e))
          | inl e ↦
              elim (Bool-cases
                (ltb 1 (length w.old) && leb block_count (length w.old + length add))) [
                  | inl t ↦ inl (ground (arith, e, t))
                  | inr f ↦ rw (e, f) (in_rack_of-Adds (3 ∷ []) base centers)
                ]
        ]
