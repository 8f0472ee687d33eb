-- ===== src/Ofs/Cluster/Ring.antt =====
-- ofs/master/chunk/cluster/DefaultDataCluster.cpp, Rack::ChooseChunkServer: one round of the rack.
use zookeeper.Prelude.{
  ℕ, zero, suc, ◌+◌, ◌-◌, ◌%◌, ◌<◌, ◌≡◌, refl, ap, ◌∙◌, arith, List, [], ◌∷◌, ◌++◌, none, some,
  true, false, if◌then◌else◌, ltb, length, get_elem?, dec_lt, Option-cases, Bool-cases, inl, inr,
}
use native.Mathlib.Nat.{mod-add-mod, mod-eq_of_lt, mod-lt, add-mod_right}
use zookeeper.Ofs.Cluster.{Rack, Wish, fits, rack_from, chosen, choose_in_rack}

-- A server that is found fits.
pub rack_from-fits :
    (w : Wish) (add servers : List ℕ) (c r cs : ℕ)
    → rack_from w add servers c r ≡ some cs
    → fits w add cs ≡ true
unfolding rack_from
rack_from-fits w add servers zero r cs h = absurd (cc)
rack_from-fits w add servers (suc c) r cs h =
    elim (Option-cases (get_elem? servers (suc r % length servers))) [
      | inl e ↦ absurd (ground (arith, e, h))
      | inr (s, e) ↦
          ground (arith, e, h, rack_from-fits w add servers c (suc r % length servers) cs)
    ]

get_elem?-within : (xs : List ℕ) (i : ℕ) → i < length xs → (a : ℕ) × (get_elem? xs i ≡ some a)
get_elem?-within [] i h = absurd (omega arith)
get_elem?-within (x ∷ xs) zero h = (x, refl)
get_elem?-within (x ∷ xs) (suc i) h = get_elem?-within xs i (omega arith)

get_elem?-lt : (xs : List ℕ) (i a : ℕ) → get_elem? xs i ≡ some a → i < length xs
get_elem?-lt [] i a h = absurd (cc)
get_elem?-lt (x ∷ xs) zero a h = omega arith
get_elem?-lt (x ∷ xs) (suc i) a h = omega (arith, get_elem?-lt xs i a h)

-- A loop that finds none has seen all places that it has come to.
rack_from-none :
    (w : Wish) (add servers : List ℕ) (c r k cs : ℕ)
    → rack_from w add servers c r ≡ none
    → k < c
    → 0 < length servers
    → get_elem? servers ((r + suc k) % length servers) ≡ some cs
    → fits w add cs ≡ false
unfolding rack_from
rack_from-none w add servers zero r k cs h l p e = absurd (omega arith)
rack_from-none w add servers (suc c) r zero cs h l p e =
    let same : suc r ≡ r + suc zero = omega arith in
    let e' : get_elem? servers (suc r % length servers) ≡ some cs =
      ap (λ (t : ℕ). get_elem? servers (t % length servers)) same ∙ e in
    elim (Bool-cases (fits w add cs)) [ inl t ↦ absurd (ground (arith, e', t, h)) | inr f ↦ f ]
rack_from-none w add servers (suc c) r (suc k) cs h l p e =
    let n = length servers in
    let s = get_elem?-within servers (suc r % n) (mod-lt (suc r) p) in
    let there : get_elem? servers ((suc r % n + suc k) % n) ≡ some cs =
      ap (λ (t : ℕ). get_elem? servers t)
        (mod-add-mod (suc r) n (suc k) ∙ ap (λ (t : ℕ). t % n) (omega arith))
      ∙ e in
    elim (Bool-cases (fits w add s.0)) [
      | inl t ↦ absurd (ground (arith, s.1, t, h))
      | inr f ↦
          rack_from-none w add servers c (suc r % n) k cs (ground (arith, s.1, f, h)) (omega arith)
            p there
    ]

-- How many rounds behind the first the loop comes to a place.
steps : ℕ → ℕ → ℕ → ℕ
steps r i n = if ltb r i then i - r - 1 else i + n - r - 1

steps-lt : (r i n : ℕ) → r < n → i < n → steps r i n < n
unfolding steps
steps-lt r i n h l = ground arith

steps-reach : (r i n : ℕ) → r < n → i < n → (r + suc (steps r i n)) % n ≡ i
unfolding steps
steps-reach r i n h l = elim (dec_lt r i) [
  | yes p ↦ ap (λ (t : ℕ). t % n) (ground arith) ∙ mod-eq_of_lt l
  | no p ↦ ap (λ (t : ℕ). t % n) (ground arith) ∙ add-mod_right i n ∙ mod-eq_of_lt l
]

-- A server of the rack that fits is enough for one to be found, wherever the search begins.
pub choose_in_rack-finds :
    (rand : List ℕ → ℕ) (place : List ℕ) (w : Wish) (add : List ℕ) (rack : Rack) (i cs : ℕ)
    → get_elem? rack.chunk_servers i ≡ some cs
    → fits w add cs ≡ true
    → (found : ℕ) × (choose_in_rack rand place w add rack ≡ (some found, add ++ (found ∷ [])))
      × (fits w add found ≡ true)
unfolding choose_in_rack chosen
choose_in_rack-finds rand place w add rack i cs e f =
    let n = length rack.chunk_servers in
    let l : i < n = get_elem?-lt rack.chunk_servers i cs e in
    let k = steps (rand place % n) i n in
    let back : (rand place % n + suc k) % n ≡ i =
      steps-reach (rand place % n) i n (mod-lt (rand place) (omega arith)) l in
    let there : get_elem? rack.chunk_servers ((rand place % n + suc k) % n) ≡ some cs =
      ap (λ (t : ℕ). get_elem? rack.chunk_servers t) back ∙ e in
    elim (Option-cases (rack_from w add rack.chunk_servers n (rand place % n))) [
      | inl none_found ↦ absurd (
          ground (
            arith,
            f,
            rack_from-none w add rack.chunk_servers n (rand place % n) k cs none_found
                (steps-lt (rand place % n) i n (mod-lt (rand place) (omega arith)) l) (omega arith)
                there,
          ))
      | inr (found, h) ↦ (
        found,
        ground (arith, h, l),
        rack_from-fits w add rack.chunk_servers n (rand place % n) found h,
      )
    ]
