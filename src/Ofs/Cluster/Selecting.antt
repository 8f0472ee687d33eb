-- ===== src/Ofs/Cluster/Selecting.antt =====
-- ofs/master/chunk/cluster/DefaultDataCluster.cpp, SelectUnnecessary.
use zookeeper.Prelude.{
  ℕ, zero, suc, ◌-◌, ◌%◌, ◌≤◌, ◌<◌, ◌≡◌, refl, arith, List, [], ◌∷◌, Option, none, some,
  if◌then◌else◌, ltb, leb, ◌==◌, length, take, reverse,
}

pub record RackStat : Type 0 where
  pub rack : ℕ
  pub count : ℕ

-- The count of a rack starts at 0 with its first server.
unfoldable pub count_server : ℕ → List RackStat → List RackStat
count_server rack [] = record { rack = rack; count = 0 } ∷ []
count_server rack (st ∷ stats) =
    let rest = count_server rack stats in
    if st.rack == rack then record st { count = suc st.count } ∷ stats else st ∷ rest

-- `rack` is the rack of a server.
unfoldable pub stats_of : (ℕ → ℕ) → List ℕ → List RackStat → List RackStat
stats_of rack [] stats = stats
stats_of rack (node ∷ old) stats = stats_of rack old (count_server (rack node) stats)

-- One of the racks with a count of 2 or more; `rand` is drawn by the rate.
unfoldable pub pick_rack : (ℕ → ℕ) → ℕ → Option RackStat → List RackStat → Option RackStat
pick_rack rand rate stat [] = stat
pick_rack rand rate stat (st ∷ stats) =
    let taken : Option RackStat = elim stat [
      | none ↦ some st
      | some old ↦ if rand rate % rate == 0 then some st else some old
    ] in
    pick_rack rand (if leb 2 st.count then suc rate else rate)
      (if leb 2 st.count then taken else stat) stats

unfoldable pub pop_backs : ℕ → List ℕ → List ℕ
pop_backs cut old = take (length old - cut) old

-- The loop from the back, over the list turned round.
unfoldable pub cut_from : (ℕ → ℕ) → ℕ → ℕ → ℕ → List ℕ → List ℕ
cut_from rack picked rack_cut cut [] = []
cut_from rack picked rack_cut cut (node ∷ more) =
    let mine = rack node == picked in
    let rest =
      cut_from rack picked (if mine then rack_cut - 1 else rack_cut) (if mine then cut else cut - 1)
        more in
    if ltb 0 (if mine then rack_cut else cut) then rest else node ∷ rest

-- `shuffle` is the random order.
unfoldable pub select_with : (ℕ → ℕ) → ℕ → Option RackStat → List ℕ → List ℕ
select_with rack cut none old = pop_backs cut old
select_with rack cut (some st) old =
    reverse (cut_from rack st.rack (st.count - 2) (cut - (st.count - 2)) (reverse old))

unfoldable pub select_unnecessary : (List ℕ → List ℕ) → (ℕ → ℕ) → (ℕ → ℕ) → ℕ → List ℕ → List ℕ
select_unnecessary shuffle rand rack block_count old =
    if leb (length old) block_count
    then []
    else select_with rack (length old - block_count) (pick_rack rand 1 none (stats_of rack old []))
        (shuffle old)

length-take : (n : ℕ) (xs : List ℕ) → n ≤ length xs → length (take n xs) ≡ n
length-take zero xs h = refl
length-take (suc n) [] h = absurd (omega arith)
length-take (suc n) (x ∷ xs) h = omega (arith, length-take n xs (omega arith))

-- Where no rack has more than two of the servers, as many servers are selected as a block is to have, and not those
-- that it has too many.
pub length-select_unnecessary :
    (shuffle : List ℕ → List ℕ) (rand rack : ℕ → ℕ) (block_count : ℕ) (old : List ℕ)
    → ((xs : List ℕ) → length (shuffle xs) ≡ length xs)
    → pick_rack rand 1 none (stats_of rack old []) ≡ none
    → block_count < length old
    → length (select_unnecessary shuffle rand rack block_count old) ≡ block_count
unfolding select_unnecessary select_with pop_backs
length-select_unnecessary shuffle rand rack block_count old s p l =
    ground (
      arith,
      p,
      s old,
      length-take (length (shuffle old) - (length old - block_count)) (shuffle old),
    )
