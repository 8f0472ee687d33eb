-- ===== src/Ofs/Master/Listing.antt =====
-- ofs/master/client/ClientService.cpp, List and Status: what a client can list is what it can ask for.
use zookeeper.Prelude.{◌≡◌, refl, arith, List, [], ◌∷◌, Option, none, some, Bool, true, false, ◌||◌}
use zookeeper.Prelude.Eq.{Name, ◌==ₙ◌}
use zookeeper.Ofs.Tree.{Meta, Node, dir, Nodes, nil, entry, meta_of, find, live_children, list_here}
use zookeeper.Ofs.Tree.Names.{Fresh, NodesDistinct, same_name}
use zookeeper.Ofs.Tree.View.{live}

-- Each child carries the name that it stands under.
abbrev pub IsNamed : Nodes → Type 0
IsNamed nil = Unit {0}
IsNamed (entry k n rest) = ((meta_of n).name ≡ k) × IsNamed rest

abbrev pub lists : Name → List Node → Bool
lists k [] = false
lists k (n ∷ ns) = (meta_of n).name ==ₙ k || lists k ns

abbrev pub is_some {ℓ} : {A : Type ℓ} → Option A → Bool
is_some none = false
is_some (some a) = true

lists-Fresh : (k : Name) (ch : Nodes) → IsNamed ch → Fresh k ch → lists k (live_children ch) ≡ false
unfolding live_children
lists-Fresh k nil h f = refl
lists-Fresh k (entry j n rest) h f = ground (arith, lists-Fresh k rest h.1 f.1)

-- A directory lists a name exactly if there is something under it that a client can see.
pub list_here-live :
    (k : Name) (m : Meta) (mark : Bool) (ch : Nodes)
    → IsNamed ch
    → NodesDistinct ch
    → lists k (list_here (dir m mark ch)) ≡ is_some (live (k ∷ []) (dir m mark ch))
unfolding list_here live_children live find
list_here-live k m mark nil h d = refl
list_here-live k m mark (entry j n rest) h d =
    ground
      (arith, list_here-live k m mark rest h.1 d.2, lists-Fresh k rest h.1, same_name j k rest d.0)
