-- ===== src/Ofs/Tree/Paths/Text.antt =====
-- ofs/master/file/Directory.cpp, QueryNode: the path that a text stands for.
use zookeeper.Prelude.{
  ℕ, zero, suc, ◌≤◌, ◌<◌, ◌≡◌, refl, ap, arith, List, [], ◌∷◌, ◌++◌, Option, none, some, Bool, true,
  false, if◌then◌else◌, ◌==◌, length, length-append,
}
use zookeeper.Prelude.Eq.{Name}
use zookeeper.Ofs.Tree.Paths.{
  slash, FilePath, here, at, into, fetch_sub_path, skip_slash, step_of, path_within, path_of,
}

-- A path's text, as a client writes it.
abbrev pub text_of : FilePath → List ℕ
text_of here = []
text_of (at name) = name
text_of (into name next) = name ++ (slash ∷ text_of next)

abbrev no_slash : List ℕ → Bool
no_slash [] = true
no_slash (c ∷ cs) = if c == slash then false else no_slash cs

-- Names in a path are not empty and hold no '/'.
abbrev pub IsName : Name → Type 0
IsName [] = ⊥
IsName (c ∷ cs) = no_slash (c ∷ cs) ≡ true

abbrev pub HasNames : FilePath → Type 0
HasNames here = Unit {0}
HasNames (at name) = IsName name
HasNames (into name next) = IsName name × HasNames next

fetch_last : (name : Name) → no_slash name ≡ true → fetch_sub_path name ≡ (name, none)
unfolding fetch_sub_path
fetch_last [] h = refl
fetch_last (c ∷ cs) h = ground (arith, fetch_last cs)

fetch_first :
    (name : Name) (rest : List ℕ)
    → no_slash name ≡ true
    → fetch_sub_path (name ++ (slash ∷ rest)) ≡ (name, some rest)
unfolding fetch_sub_path
fetch_first [] rest h = refl
fetch_first (c ∷ cs) rest h = ground (arith, fetch_first cs rest)

skip_name : (c : ℕ) (cs : List ℕ) → c == slash ≡ false → skip_slash (c ∷ cs) ≡ c ∷ cs
unfolding skip_slash
skip_name c cs h = ground arith

skip_nothing : fetch_sub_path (skip_slash []) ≡ ([], none)
unfolding fetch_sub_path skip_slash
skip_nothing = refl

path_within-text :
    (rounds : ℕ) (p : FilePath)
    → HasNames p
    → length (text_of p) < rounds
    → path_within rounds (text_of p) ≡ p
unfolding path_within step_of
path_within-text zero p h l = absurd (omega arith)
path_within-text (suc rounds) here h l = ground (arith, skip_nothing)
path_within-text (suc rounds) (at []) h l = absurd h
path_within-text (suc rounds) (at (c ∷ cs)) h l =
    ground (arith, skip_name c cs, fetch_last (c ∷ cs))
path_within-text (suc rounds) (into [] next) h l = absurd h.0
path_within-text (suc rounds) (into (c ∷ cs) next) h l = ground (
  arith,
  skip_name c (cs ++ (slash ∷ text_of next)),
  fetch_first (c ∷ cs) (text_of next),
  path_within-text rounds next h.1,
  length-append {0} cs (slash ∷ text_of next),
)

-- The text of a path is read as that path.
pub path_of_roundtrip : (p : FilePath) → HasNames p → path_of (text_of p) ≡ p
unfolding path_of
path_of_roundtrip p h = path_within-text (suc (length (text_of p))) p h (omega arith)

fetch-shorter :
    (text next : List ℕ) → (fetch_sub_path text).1 ≡ some next → length next < length text
unfolding fetch_sub_path
fetch-shorter [] next h = absurd (cc)
fetch-shorter (c ∷ cs) next h = ground (arith, fetch-shorter cs next)

skip_slash-le : (text : List ℕ) → length (skip_slash text) ≤ length text
unfolding skip_slash
skip_slash-le [] = omega arith
skip_slash-le (c ∷ cs) = ground arith

step_of_same :
    (r : Name × Option (List ℕ)) (f g : List ℕ → FilePath)
    → ((next : List ℕ) → r.1 ≡ some next → f next ≡ g next)
    → step_of r f ≡ step_of r g
unfolding step_of
step_of_same ([], next) f g h = refl
step_of_same (c ∷ cs, none) f g h = refl
step_of_same (c ∷ cs, some next) f g h = ap (into (c ∷ cs)) (h next refl)

-- More rounds than the text has bytes change nothing: the walk along any text comes to its end.
pub path_within-enough :
    (rounds more : ℕ) (text : List ℕ)
    → length text < rounds
    → length text < more
    → path_within rounds text ≡ path_within more text
unfolding path_within
path_within-enough zero more text h k = absurd (omega arith)
path_within-enough (suc rounds) zero text h k = absurd (omega arith)
path_within-enough (suc rounds) (suc more) text h k =
    step_of_same (fetch_sub_path (skip_slash text)) (path_within rounds) (path_within more)
      (λ next e.
        path_within-enough rounds more next
          (omega (arith, fetch-shorter (skip_slash text) next e, skip_slash-le text))
          (omega (arith, fetch-shorter (skip_slash text) next e, skip_slash-le text)))
