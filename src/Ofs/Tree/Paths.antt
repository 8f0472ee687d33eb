-- ===== src/Ofs/Tree/Paths.antt =====
-- ofs/master/file/Directory.h, QueryNode of Directory.cpp: how a path is taken apart.
pub mod Text
use zookeeper.Prelude.{
  ℕ, zero, suc, ◌+◌, ◌≤◌, ◌<◌, ◌≡◌, refl, arith, List, [], ◌∷◌, ◌++◌, Option, none, some, Bool,
  true, false, if◌then◌else◌, ◌==◌, length,
}
use zookeeper.Prelude.Eq.{Name}

abbrev pub slash : ℕ
slash = 47

-- A path as QueryNode walks it: the directory itself, a child that may be a file, or on into a child.
pub data FilePath : Type 0 where
  here : FilePath
  at : Name → FilePath
  into : Name → FilePath → FilePath

unfoldable pub fetch_sub_path : List ℕ → Name × Option (List ℕ)
fetch_sub_path [] = ([], none)
fetch_sub_path (c ∷ cs) =
    let rest = fetch_sub_path cs in if c == slash then ([], some cs) else (c ∷ rest.0, rest.1)

-- One '/' in front is passed over.
unfoldable pub skip_slash : List ℕ → List ℕ
skip_slash [] = []
skip_slash (c ∷ cs) = if c == slash then cs else c ∷ cs

unfoldable pub step_of : Name × Option (List ℕ) → (List ℕ → FilePath) → FilePath
step_of ([], next) rest = here
step_of (c ∷ cs, none) rest = at (c ∷ cs)
step_of (c ∷ cs, some next) rest = into (c ∷ cs) (rest next)

-- Each round shortens the text, so its length bounds the rounds.
unfoldable pub path_within : ℕ → List ℕ → FilePath
path_within zero text = here
path_within (suc rounds) text = step_of (fetch_sub_path (skip_slash text)) (path_within rounds)

unfoldable pub path_of : List ℕ → FilePath
path_of text = path_within (suc (length text)) text
