-- ===== src/Ofs/Blocks/Spared.antt =====
-- ofs/master/block/Block.cpp, CheckReplica: who is told to clean the block.
use zookeeper.Prelude.{
  ℕ, ◌≤◌, ◌≡◌, refl, sym, subst, arith, List, [], ◌∷◌, ◌++◌, Option, none, some, Bool, true, false,
  ltb, ◌==◌, ==_iff, ◌||◌, length, Bool-cases, inl, inr,
}
use zookeeper.Prelude.Eq.{nat_eq}
use zookeeper.Prelude.Distinct.{contains, Distinct}
use zookeeper.Ofs.Blocks.{Replica, Block, find_main_replica}
use zookeeper.Ofs.Blocks.Checking.{
  Command, clean_block, recover_block, sound_servers, excepted, clean_all, Choices, recovered,
  levelled, check_at, replica_at, check_replica, servers_of,
}

-- A server is told to clean the block.
abbrev pub told : ℕ → List Command → Bool
told s [] = false
told s (clean_block to block ∷ more) = s == to || told s more
told s (recover_block to block version lease copy_to ∷ more) = told s more

told-clean_all : (s block : ℕ) (ss : List ℕ) → told s (clean_all block ss) ≡ contains s ss
unfolding clean_all
told-clean_all s block [] = refl
told-clean_all s block (t ∷ ss) = ground (arith, told-clean_all s block ss)

told_append : (s : ℕ) (a b : List Command) → told s (a ++ b) ≡ told s a || told s b
told_append s [] b = ground arith
told_append s (clean_block to block ∷ a) b = ground (arith, told_append s a b)
told_append s (recover_block to block version lease copy_to ∷ a) b = told_append s a b

contains-excepted :
    (useable : ℕ → Bool) (version s : ℕ) (rs : List Replica)
    → contains s (servers_of rs) ≡ false
    → contains s (excepted useable version rs) ≡ false
unfolding excepted
contains-excepted useable version s [] h = refl
contains-excepted useable version s (r ∷ rs) h =
    ground (arith, contains-excepted useable version s rs)

contains-sound_servers :
    (useable : ℕ → Bool) (version s : ℕ) (rs : List Replica)
    → contains s (servers_of rs) ≡ false
    → contains s (sound_servers useable version rs) ≡ false
unfolding sound_servers
contains-sound_servers useable version s [] h = refl
contains-sound_servers useable version s (r ∷ rs) h =
    ground (arith, contains-sound_servers useable version s rs)

contains-same :
    (a b : ℕ) (xs : List ℕ) → a == b ≡ true → contains b xs ≡ false → contains a xs ≡ false
contains-same a b xs e h = subst (λ (c : ℕ). contains c xs ≡ false) (sym ((==_iff a b).0 e)) h

sound-apart :
    (useable : ℕ → Bool) (version s : ℕ) (rs : List Replica)
    → Distinct (servers_of rs)
    → contains s (sound_servers useable version rs) ≡ true
    → contains s (excepted useable version rs) ≡ false
unfolding sound_servers excepted
sound-apart useable version s [] d h = refl
sound-apart useable version s (r ∷ rs) d h = ground (
  arith,
  sound-apart useable version s rs,
  ==_iff s r.server,
  contains-excepted useable version s rs,
  contains-sound_servers useable version s rs,
  contains-same s r.server (servers_of rs),
)

levelled-told :
    (main s now : ℕ) (ch : Choices) (has except : List ℕ) (b : Block)
    → length has ≤ ch.block_count
    → told s (levelled main ch now has except b).0 ≡ false
unfolding levelled recovered
levelled-told main s now ch has except b l = elim (Bool-cases (ltb (length has) ch.block_count)) [
  | inl t ↦ rw t (at_list (ch.distribute has except))
  | inr f ↦ ground (arith, f, l)
]
  where
    at_list : (ss : List ℕ) → told s (recovered main ch now ss b).0 ≡ false
    at_list [] = refl
    at_list (x ∷ ss) = refl

check_at-spares :
    (useable : ℕ → Bool) (ch : Choices) (now s : ℕ) (main : Option Replica) (b : Block)
    → Distinct (servers_of b.chunk_server)
    → length (sound_servers useable b.version b.chunk_server) ≤ ch.block_count
    → contains s (sound_servers useable b.version b.chunk_server) ≡ true
    → told s (check_at useable ch now main b).0 ≡ false
unfolding check_at
check_at-spares useable ch now s none b d l h = refl
check_at-spares useable ch now s (some main) b d l h =
    let has = sound_servers useable b.version b.chunk_server in
    let except = excepted useable b.version b.chunk_server in
    ground (
      arith,
      told_append s (clean_all b.id except) (levelled main.server ch now has except b).0,
      told-clean_all s b.id except,
      sound-apart useable b.version s b.chunk_server d h,
      levelled-told main.server s now ch has except b l,
    )

-- On a block whose replicas are on distinct servers: while no more than the wanted number of replicas are sound, no
-- server with a sound one is told to clean the block.
pub check_replica-spares :
    (useable : ℕ → Bool) (ch : Choices) (now s : ℕ) (b : Block)
    → Distinct (servers_of b.chunk_server)
    → length (sound_servers useable b.version b.chunk_server) ≤ ch.block_count
    → contains s (sound_servers useable b.version b.chunk_server) ≡ true
    → told s (check_replica useable ch now b).0 ≡ false
unfolding check_replica
check_replica-spares useable ch now s b d l h = elim (Bool-cases (ltb now b.recover_lease)) [
  | inl t ↦ rw t refl
  | inr f ↦ rw f (
      check_at-spares useable ch now s (replica_at b.chunk_server (find_main_replica useable now b))
        b d l h)
]
