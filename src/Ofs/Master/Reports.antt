-- ===== src/Ofs/Master/Reports.antt =====
-- ofs/master/chunk/DataNodeService.cpp: what a data node reports, clients can read.
use zookeeper.Prelude.{ℕ, suc, ◌-◌, ◌*◌, ◌/◌, ◌%◌, ◌≤◌, ◌<◌, ◌≡◌, ap, arith, dec_lt}
use native.Mathlib.Nat.{le-div_iff_mul-le, mod-eq-sub-div-mul}
use zookeeper.Prelude.Eq.{name_eq, nat_eq}
use zookeeper.Ofs.Sizes.{calc_block_count}
use zookeeper.Ofs.Master.{Master}

-- A file of more than k whole blocks has a block k + 1.
pub le-calc_block_count : (b k size : ℕ) → 0 < b → k * b < size → suc k ≤ calc_block_count b size
unfolding calc_block_count
le-calc_block_count b k size p h =
    let q : k ≤ size / b = (le-div_iff_mul-le {k = b} {x = k} {y = size} p).1 (omega (arith, h)) in
    elim (dec_lt k (size / b)) [
      | yes l ↦ ground (arith, l)
      | no g ↦
          let same : size / b ≡ k = omega (arith, q, g) in
          let m : size % b ≡ size - size / b * b = mod-eq-sub-div-mul size b in
          let e : size / b * b ≡ k * b = ap (λ (t : ℕ). t * b) same in ground (arith, same, m, e, h)
    ]
