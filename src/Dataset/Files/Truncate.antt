-- ===== src/Dataset/Files/Truncate.antt =====
-- What `LoadLogData` finds in a file that `TruncFile` has cut.
use zookeeper.Prelude.{
  ℕ, zero, suc, ◌≤◌, ◌<◌, ◌≡◌, refl, sym, ap, ◌∙◌, List, [], ◌∷◌, arith, if◌then◌else◌, ltb, ◌==◌,
  inl, inr, Bool-cases, ltb→lt,
}
use zookeeper.Dataset.Files.{Desc, trunc_logs}

-- The descriptors that the loops over a file visit: up to the count, or the first with zxId 0.
unfoldable pub live : ℕ → List Desc → List Desc
live zero logs = []
live (suc n) [] = []
live (suc n) (desc ∷ logs) = let rest = live n logs in if desc.zx_id == 0 then [] else desc ∷ rest

-- Those up to an id, in order.
pub up_to : ℕ → List Desc → List Desc
up_to start [] = []
up_to start (desc ∷ logs) =
    let rest = up_to start logs in if ltb start desc.zx_id then rest else desc ∷ rest

-- Ids that rise.
unfoldable pub Ascends : ℕ → List Desc → Type 0
Ascends lo [] = Unit {0}
Ascends lo (desc ∷ logs) = (lo < desc.zx_id) × Ascends desc.zx_id logs

up_to-none :
    (lo start : ℕ) (logs : List Desc) → start ≤ lo → Ascends lo logs → up_to start logs ≡ []
unfolding up_to Ascends
up_to-none lo start [] h a = refl
up_to-none lo start (desc ∷ logs) h a =
    ground (arith, up_to-none desc.zx_id start logs (omega (arith, a.0)) a.1, a.0)

live-zeroed :
    (n : ℕ) (desc : Desc) (logs : List Desc) → live n (record desc { zx_id = 0 } ∷ logs) ≡ []
unfolding live
live-zeroed zero desc logs = refl
live-zeroed (suc n) desc logs = refl

-- After the truncation of a file whose ids rise, a load finds exactly the bills up to the given id.
pub trunc_logs_lem :
    (n lo start : ℕ) (logs : List Desc)
    → Ascends lo (live n logs)
    → live (trunc_logs n start logs).1 (trunc_logs n start logs).0 ≡ up_to start (live n logs)
unfolding live up_to trunc_logs
trunc_logs_lem zero lo start logs a = refl
trunc_logs_lem (suc n) lo start [] a = refl
trunc_logs_lem (suc n) lo start (desc ∷ logs) a = elim (Bool-cases (desc.zx_id == 0)) [
  | inl e ↦ rw e refl
  | inr e ↦
      let b : Ascends lo (desc ∷ live n logs) = rw e at a in
      let later : Ascends desc.zx_id (live n logs) = unfold Ascends in b.1 in
      elim (Bool-cases (ltb start desc.zx_id)) [
        | inl newer ↦
            rw (e, newer)
              (live-zeroed (trunc_logs n start logs).1 desc (trunc_logs n start logs).0
                ∙ sym (
                    up_to-none desc.zx_id start (live n logs) (omega (arith, ltb→lt _ _ newer))
                      later))
        | inr older ↦
            rw (e, older, e) (ap (◌∷◌ desc) (trunc_logs_lem n desc.zx_id start logs later))
      ]
]
