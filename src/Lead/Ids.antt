-- ===== src/Lead/Ids.antt =====
-- The ids of the drafts: `ZXID` and `EPOCH_FROM_ZXID`, and the order of the map of drafts.
use zookeeper.Prelude.{
  ℕ, suc, ◌+◌, ◌-◌, ◌*◌, ◌/◌, ◌%◌, ◌^◌, ◌≤◌, ◌<◌, ◌≡◌, refl, sym, ap, subst, ◌⊎◌, true, false, List,
  [], ◌∷◌, ◌++◌, arith, ltb, ◌==◌, length, set, replicate, inl, inr,
}
use zookeeper.Prelude.Shift.{bit_or-shifted}
use zookeeper.Dataset.Core.{Client}
use zookeeper.Lead.{Lead, Draft, zxid, insert_draft, new_draft}

zxid-sum : (epoch id : ℕ) → id < 2 ^ 32 → zxid epoch id ≡ epoch * 2 ^ 32 + id
unfolding zxid
zxid-sum epoch id h = bit_or-shifted 32 epoch id h

-- `EPOCH_FROM_ZXID(zxid)`, of an id that is not negative.
unfoldable pub epoch_from_zxid : ℕ → ℕ
epoch_from_zxid zx_id = zx_id / 2 ^ 32 % 2 ^ 32

-- The epoch comes out of an id again.
pub epoch_from_zxid-zxid :
    (epoch id : ℕ) → epoch < 2 ^ 31 → id < 2 ^ 32 → epoch_from_zxid (zxid epoch id) ≡ epoch
unfolding epoch_from_zxid
epoch_from_zxid-zxid epoch id e h = omega (arith, zxid-sum epoch id h)

-- Ids compare by their epochs first and by their numbers second.
pub zxid-lt :
    (epoch id other next : ℕ)
    → id < 2 ^ 32
    → next < 2 ^ 32
    → (epoch < other) ⊎ ((epoch ≡ other) × (id < next))
    → zxid epoch id < zxid other next
zxid-lt epoch id other next h k (inl lt) = omega (arith, zxid-sum epoch id h, zxid-sum other next k)
zxid-lt epoch id other next h k (inr (same, lt)) =
    omega (arith, zxid-sum epoch id h, zxid-sum other next k)

-- Keys that rise from `lo` and stay below `hi`.
unfoldable pub KeysRise : ℕ → ℕ → List (ℕ × Draft) → Type 0
KeysRise lo hi [] = Unit {0}
KeysRise lo hi ((k, d) ∷ drafts) = (lo ≤ k) × (k < hi) × KeysRise (suc k) hi drafts

pub insert_draft-last :
    (lo k : ℕ) (d : Draft) (drafts : List (ℕ × Draft))
    → KeysRise lo k drafts
    → insert_draft k d drafts ≡ drafts ++ (k, d) ∷ []
unfolding insert_draft KeysRise
insert_draft-last lo k d [] h = refl
insert_draft-last lo k d ((j, e) ∷ drafts) h =
    let (above, below, rest) = h in
    let later : ltb k j ≡ false = ground arith in
    let apart : k == j ≡ false = ground arith in
    rw (later, apart) (ap (◌∷◌ (j, e)) (insert_draft-last (suc j) k d drafts rest))

KeysRise-snoc :
    (lo k hi : ℕ) (d : Draft) (drafts : List (ℕ × Draft))
    → lo ≤ k
    → k < hi
    → KeysRise lo k drafts
    → KeysRise lo hi (drafts ++ (k, d) ∷ [])
unfolding KeysRise
KeysRise-snoc lo k hi d [] a b h = (a, b, tt)
KeysRise-snoc lo k hi d ((j, e) ∷ drafts) a b h =
    let (above, below, rest) = h in
    (above, omega arith, KeysRise-snoc (suc j) k hi d drafts (omega arith) b rest)

-- A new draft goes behind all others, and the keys go on rising below the id of the next one, if the
-- numbers of the epoch are not used up.
pub new_draft-last {ℓ} :
    {S : Type ℓ} (c : Client S) (l : Lead S) (id request_id : ℕ) (bytes : List ℕ)
    → l.next_id + 1 < 2 ^ 32
    → KeysRise 0 (zxid l.peer_epoch l.next_id) l.uncommit
    → (draft : Draft) × ((new_draft c l id request_id bytes).uncommit
        ≡ l.uncommit ++ (zxid l.peer_epoch l.next_id, draft) ∷ [])
      × (draft.id ≡ id)
      × (draft.request_id ≡ request_id)
      × (draft.data_bytes ≡ bytes)
      × KeysRise 0
          (zxid l.peer_epoch (new_draft c l id request_id bytes).next_id)
          (new_draft c l id request_id bytes).uncommit
unfolding new_draft
new_draft-last c l id request_id bytes room h =
    let zx_id : ℕ = zxid l.peer_epoch l.next_id in
    let draft : Draft = record {
      id = id;
      request_id = request_id;
      zx_id = zx_id;
      data_bytes = bytes;
      vote = set (replicate (length l.forwarding) false) (id - 1) true;
    } in
    let last = insert_draft-last 0 zx_id draft l.uncommit h in
    let rises : zx_id < zxid l.peer_epoch (l.next_id + 1) = omega (
      arith,
      zxid-sum l.peer_epoch l.next_id (omega arith),
      zxid-sum l.peer_epoch (l.next_id + 1) room,
    ) in
    (
      draft,
      last,
      refl,
      refl,
      refl,
      subst (KeysRise 0 (zxid l.peer_epoch (l.next_id + 1))) (sym last) (
          KeysRise-snoc 0 zx_id (zxid l.peer_epoch (l.next_id + 1)) draft l.uncommit (omega arith)
            rises h),
    )
