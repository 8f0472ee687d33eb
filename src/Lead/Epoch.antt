-- ===== src/Lead/Epoch.antt =====
-- paxos/paxos/lead.cpp before the drafts: the registration of followers, the new epoch
-- (`GetPeerEpoch`), the wait for synchronised followers, and the watch over them (`Process`).
use zookeeper.Prelude.{
  ℕ, zero, suc, ◌+◌, ◌-◌, ◌/◌, ◌≤◌, ◌<◌, ◌≡◌, refl, Bool, true, false, List, [], ◌∷◌, ◌++◌, Option,
  none, some, arith, if◌then◌else◌, ltb, leb, length, get_elem?, get_or, set, count_if, count_if-le,
  All, Bool-cases, inl, inr,
}

abbrev pub half_broken_check_interval : ℕ
half_broken_check_interval = 1000

-- The members of `Lead` that the handlers of the followers share. A descriptor 0 is none, and an epoch 0
-- one that was not received.
pub record Hall : Type 0 where
  pub followers : List ℕ
  pub forwarding : List ℕ
  pub wait_for_peer_epoch : Bool
  pub peer_epoch : ℕ
  pub recv_peer_epoch : List ℕ
  pub recv_new_leader : List Bool

-- `Register`; none is the exception.
unfoldable pub register : Hall → ℕ → ℕ → Option Hall
register h id fd =
    if ltb 0 (get_or h.followers (id - 1) 0)
    then none
    else some (record h { followers = set h.followers (id - 1) fd })

-- `Unregister`
unfoldable pub unregister : Hall → ℕ → Hall
unregister h id = record h {
  followers = set h.followers (id - 1) 0;
  forwarding =
      if ltb 0 (get_or h.forwarding (id - 1) 0) then set h.forwarding (id - 1) 0 else h.forwarding;
}

-- `StartForwarding`
unfoldable pub start_forwarding : Hall → ℕ → ℕ → Hall
start_forwarding h id fd = record h { forwarding = set h.forwarding (id - 1) fd }

-- The beginning of `GetPeerEpoch`: the epoch that is known already, or none for a caller that goes on to
-- poll.
unfoldable pub report_epoch : Hall → ℕ → ℕ → Hall × Option ℕ
report_epoch h id epoch =
    if h.wait_for_peer_epoch
    then (record h { recv_peer_epoch = set h.recv_peer_epoch (id - 1) epoch }, none)
    else (h, some h.peer_epoch)

-- The test that ends the polling.
unfoldable pub is_gathered : Hall → Bool
is_gathered h = leb (length h.recv_peer_epoch / 2 + 1) (count_if (ltb 0) h.recv_peer_epoch)

-- `for (auto epoch : _recvPeerEpoch) if (epoch > 0 && epoch > peerEpoch) peerEpoch = epoch`
unfoldable pub biggest_epoch : ℕ → List ℕ → ℕ
biggest_epoch epoch [] = epoch
biggest_epoch epoch (e ∷ es) = biggest_epoch (if ltb epoch e then e else epoch) es

-- The end of `GetPeerEpoch`, half a second after the polling has ended.
unfoldable pub announce_epoch : Hall → ℕ → Hall × ℕ
announce_epoch h epoch =
    let next : ℕ = biggest_epoch epoch h.recv_peer_epoch + 1 in
    (record h { wait_for_peer_epoch = false; peer_epoch = next }, next)

-- `WaitForNewLeader`: what it records, and the test that ends its polling.
unfoldable pub report_synced : Hall → ℕ → Hall
report_synced h id = record h { recv_new_leader = set h.recv_new_leader (id - 1) true }

unfoldable pub is_synced : Hall → Bool
is_synced h = leb (length h.recv_peer_epoch / 2 + 1) (count_if (λ b. b) h.recv_new_leader)

-- The loop of `Process`, over the times and descriptors that its rounds see; true if the leader gives up.
unfoldable pub process : ℕ → List (ℕ × List ℕ) → Bool
process tick [] = false
process tick ((now, fds) ∷ rounds) = elim (ltb (length fds / 2 + 1) (count_if (ltb 0) fds)) [
  | true ↦ process now rounds
  | false ↦ elim (leb (tick + half_broken_check_interval) now) [
    | true ↦ true
    | false ↦ process tick rounds
  ]
]

biggest_epoch-le : (epoch : ℕ) (es : List ℕ) → epoch ≤ biggest_epoch epoch es
unfolding biggest_epoch
biggest_epoch-le epoch [] = omega arith
biggest_epoch-le epoch (e ∷ es) =
    ground (arith, biggest_epoch-le (if ltb epoch e then e else epoch) es)

biggest_epoch-all :
    (epoch : ℕ) (es : List ℕ) (i e : ℕ) → get_elem? es i ≡ some e → e ≤ biggest_epoch epoch es
unfolding biggest_epoch
biggest_epoch-all epoch [] i e g = ground arith
biggest_epoch-all epoch (x ∷ es) zero e g =
    ground (arith, biggest_epoch-le (if ltb epoch x then x else epoch) es)
biggest_epoch-all epoch (x ∷ es) (suc i) e g =
    biggest_epoch-all (if ltb epoch x then x else epoch) es i e g

biggest_epoch-least :
    (epoch bound : ℕ) (es : List ℕ)
    → epoch ≤ bound
    → ((i e : ℕ) → get_elem? es i ≡ some e → e ≤ bound)
    → biggest_epoch epoch es ≤ bound
unfolding biggest_epoch
biggest_epoch-least epoch bound [] le all = le
biggest_epoch-least epoch bound (e ∷ es) le all =
    biggest_epoch-least (if ltb epoch e then e else epoch) bound es (ground (arith, all 0 e refl))
      (λ i x g. all (suc i) x g)

-- The epoch that is announced is bigger than every epoch that was reported; another server that has
-- reported, and polls at the same time, announces the same one, and who reports later is told it.
pub announce_epoch-agrees :
    (h : Hall) (i j epoch other k e id reported : ℕ)
    → get_elem? h.recv_peer_epoch i ≡ some epoch
    → get_elem? h.recv_peer_epoch j ≡ some other
    → get_elem? h.recv_peer_epoch k ≡ some e
    → (e < (announce_epoch h epoch).1)
      × ((announce_epoch (announce_epoch h epoch).0 other).1 ≡ (announce_epoch h epoch).1)
      × ((report_epoch (announce_epoch h epoch).0 id reported).1 ≡ some (announce_epoch h epoch).1)
unfolding announce_epoch report_epoch
announce_epoch-agrees h i j epoch other k e id reported mine theirs g =
    let es : List ℕ = h.recv_peer_epoch in
    let up =
      biggest_epoch-least epoch (biggest_epoch other es) es
        (biggest_epoch-all other es i epoch mine) (λ n x at. biggest_epoch-all other es n x at) in
    let down =
      biggest_epoch-least other (biggest_epoch epoch es) es
        (biggest_epoch-all epoch es j other theirs) (λ n x at. biggest_epoch-all epoch es n x at) in
    (omega (arith, biggest_epoch-all epoch es k e g), omega (arith, up, down), refl)

-- The reports of servers that all have the epoch 0.
unfoldable pub report_zeros : Hall → List ℕ → Hall
report_zeros h [] = h
report_zeros h (id ∷ ids) = report_zeros (report_epoch h id 0).0 ids

All-set-zero :
    (es : List ℕ) (i : ℕ) → All (λ (e : ℕ). e ≡ 0) es → All (λ (e : ℕ). e ≡ 0) (set es i 0)
All-set-zero [] i h = tt
All-set-zero (e ∷ es) zero h = (refl, h.1)
All-set-zero (e ∷ es) (suc i) h = (h.0, All-set-zero es i h.1)

count_if-zeros : (es : List ℕ) → All (λ (e : ℕ). e ≡ 0) es → count_if (ltb 0) es ≡ 0
count_if-zeros [] h = refl
count_if-zeros (e ∷ es) h = ground (arith, count_if-zeros es h.1)

-- On servers that are all at the epoch 0, as new ones are, the polling never ends, whoever reports.
pub report_zeros-gathers_none :
    (h : Hall) (ids : List ℕ)
    → All (λ (e : ℕ). e ≡ 0) h.recv_peer_epoch
    → is_gathered (report_zeros h ids) ≡ false
unfolding report_zeros report_epoch is_gathered
report_zeros-gathers_none h [] zeros = ground (arith, count_if-zeros h.recv_peer_epoch zeros)
report_zeros-gathers_none h (id ∷ ids) zeros =
    report_zeros-gathers_none (report_epoch h id 0).0 ids (still h.wait_for_peer_epoch)
  where
    still :
        (waits : Bool)
        → All
            (λ (e : ℕ). e ≡ 0)
            (if◌then◌else◌ {A = Hall × Option ℕ} waits
              (record h { recv_peer_epoch = set h.recv_peer_epoch (id - 1) 0 }, none)
              (h, some h.peer_epoch)).0.recv_peer_epoch
    still true = All-set-zero h.recv_peer_epoch (id - 1) zeros
    still false = zeros

count_if-lt : (fds : List ℕ) (i : ℕ) → get_elem? fds i ≡ some 0 → count_if (ltb 0) fds < length fds
count_if-lt [] i g = ground arith
count_if-lt (fd ∷ fds) zero g = ground (arith, count_if-le (ltb 0) fds)
count_if-lt (fd ∷ fds) (suc i) g = ground (arith, count_if-lt fds i g)

-- A leader of three servers, which does not forward to itself, gives up half_broken_check_interval after
-- its start at the latest, whichever followers it forwards to.
pub process_gives_up :
    (tick i now : ℕ) (rounds : List (ℕ × List ℕ)) (fds : List ℕ)
    → All (λ (r : ℕ × List ℕ). (length r.1 ≡ 3) × (get_elem? r.1 i ≡ some 0)) rounds
    → length fds ≡ 3
    → get_elem? fds i ≡ some 0
    → tick + half_broken_check_interval ≤ now
    → process tick (rounds ++ (now, fds) ∷ []) ≡ true
unfolding process
process_gives_up tick i now [] fds few n g late =
    let broken : ltb (length fds / 2 + 1) (count_if (ltb 0) fds) ≡ false =
      ground (arith, count_if-lt fds i g) in
    let over : leb (tick + half_broken_check_interval) now ≡ true = ground arith in
    rw (broken, over, process) refl
process_gives_up tick i now ((at, seen) ∷ rounds) fds few n g late =
    let ((size, own), rest) = few in
    let broken : ltb (length seen / 2 + 1) (count_if (ltb 0) seen) ≡ false =
      ground (arith, count_if-lt seen i own) in
    elim (Bool-cases (leb (tick + half_broken_check_interval) at)) [
      | inl over ↦ rw (broken, over, process) refl
      | inr early ↦
          rw (broken, early, process) (process_gives_up tick i now rounds fds rest n g late)
    ]
