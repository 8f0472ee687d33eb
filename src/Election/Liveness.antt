-- ===== src/Election/Liveness.antt =====
-- What the election sends and watches beside its loop: `BrocastVote`, `TickSendPing` and
-- `VoteReciver::CheckTimeout`.
use zookeeper.Prelude.{
  ℕ, suc, ◌+◌, ◌-◌, ◌≤◌, ◌≡◌, refl, Bool, true, false, List, [], ◌∷◌, arith, ltb, if◌then◌else◌,
  All,
}
use zookeeper.Election.Vote.{Vote}
use zookeeper.Election.Frames.{Frame, ping_msg}

abbrev pub timeout : ℕ
timeout = 500

-- `BrocastVote`: the vote, with the state of the server, goes to every sender that is there; `i` is the
-- index of the first one.
unfoldable pub brocast_vote : ℕ → List Bool → ℕ → Vote → List (ℕ × Vote)
brocast_vote i [] state vote = []
brocast_vote i (sender ∷ senders) state vote =
    let rest = brocast_vote (suc i) senders state vote in
    if sender then (i, record vote { state = state }) ∷ rest else rest

-- `TickSendPing`: one PING at each wake-up, until the termination.
unfoldable pub tick_send_ping : List Bool → List Frame
tick_send_ping [] = []
tick_send_ping (terminate ∷ wakes) =
    let rest = tick_send_ping wakes in
    if terminate then [] else record { id = ping_msg; body = [] } ∷ rest

-- A wake-up of the watch: the clock, `_activeTick`, and `_terminate` at the test of the loop.
pub record Wake : Type 0 where
  pub now : ℕ
  pub active : ℕ
  pub terminate : Bool

-- `CheckTimeout`: true when it closes the connection.
unfoldable pub check_timeout : List Wake → Bool
check_timeout [] = false
check_timeout (wake ∷ wakes) =
    let rest = check_timeout wakes in
    if wake.terminate then true else if ltb timeout (wake.now - wake.active) then true else rest

-- A connection is not closed while each wake-up finds a message of the last `timeout` milliseconds and
-- no termination.
check_timeout-alive :
    (wakes : List Wake)
    → All (λ (w : Wake). (w.terminate ≡ false) × (w.now ≤ w.active + timeout)) wakes
    → check_timeout wakes ≡ false
unfolding check_timeout
check_timeout-alive [] h = refl
check_timeout-alive (w ∷ wakes) h =
    let ((runs, recent), rest) = h in
    let in_time : ltb timeout (w.now - w.active) ≡ false = ground arith in
    rw (runs, in_time) (check_timeout-alive wakes rest)
