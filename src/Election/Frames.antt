-- ===== src/Election/Frames.antt =====
-- The byte streams of the election: `VoteReciver::DealNetPacket` and `VoteSender::DealPingpong` cut
-- the bytes that `hn_recv` hands them into messages, and keep an unfinished one in a buffer.
pub mod Reassembly
pub mod Encoding
use zookeeper.Prelude.{
  ℕ, zero, suc, ◌+◌, ◌-◌, ◌≤◌, ◌*◌, ◌^◌, Bool, true, false, List, [], ◌∷◌, ◌++◌, Option, none, some,
  if◌then◌else◌, ltb, leb, ◌==◌, length, take, drop, get_or, map,
}

-- `VoteHeader`: two int16_t in the byte order of the host (little-endian).
abbrev pub header_size : ℕ
header_size = 4

abbrev pub net_buff_size : ℕ
net_buff_size = 1024

abbrev pub ping_msg : ℕ
ping_msg = 0

abbrev pub pong_msg : ℕ
pong_msg = 1

abbrev pub vote_msg : ℕ
vote_msg = 2

-- The header at the front of a buffer, as the 16-bit words `size` and `id`.
unfoldable pub word : List ℕ → ℕ → ℕ
word b i = get_or b i 0 + 256 * get_or b (i + 1) 0

pub record Frame : Type 0 where
  pub id : ℕ
  pub body : List ℕ

-- The result of the inner loop: the messages in order and the bytes that stay; a read before the
-- buffer, which a negative size leads to; no end, which size 0 leads to; or more bytes than `hn_recv` was
-- asked for, which it never returns.
pub data Scan : Type 0 where
  scanned : List Frame → List ℕ → Scan
  fault : Scan
  stuck : Scan
  overrun : Scan

abbrev pub prepend : Frame → Scan → Scan
prepend m (scanned ms rest) = scanned (m ∷ ms) rest
prepend m fault = fault
prepend m stuck = stuck
prepend m overrun = overrun

-- What the tests of a turn of the inner loop say of the bytes from `pos` on: a message is not yet
-- whole, its size is negative, or it can be cut off.
pub data Turn : Type 0 where
  partial negative whole : Turn

unfoldable pub turn : List ℕ → Turn
turn b =
    if ltb (length b) header_size
    then partial
    else if leb (2 ^ 15) (word b 0)
    then negative
    else if ltb (length b) (word b 0)
    then partial
    else whole

unfoldable pub frame : List ℕ → Frame
frame b = record { id = word b 2; body = drop header_size (take (word b 0) b) }

-- `while (offset - pos >= sizeof(VoteHeader))`, on fuel; the list is the buffer from `pos` on.
unfoldable pub scan : ℕ → List ℕ → Scan
scan zero b = stuck
scan (suc fuel) b = elim (turn b) [
  | partial ↦ scanned [] b
  | negative ↦ fault
  | whole ↦ prepend (frame b) (scan fuel (drop (word b 0) b))
]

-- One turn of the outer loop: the bytes of a `hn_recv`, which is asked for `NET_BUFF_SIZE - offset` of
-- them, are put behind those in the buffer. No message is shorter than its header, so as many rounds as
-- there are bytes are enough.
unfoldable pub receive : List ℕ → List ℕ → Scan
receive buff chunk =
    let dealt = scan (suc (length (buff ++ chunk))) (buff ++ chunk) in
    if ltb (net_buff_size - length buff) (length chunk) then overrun else dealt

-- `hn_recv` keeps its bound at each turn: no chunk is longer than the free part of the buffer.
abbrev pub After : (List ℕ → Type 0) → Scan → Type 0
After P (scanned ms rest) = P rest
After P fault = Unit
After P stuck = Unit
After P overrun = Unit

unfoldable pub Fits : List (List ℕ) → List ℕ → Type 0
Fits [] buff = Unit
Fits (chunk ∷ chunks) buff =
    (length chunk ≤ net_buff_size - length buff) × After (Fits chunks) (receive buff chunk)

-- The outer loop, over the chunks that the socket hands out one after another.
pub prepend_all : List Frame → Scan → Scan
prepend_all [] s = s
prepend_all (m ∷ ms) s = prepend m (prepend_all ms s)

then_receive : (List ℕ → Scan) → Scan → Scan
unfolding prepend_all
then_receive next (scanned ms rest) = prepend_all ms (next rest)
then_receive next fault = fault
then_receive next stuck = stuck
then_receive next overrun = overrun

unfoldable pub deal : List (List ℕ) → List ℕ → Scan
unfolding then_receive
deal [] buff = scanned [] buff
deal (chunk ∷ chunks) buff = then_receive (deal chunks) (receive buff chunk)

-- What the receiver does with the messages: a PONG refreshes `_activeTick`, the bytes of a VOTE are
-- put on the channel, where they are read as a `Vote`.
pub record Received : Type 0 where
  pub refreshed : Bool
  pub votes : List (List ℕ)

unfoldable pub net_packet : Received → Frame → Received
net_packet r m =
    if m.id == pong_msg
    then record r { refreshed = true }
    else if m.id == vote_msg
    then record r { votes = r.votes ++ m.body ∷ [] }
    else r

-- What the sender does: it answers a PING with a PONG, and refreshes its `_activeTick`.
abbrev pub pong : Frame
pong = record { id = pong_msg; body = [] }

unfoldable pub ping_pong : Frame → Option Frame
ping_pong m = if m.id == ping_msg then some pong else none
