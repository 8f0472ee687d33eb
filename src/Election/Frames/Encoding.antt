-- ===== src/Election/Frames/Encoding.antt =====
-- Messages as their senders write them, with their headers.
use mathlib.Core.List.{head-eq_of_cons-eq, tail-eq_of_cons-eq, cons≢nil}
use zookeeper.Prelude.{
  ◌⊎◌, inl, inr, ℕ, zero, suc, ◌+◌, ◌/◌, ◌%◌, ◌^◌, ◌≤◌, ◌<◌, ◌≡◌, refl, sym, subst, ap, ◌∙◌, List,
  [], ◌∷◌, ◌++◌, arith, All, length, drop, take, length-append, drop-length, take-length,
}
use zookeeper.Election.Frames.{
  Frame, Scan, scanned, fault, stuck, overrun, partial, prepend, whole, turn, frame, header_size,
  net_buff_size, Fits, word, prepend, scan, deal,
}
use zookeeper.Election.Frames.Reassembly.{scan_all, joined, word-append, deal-scan_all}

-- A message as `BrocastVote`, `TickSendPing` and the answer to a ping write it.
unfoldable pub encode : Frame → List ℕ
encode m =
    let size = length m.body + 4 in size % 256 ∷ size / 256 ∷ m.id % 256 ∷ m.id / 256 ∷ m.body

unfoldable pub encode_all : List Frame → List ℕ
unfolding encode
encode_all [] = []
encode_all (m ∷ ms) = encode m ++ encode_all ms

-- What fits in the buffer and in the int16_t of a header.
abbrev pub IsFrame : Frame → Type 0
IsFrame m = (length m.body + 4 ≤ net_buff_size) × (m.id < 2 ^ 15)

length-encode : (m : Frame) → length (encode m) ≡ length m.body + 4
unfolding encode
length-encode m = omega arith

turn-encode : (m : Frame) (rest : List ℕ) → IsFrame m → turn (encode m ++ rest) ≡ whole
unfolding turn word encode
turn-encode m rest h = ground (arith, length-append m.body rest)

word-encode : (m : Frame) (rest : List ℕ) → word (encode m ++ rest) 0 ≡ length (encode m)
unfolding word encode
word-encode m rest = omega arith

id-encode : (m : Frame) (rest : List ℕ) → word (encode m ++ rest) 2 ≡ m.id
unfolding word encode
id-encode m rest = omega arith

body-encode :
    (m : Frame) (rest : List ℕ)
    → drop header_size (take (word (encode m ++ rest) 0) (encode m ++ rest)) ≡ m.body
unfolding encode
body-encode m rest =
    ap (λ (n : ℕ). drop header_size (take n (encode m ++ rest))) (word-encode m rest)
    ∙ ap (drop header_size) (take-length (encode m) rest)

frame-encode : (m : Frame) (rest : List ℕ) → frame (encode m ++ rest) ≡ m
unfolding frame
frame-encode m rest = λ i. record { id = id-encode m rest i; body = body-encode m rest i }

scan-encode_all :
    (ms : List Frame) (f : ℕ)
    → All IsFrame ms
    → length (encode_all ms) < f
    → scan f (encode_all ms) ≡ scanned ms []
unfolding scan encode_all
scan-encode_all ms zero h k = absurd (omega arith)
scan-encode_all [] (suc f) h k = unfold turn in refl
scan-encode_all (m ∷ ms) (suc f) h k =
    rw
      (
        turn-encode m (encode_all ms) h.0,
        frame-encode m (encode_all ms),
        word-encode m (encode_all ms),
        drop-length (encode m) (encode_all ms),
        scan,
      )
      (ap (prepend m) (
        scan-encode_all ms f h.1
          (omega (arith, length-append (encode m) (encode_all ms), length-encode m))))

-- Messages of at most 1024 bytes with their header, the size of the buffer, and with ids below 2 ^ 15, that are written
-- one after another are read back by the loop, and nothing is left over, however the bytes are cut into chunks that
-- are each no longer than the free part of the buffer.
pub deal-encode_all :
    (ms : List Frame) (chunks : List (List ℕ))
    → All IsFrame ms
    → Fits chunks []
    → joined chunks ≡ encode_all ms
    → deal chunks [] ≡ scanned ms []
unfolding scan_all scan turn
deal-encode_all ms chunks h fits e =
    deal-scan_all chunks [] fits refl
    ∙ ap scan_all e
    ∙ scan-encode_all ms (suc (length (encode_all ms))) h (omega arith)

-- The result of a loop whose buffer has room for another byte.
abbrev pub HasRoom : Scan → Type 0
HasRoom (scanned ms rest) = length rest < net_buff_size
HasRoom fault = ⊥
HasRoom stuck = ⊥
HasRoom overrun = ⊥

prepend-HasRoom : (m : Frame) (s : Scan) → HasRoom s → HasRoom (prepend m s)
prepend-HasRoom m (scanned ms rest) h = h
prepend-HasRoom m fault h = h
prepend-HasRoom m stuck h = h
prepend-HasRoom m overrun h = h

-- A front part of a message, and a whole message with what follows it.
cut_at :
    (first more front rest : List ℕ)
    → front ++ rest ≡ first ++ more
    → (length front < length first)
      ⊎ ((left : List ℕ) × (front ≡ first ++ left) × (left ++ rest ≡ more))
cut_at [] more front rest e = inr (front, refl, e)
cut_at (x ∷ first) more [] rest e = inl (omega arith)
cut_at (x ∷ first) more (y ∷ front) rest e =
    elim (cut_at first more front rest (tail-eq_of_cons-eq e)) [
      | inl l ↦ inl (omega arith)
      | inr (left, f, g) ↦ inr (left, λ i. head-eq_of_cons-eq e i ∷ f i, g)
    ]

turn-front :
    (m : Frame) (b rest more : List ℕ)
    → IsFrame m
    → b ++ rest ≡ encode m ++ more
    → length b < length (encode m)
    → turn b ≡ partial
unfolding turn
turn-front m b rest more h e l =
    ground
      (arith, word-append b rest 0, ap (λ xs. word xs 0) e, word-encode m more, length-encode m)

scan-HasRoom :
    (ms : List Frame) (f : ℕ) (b rest : List ℕ)
    → All IsFrame ms
    → b ++ rest ≡ encode_all ms
    → length b < f
    → HasRoom (scan f b)
unfolding scan encode_all
scan-HasRoom ms zero b rest h e l = absurd (omega arith)
scan-HasRoom [] (suc f) [] rest h e l = unfold turn in omega arith
scan-HasRoom [] (suc f) (x ∷ b) rest h e l = absurd (cons≢nil e)
scan-HasRoom (m ∷ ms) (suc f) b rest h e l = elim (cut_at (encode m) (encode_all ms) b rest e) [
  | inl short ↦
      rw (turn-front m b rest (encode_all ms) h.0 e short, scan)
        (omega (arith, h.0, length-encode m))
  | inr (left, same, after) ↦
      subst (λ (xs : List ℕ). HasRoom (scan (suc f) xs)) (sym same)
        (rw (turn-encode m left h.0, scan)
          (prepend-HasRoom (frame (encode m ++ left))
            (scan f (drop (word (encode m ++ left) 0) (encode m ++ left)))
            (subst (λ (xs : List ℕ). HasRoom (scan f xs))
              (sym (
                ap (λ (n : ℕ). drop n (encode m ++ left)) (word-encode m left)
                ∙ drop-length (encode m) left))
              (scan-HasRoom ms f left rest h.1 after (
                omega (
                  arith,
                  ap (λ (xs : List ℕ). length xs) same,
                  length-append (encode m) left,
                  length-encode m,
                  l,
                ))))))
]

-- When the chunks that have come, each no longer than the free part of the buffer, are a front part of messages of
-- at most 1024 bytes with ids below 2 ^ 15, the buffer is not full: the loop asks for at least one more byte.
pub deal-HasRoom :
    (ms : List Frame) (chunks : List (List ℕ)) (more : List ℕ)
    → All IsFrame ms
    → Fits chunks []
    → joined chunks ++ more ≡ encode_all ms
    → HasRoom (deal chunks [])
unfolding scan_all scan turn
deal-HasRoom ms chunks more h fits e =
    subst (λ (s : Scan). HasRoom s) (sym (deal-scan_all chunks [] fits refl))
      (scan-HasRoom ms (suc (length (joined chunks))) (joined chunks) more h e (omega arith))
