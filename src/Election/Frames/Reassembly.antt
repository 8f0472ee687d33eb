-- ===== src/Election/Frames/Reassembly.antt =====
-- A stream that comes in chunks, next to the same bytes in one piece.
use zookeeper.Prelude.{
  ℕ, zero, suc, ◌+◌, ◌-◌, ◌≤◌, ◌<◌, subst, ◌≡◌, refl, sym, ap, ◌∙◌, ◌⊎◌, inl, inr, List, [], ◌∷◌,
  ◌++◌, arith, length, drop, append_assoc, append-nil, length-append, length-drop, drop-append,
  take-append, get_or-append, ℕ_discrete,
}
use zookeeper.Election.Frames.{
  Frame, Scan, scanned, fault, stuck, overrun, net_buff_size, After, Fits, Turn, partial, negative,
  whole, turn, frame, header_size, word, prepend, prepend_all, scan, receive, then_receive, deal,
}

Turn-cases : (t : Turn) → (t ≡ partial) ⊎ ((t ≡ negative) ⊎ (t ≡ whole))
Turn-cases partial = inl refl
Turn-cases negative = inr (inl refl)
Turn-cases whole = inr (inr refl)

turn-whole : (b : List ℕ) → turn b ≡ whole → (header_size ≤ length b) × (word b 0 ≤ length b)
unfolding turn
turn-whole b h = ground arith

-- At a header with size 0 the loop never ends: it is stuck, whatever the fuel.
pub zero_size_hangs :
    (fuel : ℕ) (b : List ℕ) → header_size ≤ length b → word b 0 ≡ 0 → scan fuel b ≡ stuck
unfolding scan turn
zero_size_hangs zero b h e = refl
zero_size_hangs (suc fuel) b h e =
    let cut : turn b ≡ whole = ground arith in rw (cut, scan, e, zero_size_hangs fuel b h e) refl

-- Fuel beyond the length of the buffer changes nothing.
pub scan_fuel : (f g : ℕ) (b : List ℕ) → length b < f → length b < g → scan f b ≡ scan g b
unfolding scan
scan_fuel zero g b h k = absurd (omega arith)
scan_fuel (suc f) zero b h k = absurd (omega arith)
scan_fuel (suc f) (suc g) b h k = elim (Turn-cases (turn b)) [
  | inl e ↦ rw (e, scan) refl
  | inr (inl e) ↦ rw (e, scan) refl
  | inr (inr e) ↦ elim (ℕ_discrete (word b 0) 0) [
    | yes z ↦
        zero_size_hangs (suc f) b (turn-whole b e).0 z
        ∙ sym (zero_size_hangs (suc g) b (turn-whole b e).0 z)
    | no nz ↦
        rw (e, scan)
          (ap (prepend (frame b)) (
            scan_fuel f g (drop (word b 0) b)
              (omega (arith, length-drop (word b 0) b, turn-whole b e))
              (omega (arith, length-drop (word b 0) b, turn-whole b e))))
  ]
]

-- The whole stream at once.
unfoldable pub scan_all : List ℕ → Scan
scan_all b = scan (suc (length b)) b

pub word-append : (b c : List ℕ) (i : ℕ) → i + 1 < length b → word (b ++ c) i ≡ word b i
unfolding word
word-append b c i h = omega (arith, get_or-append i b c 0, get_or-append (i + 1) b c 0)

turn-append-whole : (b c : List ℕ) → turn b ≡ whole → turn (b ++ c) ≡ whole
unfolding turn
turn-append-whole b c h = ground (arith, word-append b c 0, length-append b c)

turn-append-negative : (b c : List ℕ) → turn b ≡ negative → turn (b ++ c) ≡ negative
unfolding turn
turn-append-negative b c h = ground (arith, word-append b c 0, length-append b c)

frame-append : (b c : List ℕ) → turn b ≡ whole → frame (b ++ c) ≡ frame b
unfolding frame
frame-append b c h =
    let (enough, fits) = turn-whole b h in
    rw
      (
        word-append b c 0 (omega arith),
        word-append b c 2 (omega arith),
        take-append (word b 0) b c fits,
      )
      refl

then_receive-prepend :
    (next : List ℕ → Scan) (m : Frame) (s : Scan)
    → then_receive next (prepend m s) ≡ prepend m (then_receive next s)
unfolding then_receive prepend_all
then_receive-prepend next m (scanned ms rest) = refl
then_receive-prepend next m fault = refl
then_receive-prepend next m stuck = refl
then_receive-prepend next m overrun = refl

-- What is cut off first does not depend on the bytes that come behind.
scan-append :
    (f g : ℕ) (b c : List ℕ)
    → length b < f
    → length (b ++ c) < g
    → scan g (b ++ c) ≡ then_receive (λ rest. scan_all (rest ++ c)) (scan f b)
unfolding scan then_receive prepend_all scan_all
scan-append zero g b c h k = absurd (omega arith)
scan-append (suc f) zero b c h k = absurd (omega arith)
scan-append (suc f) (suc g) b c h k = elim (Turn-cases (turn b)) [
  | inl e ↦ rw (e, scan) (scan_fuel (suc g) (suc (length (b ++ c))) (b ++ c) k (omega arith))
  | inr (inl e) ↦ rw (turn-append-negative b c e, e, scan) refl
  | inr (inr e) ↦
      let (enough, fits) = turn-whole b e in
      let longer : header_size ≤ length (b ++ c) = omega (arith, length-append b c) in
      let same : word (b ++ c) 0 ≡ word b 0 = word-append b c 0 (omega arith) in
      elim (ℕ_discrete (word b 0) 0) [
        | yes z ↦
            zero_size_hangs (suc g) (b ++ c) longer (same ∙ z)
            ∙ sym (
                ap (then_receive (λ rest. scan_all (rest ++ c)))
                  (zero_size_hangs (suc f) b enough z))
        | no nz ↦
            rw
              (
                turn-append-whole b c e,
                e,
                frame-append b c e,
                same,
                drop-append (word b 0) b c fits,
                scan,
              )
              (ap (prepend (frame b)) (
                  scan-append f g (drop (word b 0) b) c (omega (arith, length-drop (word b 0) b)) (
                    omega (
                      arith,
                      length-append b c,
                      length-append (drop (word b 0) b) c,
                      length-drop (word b 0) b,
                    )))
                ∙ sym (
                    then_receive-prepend (λ rest. scan_all (rest ++ c)) (frame b)
                      (scan f (drop (word b 0) b))))
      ]
]

-- All bytes of a list of chunks.
unfoldable pub joined : List (List ℕ) → List ℕ
joined [] = []
joined (chunk ∷ chunks) = chunk ++ joined chunks

-- The bytes that stay hold no whole message.
abbrev Settles : Scan → Type 0
Settles = After (λ rest. scan_all rest ≡ scanned [] rest)

prepend-After : (P : List ℕ → Type 0) (m : Frame) (s : Scan) → After P s → After P (prepend m s)
prepend-After P m (scanned ms rest) h = h
prepend-After P m fault h = tt
prepend-After P m stuck h = tt
prepend-After P m overrun h = tt

scan-Settles : (f : ℕ) (b : List ℕ) → Settles (scan f b)
unfolding scan
scan-Settles zero b = tt
scan-Settles (suc f) b = elim (Turn-cases (turn b)) [
  | inl e ↦ rw (e, scan) (unfold scan_all in rw (e, scan) refl)
  | inr (inl e) ↦ rw (e, scan) tt
  | inr (inr e) ↦
      rw (e, scan)
        (prepend-After (λ rest. scan_all rest ≡ scanned [] rest) (frame b)
          (scan f (drop (word b 0) b)) (scan-Settles f (drop (word b 0) b)))
]

then_receive_cong :
    (k l : List ℕ → Scan) (P : List ℕ → Type 0) (s : Scan)
    → Settles s
    → After P s
    → ((rest : List ℕ) → scan_all rest ≡ scanned [] rest → P rest → k rest ≡ l rest)
    → then_receive k s ≡ then_receive l s
unfolding then_receive
then_receive_cong k l P (scanned ms rest) h p same = ap (prepend_all ms) (same rest h p)
then_receive_cong k l P fault h p same = refl
then_receive_cong k l P stuck h p same = refl
then_receive_cong k l P overrun h p same = refl

-- A chunk that fits is dealt with.
receive-fits :
    (buff chunk : List ℕ)
    → length chunk ≤ net_buff_size - length buff
    → receive buff chunk ≡ scan_all (buff ++ chunk)
unfolding receive scan_all
receive-fits buff chunk h = ground arith

pub deal-scan_all :
    (chunks : List (List ℕ)) (buff : List ℕ)
    → Fits chunks buff
    → scan_all buff ≡ scanned [] buff
    → deal chunks buff ≡ scan_all (buff ++ joined chunks)
unfolding deal joined Fits scan_all
deal-scan_all [] buff fits h = rw append-nil (sym h)
deal-scan_all (chunk ∷ chunks) buff fits h =
    ap (then_receive (deal chunks)) dealt
    ∙ then_receive_cong (deal chunks) (λ rest. scan_all (rest ++ joined chunks)) (Fits chunks)
        (scan_all (buff ++ chunk)) (scan-Settles (suc (length (buff ++ chunk))) (buff ++ chunk))
        (subst (After (Fits chunks)) dealt fits.1)
        (λ rest settled fit. deal-scan_all chunks rest fit settled)
    ∙ sym (
        unfold scan_all in
        scan-append (suc (length (buff ++ chunk))) (suc (length ((buff ++ chunk) ++ joined chunks)))
          (buff ++ chunk) (joined chunks) (omega arith) (omega arith))
    ∙ ap scan_all (append_assoc buff chunk (joined chunks))
  where
    dealt : receive buff chunk ≡ scan_all (buff ++ chunk)
    dealt = receive-fits buff chunk fits.0
