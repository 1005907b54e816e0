-- ===== src/Sse/Chunks.antt =====
-- How the text is cut into chunks does not matter.
use mini_dsh.Common.{
  ℕ, zero, suc, ◌+◌, ◌≤◌, ◌<◌, ◌≡◌, refl, sym, ap, ◌∙◌, false, Option, none, some, List, [], ◌∷◌,
  ◌++◌, ltb, length, length-append, arith, Option-cases, inl, inr,
}
use mathlib.Core.List.{append_assoc}
use mini_dsh.Sse.{
  max_sse_bytes, skip_lf, skip_newline, boundary, find_frame, data_of, add_event, read_frames,
  SseParser, push,
}

skip_lf-append : (s t r : List ℕ) → skip_lf s ≡ some r → skip_lf (s ++ t) ≡ some (r ++ t)
unfolding skip_lf
skip_lf-append [] t r h = ground (arith, h)
skip_lf-append (c ∷ s) t r h = ground (arith, h)

skip_newline-append :
    (s t r : List ℕ) → skip_newline s ≡ some r → skip_newline (s ++ t) ≡ some (r ++ t)
unfolding skip_newline
skip_newline-append [] t r h = ground (arith, h)
skip_newline-append (c ∷ s) t r h = ground (arith, h, skip_lf-append s t r)

boundary-append : (s t r : List ℕ) → boundary s ≡ some r → boundary (s ++ t) ≡ some (r ++ t)
unfolding boundary
boundary-append s t r h = elim (Option-cases (skip_newline s)) [
  | inl e ↦ ground (arith, e, h)
  | inr (u, e) ↦ ground (arith, e, h, skip_newline-append s t u e, skip_newline-append u t r)
]

length-boundary : (s r : List ℕ) → boundary s ≡ some r → length r < length s
unfolding boundary skip_newline skip_lf
length-boundary [] r h = ground (arith, h)
length-boundary (c ∷ []) r h = ground (arith, h)
length-boundary (c ∷ d ∷ []) r h = ground (arith, h)
length-boundary (c ∷ d ∷ e ∷ []) r h = ground (arith, h)
length-boundary (c ∷ d ∷ e ∷ f ∷ s) r h = ground (arith, h)

-- A boundary that starts before one that is complete is complete itself.
boundary_late :
    (c : ℕ) (s t : List ℕ) (fr : List ℕ × List ℕ)
    → boundary (c ∷ s) ≡ none
    → find_frame s ≡ some fr
    → boundary (c ∷ s ++ t) ≡ none
unfolding find_frame boundary skip_newline skip_lf
boundary_late c [] t fr h f = ground (arith, f)
boundary_late c (d ∷ []) t fr h f = ground (arith, f)
boundary_late c (d ∷ e ∷ []) t fr h f = ground (arith, f, h)
boundary_late c (d ∷ e ∷ g ∷ s) t fr h f = ground (arith, h)

find_frame-append :
    (s t frame rest : List ℕ)
    → find_frame s ≡ some (frame, rest)
    → find_frame (s ++ t) ≡ some (frame, rest ++ t)
unfolding find_frame
find_frame-append [] t frame rest h = ground (arith, h)
find_frame-append (c ∷ s) t frame rest h = elim (Option-cases (boundary (c ∷ s))) [
  | inr (r, e) ↦ let longer = boundary-append (c ∷ s) t r e in ground (arith, e, longer, h)
  | inl e ↦ elim (Option-cases (find_frame s)) [
    | inl f ↦ ground (arith, e, f, h)
    | inr (fr, f) ↦
        let late = boundary_late c s t fr e f in
        let tail = find_frame-append s t fr.0 fr.1 f in ground (arith, e, f, late, tail, h)
  ]
]

length-find_frame :
    (s frame rest : List ℕ) → find_frame s ≡ some (frame, rest) → length rest < length s
unfolding find_frame
length-find_frame [] frame rest h = ground (arith, h)
length-find_frame (c ∷ s) frame rest h = elim (Option-cases (boundary (c ∷ s))) [
  | inr (r, e) ↦ ground (arith, e, h, length-boundary (c ∷ s) r e)
  | inl e ↦ elim (Option-cases (find_frame s)) [
    | inl f ↦ ground (arith, e, f, h)
    | inr (fr, f) ↦ ground (arith, e, f, h, length-find_frame s fr.0 fr.1 f)
  ]
]

-- With enough fuel the loop ends because there is no boundary any more.
read_frames_done : (n : ℕ) (s : List ℕ) → length s ≤ n → find_frame (read_frames n s).1 ≡ none
unfolding read_frames
read_frames_done zero [] h = unfold find_frame in refl
read_frames_done zero (c ∷ s) h = absurd (omega arith)
read_frames_done (suc n) s h = elim (Option-cases (find_frame s)) [
  | inl e ↦ rw (e, read_frames) e
  | inr (fr, e) ↦
      let less = length-find_frame s fr.0 fr.1 e in
      rw (e, read_frames) (read_frames_done n fr.1 (omega (arith, less)))
]

read_frames-none : (n : ℕ) (s : List ℕ) → find_frame s ≡ none → read_frames n s ≡ ([], s)
unfolding read_frames
read_frames-none zero s e = refl
read_frames-none (suc n) s e = rw (e, read_frames) refl

-- What one round does.
abbrev round : List ℕ → List (List ℕ) × List ℕ → List (List ℕ) × List ℕ
round frame r = (add_event (data_of frame) r.0, r.1)

read_frames-some :
    (n : ℕ) (s : List ℕ) (fr : List ℕ × List ℕ)
    → find_frame s ≡ some fr
    → read_frames (suc n) s ≡ round fr.0 (read_frames n fr.1)
unfolding read_frames
read_frames-some n s fr e = rw (e, read_frames) refl

-- More fuel than enough changes nothing.
read_frames_fuel :
    (n m : ℕ) (s : List ℕ) → length s ≤ n → length s ≤ m → read_frames n s ≡ read_frames m s
read_frames_fuel zero m s h k = elim (Option-cases (find_frame s)) [
  | inl e ↦ read_frames-none 0 s e ∙ sym (read_frames-none m s e)
  | inr (fr, e) ↦ let less = length-find_frame s fr.0 fr.1 e in absurd (omega (arith, less))
]
read_frames_fuel (suc n) zero s h k = elim (Option-cases (find_frame s)) [
  | inl e ↦ read_frames-none (suc n) s e ∙ sym (read_frames-none 0 s e)
  | inr (fr, e) ↦ let less = length-find_frame s fr.0 fr.1 e in absurd (omega (arith, less))
]
read_frames_fuel (suc n) (suc m) s h k = elim (Option-cases (find_frame s)) [
  | inl e ↦ read_frames-none (suc n) s e ∙ sym (read_frames-none (suc m) s e)
  | inr (fr, e) ↦
      let less = length-find_frame s fr.0 fr.1 e in
      let same = read_frames_fuel n m fr.1 (omega (arith, less)) (omega (arith, less)) in
      read_frames-some n s fr e ∙ ap (round fr.0) same ∙ sym (read_frames-some m s fr e)
]

add_event-append :
    (d : Option (List ℕ)) (xs ys : List (List ℕ)) → add_event d xs ++ ys ≡ add_event d (xs ++ ys)
unfolding add_event
add_event-append none xs ys = refl
add_event-append (some d) xs ys = refl

-- The events of what was read, and then those of the rest with more text.
abbrev then_read : List ℕ → List (List ℕ) × List ℕ → List (List ℕ) × List ℕ
then_read t r = let later = read_frames (length (r.1 ++ t)) (r.1 ++ t) in (r.0 ++ later.0, later.1)

read_frames-append :
    (n m : ℕ) (s t : List ℕ)
    → length s ≤ n
    → length (s ++ t) ≤ m
    → read_frames m (s ++ t) ≡ then_read t (read_frames n s)
read_frames-append zero m s t h k = elim (Option-cases (find_frame s)) [
  | inl e ↦
      rw (read_frames-none 0 s e) (read_frames_fuel m (length (s ++ t)) (s ++ t) k (omega arith))
  | inr (fr, e) ↦ let less = length-find_frame s fr.0 fr.1 e in absurd (omega (arith, less))
]
read_frames-append (suc n) zero s t h k = elim (Option-cases (find_frame s)) [
  | inl e ↦
      rw (read_frames-none (suc n) s e)
        (read_frames_fuel 0 (length (s ++ t)) (s ++ t) k (omega arith))
  | inr (fr, e) ↦
      let less = length-find_frame s fr.0 fr.1 e in
      absurd (omega (arith, less, length-append s t, k))
]
read_frames-append (suc n) (suc m) s t h k = elim (Option-cases (find_frame s)) [
  | inl e ↦
      rw (read_frames-none (suc n) s e)
        (read_frames_fuel (suc m) (length (s ++ t)) (s ++ t) k (omega arith))
  | inr (fr, e) ↦
      let less = length-find_frame s fr.0 fr.1 e in
      let fits : length (fr.1 ++ t) ≤ m =
        omega (arith, less, k, length-append s t, length-append fr.1 t) in
      let rest = read_frames-append n m fr.1 t (omega (arith, less)) fits in
      let r = read_frames n fr.1 in
      let later = read_frames (length (r.1 ++ t)) (r.1 ++ t) in
      read_frames-some m (s ++ t) (fr.0, fr.1 ++ t) (find_frame-append s t fr.0 fr.1 e)
      ∙ ap (round fr.0) rest
      ∙ ap (λ (l : List (List ℕ)). (l, later.1)) (sym (add_event-append (data_of fr.0) r.0 later.0))
      ∙ ap (then_read t) (sym (read_frames-some n s fr e))
]

-- The events of an answer, and none for an error.
abbrev pub events_of : Option (List (List ℕ)) → List (List ℕ)
events_of none = []
events_of (some events) = events

abbrev taken : List (List ℕ) × List ℕ → ℕ → Option (List (List ℕ)) × SseParser
taken r bytes = (some r.0, record { buffer = r.1; bytes = bytes })

abbrev read_all : List ℕ → List (List ℕ) × List ℕ
read_all text = read_frames (length text) text

push_within :
    (n : ℕ) (a : List ℕ) (p : SseParser)
    → p.bytes + n ≤ max_sse_bytes
    → push n a p ≡ taken (read_all (p.buffer ++ a)) (p.bytes + n)
unfolding push
push_within n a p h =
    let within : ltb max_sse_bytes (p.bytes + n) ≡ false = ground (arith, h) in rw within refl

-- Two chunks within the byte limit, one after the other, give the events of both at once, in order, and
-- leave the same parser; and no complete frame stays in its buffer.
pub push_split :
    (n m : ℕ) (a b : List ℕ) (p : SseParser)
    → p.bytes + n + m ≤ max_sse_bytes
    → let first = push n a p in
      let second = push m b first.1 in
      let whole = push (n + m) (a ++ b) p in
      (events_of whole.0 ≡ events_of first.0 ++ events_of second.0)
      × (second.1 ≡ whole.1)
      × (find_frame (whole.1).buffer ≡ none)
push_split n m a b p h =
    let text = p.buffer ++ a in
    let r = read_all text in
    let first = push_within n a p (omega (arith, h)) in
    let second = push_within m b (record { buffer = r.1; bytes = p.bytes + n }) h in
    let whole = push_within (n + m) (a ++ b) p (omega (arith, h)) in
    let same =
      read_frames-append (length text) (length (text ++ b)) text b (omega arith) (omega arith) in
    let joint : read_all (p.buffer ++ (a ++ b)) ≡ then_read b r =
      ap read_all (sym (append_assoc p.buffer a b)) ∙ same in
    let done : find_frame (then_read b r).1 ≡ none =
      ap (λ (x : List (List ℕ) × List ℕ). find_frame x.1) (sym same)
      ∙ read_frames_done (length (text ++ b)) (text ++ b) (omega arith) in
    let total : p.bytes + (n + m) ≡ p.bytes + n + m = omega arith in
    let all : push (n + m) (a ++ b) p ≡ taken (then_read b r) (p.bytes + n + m) =
      whole ∙ rw (joint, total) refl in
    let next : push m b (push n a p).1 ≡ taken (read_all (r.1 ++ b)) (p.bytes + n + m) =
      ap (λ (x : Option (List (List ℕ)) × SseParser). push m b x.1) first ∙ second in
    rw (all, next, first) (refl, refl, done)
