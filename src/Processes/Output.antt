-- ===== src/Processes/Output.antt =====
-- The captured output is the head of what the process printed.
use mini_dsh.Common.{
  ℕ, zero, suc, ◌≤◌, ◌≡◌, refl, false, List, [], ◌∷◌, ◌++◌, ltb, arith, length, take, length-append,
  ap, ◌∙◌, sym, map, Bool-cases, inl, inr,
}
use mathlib.Core.List.{append_assoc, append-nil, flatten}
use mini_dsh.Processes.{ProcessRecord, cap_at}

-- All chunks that arrive, one after the other.
unfoldable pub cap_all : (List ℕ → List ℕ) → ℕ → List (List ℕ) → ProcessRecord → ProcessRecord
cap_all decode ring [] r = r
cap_all decode ring (chunk ∷ chunks) r = cap_all decode ring chunks (cap_at decode ring chunk r)

take_nil : (n : ℕ) → take {A = ℕ} n [] ≡ []
take_nil zero = refl
take_nil (suc n) = refl

take_short : (n : ℕ) (xs : List ℕ) → length xs ≤ n → take n xs ≡ xs
take_short zero [] h = refl
take_short zero (x ∷ xs) h = absurd (omega arith)
take_short (suc n) [] h = refl
take_short (suc n) (x ∷ xs) h = ap (λ l. x ∷ l) (take_short n xs (omega arith))

take-append_long : (n : ℕ) (xs ys : List ℕ) → n ≤ length xs → take n (xs ++ ys) ≡ take n xs
take-append_long zero xs ys h = refl
take-append_long (suc n) [] ys h = absurd (omega arith)
take-append_long (suc n) (x ∷ xs) ys h = ap (λ l. x ∷ l) (take-append_long n xs ys (omega arith))

-- The record holds the head of the printed text, and knows whether some of it is lost.
pub record Captures (ring : ℕ) (text : List ℕ) (r : ProcessRecord) : Type 0 where
  pub head : r.output ≡ take ring text
  pub lost : r.output_truncated ≡ ltb ring (length text)

cap_at-Captures :
    (decode : List ℕ → List ℕ) (ring : ℕ) (text chunk : List ℕ) (r : ProcessRecord)
    → Captures ring text r
    → Captures ring (text ++ decode chunk) (cap_at decode ring chunk r)
unfolding cap_at
cap_at-Captures decode ring text chunk r c = elim (Bool-cases (ltb ring (length text))) [
  | inl full ↦
      let long = take-append_long ring text (decode chunk) (ground arith) in
      let len = length-append text (decode chunk) in
      record {
        head = ground (arith, c.head, c.lost, full, long, len);
        lost = ground (arith, c.lost, full, len);
      }
  | inr room ↦
      let short = take_short ring text (ground arith) in
      let len = length-append text (decode chunk) in
      let all = take_short ring (text ++ decode chunk) in
      record {
        head = ground (arith, c.head, c.lost, room, short, len, all);
        lost = ground (arith, c.head, c.lost, room, short, len);
      }
]

cap_all-Captures :
    (decode : List ℕ → List ℕ) (ring : ℕ) (chunks : List (List ℕ)) (text : List ℕ)
    (r : ProcessRecord)
    → Captures ring text r
    → Captures ring (text ++ flatten (map decode chunks)) (cap_all decode ring chunks r)
unfolding cap_all flatten
cap_all-Captures decode ring [] text r c = rw append-nil c
cap_all-Captures decode ring (chunk ∷ chunks) text r c =
    rw (sym (append_assoc text (decode chunk) (flatten (map decode chunks)))) (
      cap_all-Captures decode ring chunks (text ++ decode chunk) (cap_at decode ring chunk r)
        (cap_at-Captures decode ring text chunk r c))

-- Whatever chunks arrive for a record that has printed nothing yet, its output is the first `ring`
-- units of the texts that the chunks decode to, each one by itself, and it is marked as truncated
-- exactly when there are more.
pub cap_all_lem :
    (decode : List ℕ → List ℕ) (ring : ℕ) (chunks : List (List ℕ)) (r : ProcessRecord)
    → r.output ≡ []
    → r.output_truncated ≡ false
    → ((cap_all decode ring chunks r).output ≡ take ring (flatten (map decode chunks)))
      × ((cap_all decode ring chunks r).output_truncated
          ≡ ltb ring (length (flatten (map decode chunks))))
cap_all_lem decode ring chunks r empty whole =
    let c =
      cap_all-Captures decode ring chunks [] r
        (record { head = empty ∙ sym (take_nil ring); lost = ground arith }) in
    (c.head, c.lost)
