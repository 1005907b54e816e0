-- ===== src/Guard/Comments.antt =====
-- What a comment hides from the rules.
use mini_dsh.Common.{
  Bool-cases, inl, inr, ℕ, ◌≡◌, refl, ap, ◌∙◌, Bool, true, false, not, ◌&&◌, Option, none, some,
  List, [], ◌∷◌, ◌++◌, arith, All, eqb,
}
use mini_dsh.Files.Edit.Lines.{is_space, trim_start, trim_end, cons_trimmed}
use mini_dsh.Guard.{
  squeeze, before_comment, cons_before, follows_space, without_comment, normalize_command,
  match_command, Texts, DangerousCommandsConfig,
}

-- A unit of a word: no space and no quote.
unfoldable pub is_word : ℕ → Bool
unfolding is_space
is_word c = not (is_space c) && not (eqb c 39) && not (eqb c 34)

word-space : (c : ℕ) → is_word c ≡ true → is_space c ≡ false
unfolding is_word
word-space c h = ground (arith, h)

word-blank : (c : ℕ) → is_word c ≡ true → eqb c 32 ≡ false
unfolding is_word is_space
word-blank c h = ground (arith, h)

cons_trimmed-word : (c : ℕ) (s : List ℕ) → is_space c ≡ false → cons_trimmed c s ≡ c ∷ s
unfolding cons_trimmed
cons_trimmed-word c [] h = rw h refl
cons_trimmed-word c (d ∷ s) h = refl

abbrev pub IsWord : List ℕ → Type 0
IsWord = All (λ c. is_word c ≡ true)

trim_end-word : (word s : List ℕ) → IsWord word → trim_end (word ++ s) ≡ word ++ trim_end s
unfolding trim_end
trim_end-word [] s h = refl
trim_end-word (c ∷ word) s h =
    cons_trimmed-word c (trim_end (word ++ s)) (word-space c h.0)
    ∙ ap (λ x. c ∷ x) (trim_end-word word s h.1)

squeeze-word : (word s : List ℕ) → IsWord word → squeeze false (word ++ s) ≡ word ++ squeeze false s
unfolding squeeze
squeeze-word [] s h = refl
squeeze-word (c ∷ word) s h = rw (word-space c h.0, squeeze-word word s h.1) refl

word-single : (c : ℕ) → is_word c ≡ true → eqb c 39 ≡ false
unfolding is_word
word-single c h = ground (arith, h)

word-double : (c : ℕ) → is_word c ≡ true → eqb c 34 ≡ false
unfolding is_word
word-double c h = ground (arith, h)

before_comment-step :
    (previous : Option ℕ) (c : ℕ) (s : List ℕ)
    → is_word c ≡ true
    → follows_space previous ≡ false
    → before_comment false false previous (c ∷ s)
      ≡ cons_before c (before_comment false false (some c) s)
unfolding before_comment
before_comment-step previous c s h f =
    rw (word-single c h, word-double c h, f)
      (elim (Bool-cases (eqb c 35)) [ inl e ↦ rw e refl | inr e ↦ rw e refl ])

before_comment-word :
    (previous : Option ℕ) (word r : List ℕ)
    → IsWord word
    → follows_space previous ≡ false
    → before_comment false false previous (word ++ 32 ∷ 35 ∷ r) ≡ some (word ++ 32 ∷ [])
before_comment-word previous [] r h f = unfold before_comment cons_before follows_space in refl
before_comment-word previous (c ∷ word) r h f =
    before_comment-step previous c (word ++ 32 ∷ 35 ∷ r) h.0 f
    ∙ ap (cons_before c)
        (before_comment-word (some c) word r h.1 (unfold follows_space in word-blank c h.0))
    ∙ (unfold cons_before in refl)

before_comment-none :
    (previous : Option ℕ) (word : List ℕ)
    → IsWord word
    → follows_space previous ≡ false
    → before_comment false false previous word ≡ none
before_comment-none previous [] h f = unfold before_comment in refl
before_comment-none previous (c ∷ word) h f =
    before_comment-step previous c word h.0 f
    ∙ ap (cons_before c)
        (before_comment-none (some c) word h.1 (unfold follows_space in word-blank c h.0))
    ∙ (unfold cons_before in refl)

trim_end-id : (word : List ℕ) → IsWord word → trim_end word ≡ word
unfolding trim_end
trim_end-id [] h = refl
trim_end-id (c ∷ word) h =
    cons_trimmed-word c (trim_end word) (word-space c h.0) ∙ ap (λ x. c ∷ x) (trim_end-id word h.1)

squeeze-id : (word : List ℕ) → IsWord word → squeeze false word ≡ word
unfolding squeeze
squeeze-id [] h = refl
squeeze-id (c ∷ word) h = rw (word-space c h.0, squeeze-id word h.1) refl

append_nil : (s : List ℕ) → s ++ [] ≡ s
append_nil [] = refl
append_nil (c ∷ s) = ap (λ x. c ∷ x) (append_nil s)

normalize-steps :
    (c : ℕ) (s trimmed squeezed : List ℕ)
    → is_word c ≡ true
    → trim_end (c ∷ s) ≡ trimmed
    → squeeze false trimmed ≡ squeezed
    → normalize_command (c ∷ s)
      ≡ without_comment squeezed (before_comment false false none squeezed)
unfolding normalize_command trim_start
normalize-steps c s trimmed squeezed h t q = rw (word-space c h, t, q) refl

normalize-word :
    (c : ℕ) (word : List ℕ) → IsWord (c ∷ word) → normalize_command (c ∷ word) ≡ c ∷ word
unfolding without_comment
normalize-word c word h =
    normalize-steps c word (c ∷ word) (c ∷ word) h.0 (trim_end-id (c ∷ word) h)
      (squeeze-id (c ∷ word) h)
    ∙ ap (without_comment (c ∷ word))
        (before_comment-none none (c ∷ word) h (unfold follows_space in refl))

trim_end-comment : (r : List ℕ) → trim_end (32 ∷ 35 ∷ r) ≡ 32 ∷ 35 ∷ trim_end r
unfolding trim_end cons_trimmed is_space
trim_end-comment r =
    ap (cons_trimmed 32) (cons_trimmed-word 35 (trim_end r) (unfold is_space in refl))

normalize-comment :
    (c : ℕ) (word r : List ℕ)
    → IsWord (c ∷ word)
    → normalize_command ((c ∷ word) ++ 32 ∷ 35 ∷ r) ≡ c ∷ word
unfolding without_comment
normalize-comment c word r h =
    let kept = squeeze false (trim_end r) in
    normalize-steps c (word ++ 32 ∷ 35 ∷ r) ((c ∷ word) ++ 32 ∷ 35 ∷ trim_end r)
      ((c ∷ word) ++ 32 ∷ 35 ∷ kept) h.0
      (trim_end-word (c ∷ word) (32 ∷ 35 ∷ r) h ∙ ap (λ x. (c ∷ word) ++ x) (trim_end-comment r))
      (squeeze-word (c ∷ word) (32 ∷ 35 ∷ trim_end r) h
        ∙ ap (λ x. (c ∷ word) ++ x) (unfold squeeze is_space in refl))
    ∙ ap (without_comment ((c ∷ word) ++ 32 ∷ 35 ∷ kept))
        (before_comment-word none (c ∷ word) kept h (unfold follows_space in refl))
    ∙ trim_end-word (c ∷ word) (32 ∷ []) h
    ∙ ap (λ x. (c ∷ word) ++ x) (unfold trim_end cons_trimmed is_space in refl)
    ∙ append_nil (c ∷ word)

-- A word without spaces and quotes, then a space and a `#`, and whatever follows, also on further
-- lines: the rules and the presets match what they match for the word alone.
pub comment_hides :
    (texts : Texts) (config : DangerousCommandsConfig) (c : ℕ) (word r : List ℕ)
    → IsWord (c ∷ word)
    → match_command texts ((c ∷ word) ++ 32 ∷ 35 ∷ r) config ≡ match_command texts (c ∷ word) config
unfolding match_command
comment_hides texts config c word r h =
    rw (normalize-comment c word r h, normalize-word c word h) refl
