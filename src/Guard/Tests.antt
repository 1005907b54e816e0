-- ===== src/Guard/Tests.antt =====
-- A rule that denies `rm`, and a command whose second line runs it.
use mini_dsh.Common.{◌≡◌, refl, false, none, some, [], ◌∷◌}
use mini_dsh.Guard.{Texts, DangerousCommandsConfig, deny, match_command}
use mini_dsh.Guard.Comments.{comment_hides, IsWord, is_word}

abbrev texts : Texts
texts = record { lower = λ s. s; test = λ pattern s. none; preset_regexes = λ id. [] }

abbrev config : DangerousCommandsConfig
config = record {
  presets = λ id. deny;
  custom_rules =
      record { id = "r"; pattern = 114 ∷ 109 ∷ []; is_regex = false; action = deny } ∷ [];
}

rm_matches :
    match_command texts (114 ∷ 109 ∷ 32 ∷ 120 ∷ []) config
    ≡ some
        (record { preset_id = none; rule_id = some "r"; action = deny; pattern = 114 ∷ 109 ∷ [] })
unfolding match_command
rm_matches = refl

-- `ls #`, and `rm x` on the next line.
rm_hidden : match_command texts (108 ∷ 115 ∷ 32 ∷ 35 ∷ 10 ∷ 114 ∷ 109 ∷ 32 ∷ 120 ∷ []) config ≡ none
unfolding match_command
rm_hidden = refl

ls-IsWord : IsWord (108 ∷ 115 ∷ [])
unfolding is_word
ls-IsWord = (refl, (refl, tt))

comment_hides_example :
    match_command texts (108 ∷ 115 ∷ 32 ∷ 35 ∷ 10 ∷ 114 ∷ 109 ∷ 32 ∷ 120 ∷ []) config
    ≡ match_command texts (108 ∷ 115 ∷ []) config
comment_hides_example =
    comment_hides texts config 108 (115 ∷ []) (10 ∷ 114 ∷ 109 ∷ 32 ∷ 120 ∷ []) ls-IsWord
