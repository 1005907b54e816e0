-- ===== src/Guard.antt =====
-- harness/guard/matcher.ts and types.ts: the rules for dangerous commands. A command is a list of code
-- units. The engine of regular expressions, the expressions of the presets and the lower case of a
-- text are parameters; the reason of a match, which names its rule, is left out.
use mini_dsh.Common.{
  ℕ, Bool, true, false, not, ◌&&◌, ◌||◌, Option, none, some, List, [], ◌∷◌, String, eqb,
  if◌then◌else◌, first_some,
}
use mini_dsh.Files.Document.{starts_with}
use mini_dsh.Files.Edit.Lines.{is_space, trim_start, trim_end}
mod Comments
mod Tests

-- `replace(/\s+/g, ' ')`; the flag tells that the unit before is part of a run of spaces.
unfoldable pub squeeze : Bool → List ℕ → List ℕ
unfolding is_space
squeeze in_run [] = []
squeeze in_run (c ∷ s) =
    let rest = squeeze (is_space c) s in
    if is_space c then if in_run then rest else 32 ∷ rest else c ∷ rest

unfoldable pub follows_space : Option ℕ → Bool
follows_space none = false
follows_space (some c) = eqb c 32

unfoldable pub cons_before : ℕ → Option (List ℕ) → Option (List ℕ)
cons_before c none = none
cons_before c (some before) = some (c ∷ before)

-- The text before a `#` that stands outside quotes and behind a space.
unfoldable pub before_comment : Bool → Bool → Option ℕ → List ℕ → Option (List ℕ)
unfolding follows_space cons_before
before_comment in_single in_double previous [] = none
before_comment in_single in_double previous (c ∷ s) =
    let single = if eqb c 39 && not in_double then not in_single else in_single in
    let double = if eqb c 34 && not in_single then not in_double else in_double in
    let later = before_comment single double (some c) s in
    if eqb c 35 && not single && not double && follows_space previous
    then some []
    else cons_before c later

unfoldable pub without_comment : List ℕ → Option (List ℕ) → List ℕ
unfolding trim_end
without_comment s none = s
without_comment s (some before) = trim_end before

unfoldable pub normalize_command : List ℕ → List ℕ
unfolding squeeze before_comment without_comment trim_start trim_end
normalize_command command =
    let s = squeeze false (trim_end (trim_start command)) in
    without_comment s (before_comment false false none s)

pub data PresetId : Type 0 where
  fs_destructive : PresetId
  git_destructive : PresetId
  system_priv : PresetId
  network_exfil : PresetId
  db_destructive : PresetId
  resource_exhaust : PresetId

-- `GuardAction` and `CustomRuleAction`: a preset never has `allow`, and a rule never `off`.
pub data GuardAction : Type 0 where
  deny : GuardAction
  ask : GuardAction
  off : GuardAction
  allow : GuardAction

pub record CustomRule : Type 0 where
  pub id : String
  pub pattern : List ℕ
  pub is_regex : Bool
  pub action : GuardAction

pub record DangerousCommandsConfig : Type 0 where
  pub presets : PresetId → GuardAction
  pub custom_rules : List CustomRule

pub record GuardMatch : Type 0 where
  pub preset_id : Option PresetId
  pub rule_id : Option String
  pub action : GuardAction
  pub pattern : List ℕ

-- A regular expression of a preset: its source and its test.
pub record Regex : Type 0 where
  pub source : List ℕ
  pub test : List ℕ → Bool

-- `test` is `new RegExp(pattern, 'i').test`, and `none` where it throws.
pub record Texts : Type 0 where
  pub lower : List ℕ → List ℕ
  pub test : List ℕ → List ℕ → Option Bool
  pub preset_regexes : PresetId → List Regex

unfoldable pub includes : List ℕ → List ℕ → Bool
unfolding starts_with
includes [] part = starts_with [] part
includes (c ∷ s) part = starts_with (c ∷ s) part || includes s part

unfoldable pub hit_of : Option Bool → Bool
hit_of none = false
hit_of (some hit) = hit

abbrev pub preset_priority : List PresetId
preset_priority =
    fs_destructive ∷ network_exfil ∷ resource_exhaust ∷ git_destructive ∷ system_priv
    ∷ db_destructive ∷ []

unfoldable pub is_off : GuardAction → Bool
is_off deny = false
is_off ask = false
is_off off = true
is_off allow = false

unfoldable pub find_regex : List Regex → List ℕ → Option Regex
find_regex [] s = none
find_regex (rx ∷ rest) s = let later = find_regex rest s in if rx.test s then some rx else later

module _ (texts : Texts) where
  unfoldable pub rule_hits : CustomRule → List ℕ → Bool
  unfolding includes hit_of
  rule_hits rule s =
      if rule.is_regex
      then hit_of (texts.test rule.pattern s)
      else includes (texts.lower s) (texts.lower rule.pattern)

  unfoldable pub match_rules : List CustomRule → List ℕ → Option GuardMatch
  unfolding rule_hits
  match_rules [] s = none
  match_rules (rule ∷ rules) s =
      let rest = match_rules rules s in
      if rule_hits rule s
      then some (record {
        preset_id = none;
        rule_id = some rule.id;
        action = rule.action;
        pattern = rule.pattern;
      })
      else rest

  unfoldable pub preset_match : PresetId → GuardAction → Option Regex → Option GuardMatch
  preset_match id action none = none
  preset_match id action (some rx) =
      some (record { preset_id = some id; rule_id = none; action = action; pattern = rx.source })

  unfoldable pub match_presets :
      (PresetId → GuardAction) → List PresetId → List ℕ → Option GuardMatch
  unfolding is_off find_regex preset_match
  match_presets presets [] s = none
  match_presets presets (id ∷ ids) s =
      let rest = match_presets presets ids s in
      if is_off (presets id)
      then rest
      else first_some (preset_match id (presets id) (find_regex (texts.preset_regexes id) s)) rest

  unfoldable pub match_command : List ℕ → DangerousCommandsConfig → Option GuardMatch
  unfolding normalize_command match_rules match_presets
  match_command command config =
      let s = normalize_command command in
      first_some (match_rules config.custom_rules s)
        (match_presets config.presets preset_priority s)
