-- ===== src/Files/Tool.antt =====
-- capabilities/fs/observation.ts and the `Edit` tool of capabilities/fs/tools.ts: what a session has
-- seen of a file, and the bytes that an edit writes. The grants of the path, the lock of the file and
-- the write itself are outside the model, and an error is known by its kind.
use mini_dsh.Common.{
  ℕ, Bool, true, false, not, Option, none, some, List, [], ◌∷◌, String, if◌then◌else◌, first_some,
  length, ◌==◌,
}
use mini_dsh.Common.Dict
use mini_dsh.Common.Dict.{Dict}
use mini_dsh.Files.Document.{
  Codec, TextDocument, decode_document, encode_raw, encode_for_write, splice_document, fold_eol,
  Splice,
}
use mini_dsh.Files.Edit.{MatchStrategy, exact, MatchResult, matched, ambiguous, not_found}
use mini_dsh.Files.Edit.Lines.{is_blank, same_text}
use mini_dsh.Files.Edit.Find.{find_edit_match}
mod Decoded
mod Observed
mod ReadBack
mod Tests

-- `FileObservations`: for each session, the hash of each file that it has seen last.
abbrev pub FileObservations : Type 0
FileObservations = Dict (Dict String)

unfoldable pub files_of : Option (Dict String) → Dict String
files_of none = []
files_of (some files) = files

unfoldable pub observe : Option String → String → String → FileObservations → FileObservations
unfolding Dict.get Dict.set files_of
observe none file hash o = o
observe (some session) file hash o =
    Dict.set session (Dict.set file hash (files_of (Dict.get session o))) o

unfoldable pub expected : String → String → FileObservations → Option String
unfolding Dict.get files_of
expected session file o = Dict.get file (files_of (Dict.get session o))

unfoldable pub forget : String → FileObservations → FileObservations
unfolding Dict.delete
forget session o = Dict.delete session o

pub data ObservationRequirement : Type 0 where
  check : String → ObservationRequirement
  skip : ObservationRequirement
  missing : ObservationRequirement

-- The hash that a session or the first of its ancestors has seen.
unfoldable pub inherited : List String → String → FileObservations → Option String
unfolding expected
inherited [] file o = none
inherited (session ∷ ancestors) file o =
    first_some (expected session file o) (inherited ancestors file o)

-- The explicit hash of a call: not given, not a hash, or one in lower case.
pub data Explicit : Type 0 where
  absent : Explicit
  malformed : Explicit
  given : String → Explicit

unfoldable pub check_or_missing : Option String → ObservationRequirement
check_or_missing none = missing
check_or_missing (some hash) = check hash

-- `requirementFor`: `none` where it throws.
unfoldable pub requirement_for :
    Option String
    → List String
    → FileObservations
    → String
    → Explicit
    → Option ObservationRequirement
unfolding inherited check_or_missing
requirement_for session ancestors o file (given hash) = some (check hash)
requirement_for session ancestors o file malformed = none
requirement_for none ancestors o file absent = some skip
requirement_for (some session) ancestors o file absent =
    some (check_or_missing (inherited (session ∷ ancestors) file o))

-- `assertObserved` passes.
unfoldable pub is_observed : ObservationRequirement → String → Bool
is_observed (check seen) hash = hash == seen
is_observed skip hash = true
is_observed missing hash = false

pub data EditError : Type 0 where
  no_change : EditError
  no_such_file : EditError
  binary_file : EditError
  bad_argument : EditError
  conflict : EditError
  not_writable : EditError
  has_content : EditError
  old_not_found : EditError
  ambiguous_edit : List ℕ → EditError
  overlapping_edits : EditError

pub data EditOutcome : Type 0 where
  throws : EditError → EditOutcome
  created : List ℕ → EditOutcome
  edited : MatchStrategy → List Splice → List ℕ → EditOutcome

module _ (codec : Codec) where
  unfoldable pub write_edit :
      TextDocument → MatchStrategy → List Splice → Option (List ℕ) → EditOutcome
  unfolding encode_raw
  write_edit doc strategy splices none = throws overlapping_edits
  write_edit doc strategy splices (some raw) =
      edited strategy splices (encode_raw codec raw doc.encoding doc.bom)

  unfoldable pub apply_match : TextDocument → MatchResult → EditOutcome
  unfolding write_edit splice_document
  apply_match doc (matched strategy splices) =
      write_edit doc strategy splices (splice_document doc splices)
  apply_match doc (ambiguous strategy lines) = throws (ambiguous_edit lines)
  apply_match doc not_found = throws old_not_found

  -- The whole text, for an empty `old`.
  unfoldable pub whole_splice : TextDocument → List ℕ → List Splice
  whole_splice doc new = record { start = 0; end = length doc.text; text = new } ∷ []

  unfoldable pub edit_document : TextDocument → List ℕ → List ℕ → Bool → EditOutcome
  unfolding apply_match find_edit_match whole_splice is_blank
  edit_document doc [] new replace_all =
      if is_blank doc.text
      then apply_match doc (matched exact (whole_splice doc new))
      else throws has_content
  edit_document doc (c ∷ old) new replace_all =
      apply_match doc (find_edit_match doc.text (c ∷ old) new replace_all)

  unfoldable pub edit_decoded :
      Option TextDocument → Option ObservationRequirement → List ℕ → List ℕ → Bool → EditOutcome
  unfolding edit_document is_observed
  edit_decoded none requirement old new replace_all = throws binary_file
  edit_decoded (some doc) none old new replace_all = throws bad_argument
  edit_decoded (some doc) (some requirement) old new replace_all =
      if not (is_observed requirement doc.hash)
      then throws conflict
      else if not doc.writable
      then throws not_writable
      else edit_document doc old new replace_all

  unfoldable pub edit_current :
      Option (List ℕ) → Option ObservationRequirement → List ℕ → List ℕ → Bool → EditOutcome
  unfolding edit_decoded decode_document encode_for_write
  edit_current none requirement [] new replace_all = created (encode_for_write codec new none)
  edit_current none requirement (c ∷ old) new replace_all = throws no_such_file
  edit_current (some bytes) requirement old new replace_all =
      edit_decoded (decode_document codec bytes) requirement old new replace_all

  -- `execute` of the `Edit` tool on the bytes of the file, if it exists.
  unfoldable pub execute_edit :
      Option (List ℕ) → Option ObservationRequirement → List ℕ → List ℕ → Bool → EditOutcome
  unfolding edit_current fold_eol same_text
  execute_edit current requirement old new replace_all =
      if same_text (fold_eol old) (fold_eol new)
      then throws no_change
      else edit_current current requirement (fold_eol old) (fold_eol new) replace_all

  unfoldable pub observe_outcome :
      Option String → String → EditOutcome → FileObservations → FileObservations
  unfolding observe
  observe_outcome session file (throws error) o = o
  observe_outcome session file (created bytes) o = observe session file (codec.hash_bytes bytes) o
  observe_outcome session file (edited strategy splices bytes) o =
      observe session file (codec.hash_bytes bytes) o

  -- An edit with what the session has seen before and has seen afterwards.
  unfoldable pub edit_file :
      Option String
      → List String
      → String
      → Explicit
      → Option (List ℕ)
      → List ℕ
      → List ℕ
      → Bool
      → FileObservations
      → EditOutcome × FileObservations
  unfolding execute_edit requirement_for observe_outcome
  edit_file session ancestors file explicit current old new replace_all o =
      let outcome =
        execute_edit current (requirement_for session ancestors o file explicit) old new
          replace_all in
      (outcome, observe_outcome session file outcome o)
