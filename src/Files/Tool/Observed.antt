-- ===== src/Files/Tool/Observed.antt =====
-- What a session has seen of the files after an edit.
use mini_dsh.Common.{
  ℕ, ◌≡◌, refl, Bool, Option, none, some, List, String, if◌then◌else◌, arith, ◌==◌,
}
use mini_dsh.Common.Dict
use mini_dsh.Common.Dict.{Dict, get-set}
use text.Mathlib.TextEquality.{eq_iff}
use mini_dsh.Files.Document.{Codec}
use mini_dsh.Files.Tool.{
  FileObservations, files_of, observe, expected, EditOutcome, throws, created, edited,
  observe_outcome, edit_file, Explicit, absent, requirement_for, inherited, execute_edit,
  ObservationRequirement, check, check_or_missing,
}

-- The bytes that an edit has written.
unfoldable pub written_bytes : EditOutcome → Option (List ℕ)
written_bytes (throws error) = none
written_bytes (created bytes) = some bytes
written_bytes (edited strategy splices bytes) = some bytes

expected-observe :
    (session file hash other path : String) (o : FileObservations)
    → expected other path (observe (some session) file hash o) ≡ (
        if session == other
        then if file == path then some hash else expected session path o
        else expected other path o)
unfolding expected observe files_of
expected-observe session file hash other path o =
    let files = files_of (Dict.get session o) in
    let outer = get-set other session (Dict.set file hash files) o in
    let inner = get-set path file hash files in ground (arith, outer, inner)

module _ (codec : Codec) where
  -- The hash that is known after an edit.
  unfoldable pub known_after : Option (List ℕ) → Option String → Option String
  known_after none before = before
  known_after (some bytes) before = some (codec.hash_bytes bytes)

  -- What the next edit requires.
  unfoldable pub required_after :
      Option (List ℕ) → Option ObservationRequirement → Option ObservationRequirement
  required_after none before = before
  required_after (some bytes) before = some (check (codec.hash_bytes bytes))

  observe_outcome-expected :
      (session file other path : String) (outcome : EditOutcome) (o : FileObservations)
      → expected other path (observe_outcome codec (some session) file outcome o) ≡ (
          if session == other
          then if file == path
            then known_after (written_bytes outcome) (expected session path o)
            else expected session path o
          else expected other path o)
  unfolding observe_outcome written_bytes known_after
  observe_outcome-expected session file other path (throws error) o =
      ground (arith, eq_iff session other, eq_iff file path)
  observe_outcome-expected session file other path (created bytes) o =
      expected-observe session file (codec.hash_bytes bytes) other path o
  observe_outcome-expected session file other path (edited strategy splices bytes) o =
      expected-observe session file (codec.hash_bytes bytes) other path o

  requirement_for-observe :
      (session file hash : String) (ancestors : List String) (o : FileObservations)
      → requirement_for (some session) ancestors (observe (some session) file hash o) file absent
        ≡ some (check hash)
  unfolding requirement_for inherited check_or_missing
  requirement_for-observe session file hash ancestors o =
      let seen = expected-observe session file hash session file o in
      let known : expected session file (observe (some session) file hash o) ≡ some hash =
        ground (arith, seen, eq_iff session session, eq_iff file file) in
      rw known refl

  observe_outcome-required :
      (session file : String) (ancestors : List String) (outcome : EditOutcome)
      (o : FileObservations)
      → requirement_for
          (some session)
          ancestors
          (observe_outcome codec (some session) file outcome o)
          file
          absent
        ≡ required_after
            (written_bytes outcome)
            (requirement_for (some session) ancestors o file absent)
  unfolding observe_outcome written_bytes required_after
  observe_outcome-required session file ancestors (throws error) o = refl
  observe_outcome-required session file ancestors (created bytes) o =
      requirement_for-observe session file (codec.hash_bytes bytes) ancestors o
  observe_outcome-required session file ancestors (edited strategy splices bytes) o =
      requirement_for-observe session file (codec.hash_bytes bytes) ancestors o

  -- After an edit by a session, that session knows the hash of the written bytes for the file, if
  -- bytes were written, and what it knows of other files and what other sessions know is unchanged.
  -- The next edit of the file by the session requires the written bytes, or the same as before
  -- where nothing was written.
  pub edit_observed :
      (session : String) (ancestors : List String) (file : String) (explicit : Explicit)
      (current : Option (List ℕ)) (old new : List ℕ) (replace_all : Bool) (o : FileObservations)
      (other path : String)
      → let run =
          edit_file codec (some session) ancestors file explicit current old new replace_all o in
        (expected other path run.1 ≡ (
          if session == other
          then if file == path
            then known_after (written_bytes run.0) (expected session path o)
            else expected session path o
          else expected other path o))
        × (requirement_for (some session) ancestors run.1 file absent
            ≡ required_after
                (written_bytes run.0)
                (requirement_for (some session) ancestors o file absent))
  unfolding edit_file
  edit_observed session ancestors file explicit current old new replace_all o other path =
      let outcome =
        execute_edit codec current (requirement_for (some session) ancestors o file explicit) old
          new replace_all in
      (
        observe_outcome-expected session file other path outcome o,
        observe_outcome-required session file ancestors outcome o,
      )
