-- ===== src/Mcp/Journal/Recovery.antt =====
-- The file of the journal, and what `open` reads back from it after a crash. JSON and the hash are
-- the parameter `Codec`.
use mini_dsh.Common.{
  ℕ, ◌+◌, String, ◌≡◌, ◌≢◌, Bool, true, false, ◌||◌, Option, none, some, List, [], ◌∷◌, ◌++◌, eqb,
  if◌then◌else◌, All, not, take, keep, ◌==◌,
}
use mini_dsh.Common.Units.{split_lines, ends_line}
use mini_dsh.Mcp.Journal.{Journal, Stored, Leftover, journal_schema, new_journal, remember}

-- `JSON.stringify` of a line with its digest, `JSON.parse` of a line (`none` if it throws), and the
-- hash that `digestOf` takes of a record.
pub record Codec : Type 0 where
  pub encode : Stored → String → List ℕ
  pub parse : List ℕ → Option (Stored × String)
  pub digest_of : Stored → String

-- What JSON promises of a record: it is printed as one line that is not empty, and parsing the line
-- gives the record back.
pub record IsPrinted (codec : Codec) (s : Stored) : Type 0 where
  pub parse-encode : codec.parse (codec.encode s (codec.digest_of s)) ≡ some (s, codec.digest_of s)
  pub one_line : All (λ c. c ≢ 10) (codec.encode s (codec.digest_of s))
  pub nonempty : codec.encode s (codec.digest_of s) ≢ []

unfoldable pub keep_line : ℕ → List ℕ → List ℕ
keep_line c [] = if eqb c 10 then c ∷ [] else []
keep_line c (d ∷ rest) = c ∷ d ∷ rest

-- The text up to its last newline: `raw.slice(0, raw.lastIndexOf('\n') + 1)`.
unfoldable pub committed : List ℕ → List ℕ
unfolding keep_line
committed [] = []
committed (c ∷ text) = keep_line c (committed text)

-- A torn final line is dropped.
unfoldable pub cut_torn : List ℕ → List ℕ
cut_torn raw = if ends_line raw then raw else committed raw

abbrev pub is_line : List ℕ → Bool
is_line [] = false
is_line (c ∷ line) = true

module _ (codec : Codec) where
  -- The loop of `open`. The first component is the message of the error that it throws.
  unfoldable pub open_lines : ℕ → List (List ℕ) → Journal → Option String × Journal
  open_lines expected [] j = (none, j)
  open_lines expected (line ∷ lines) j = elim (codec.parse line) [
    | none ↦
        let reason : String = "execution journal has a corrupt record before the end of the file" in
        (some reason, record j { poisoned = some reason })
    | some (s, digest) ↦
        let rest =
          open_lines (expected + 1) lines
            (remember s.body (record j { seq = s.seq; file = j.file ++ s ∷ [] })) in
        let wrong_sequence : String = "execution journal sequence does not match" in
        let wrong_digest : String = "execution journal digest does not match" in
        if not (eqb s.v journal_schema) || not (eqb s.seq expected)
        then (some wrong_sequence, record j { poisoned = some wrong_sequence })
        else if not (digest == codec.digest_of s)
        then (some wrong_digest, record j { poisoned = some wrong_digest })
        else rest
  ]

  -- `open` on the text of the file: the error, the journal, and the text that the file then holds.
  unfoldable pub open_journal : List ℕ → Option String × Journal × List ℕ
  open_journal raw =
      let text = cut_torn raw in
      let (failure, j) = open_lines 1 (keep is_line (split_lines text)) new_journal in
      (failure, j, (elim failure [ none ↦ text | some reason ↦ raw ]))

  -- The line that `append` writes.
  unfoldable pub line_of : Stored → List ℕ
  line_of s = codec.encode s (codec.digest_of s) ++ 10 ∷ []

  unfoldable pub file_text : List Stored → List ℕ
  file_text [] = []
  file_text (s ∷ file) = line_of s ++ file_text file

module _ (codec : Codec) where
  -- What failed writes have left behind so many complete lines.
  unfoldable pub left_behind : ℕ → List Leftover → List ℕ
  unfolding line_of
  left_behind n [] = []
  left_behind n (l ∷ leftovers) =
      let rest = left_behind n leftovers in
      if eqb l.behind n then take l.units (line_of codec l.line) ++ rest else rest

  unfoldable pub disk_text_from : ℕ → List Stored → List Leftover → List ℕ
  unfolding left_behind
  disk_text_from n [] leftovers = left_behind n leftovers
  disk_text_from n (s ∷ file) leftovers =
      left_behind n leftovers ++ line_of codec s ++ disk_text_from (n + 1) file leftovers

  -- The text of the file: the lines, and what failed writes have left between them.
  unfoldable pub disk_text : Journal → List ℕ
  unfolding disk_text_from
  disk_text j = disk_text_from 0 j.file j.leftovers

-- The index that a list of records stands for.
unfoldable pub replay : List Stored → Journal → Journal
replay [] j = j
replay (s ∷ file) j =
    replay file (remember s.body (record j { seq = s.seq; file = j.file ++ s ∷ [] }))

-- The records are numbered from `n`, in the schema's version.
abbrev pub IsNumbered : ℕ → List Stored → Type 0
IsNumbered n [] = Unit
IsNumbered n (s ∷ file) = (s.v ≡ journal_schema) × (s.seq ≡ n) × IsNumbered (n + 1) file
