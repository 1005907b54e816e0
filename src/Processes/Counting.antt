-- ===== src/Processes/Counting.antt =====
-- The actions on the registry, and the counts of its running processes.
use mini_dsh.Common.{
  ℕ, ◌+◌, String, ◌≡◌, refl, Bool, Option, none, some, List, [], ◌∷◌, if◌then◌else◌, arith,
}
use mini_dsh.Common.Dict
use mini_dsh.Common.Dict.{Dict}
use mini_dsh.Processes.{
  ExitCode, ProcessRecord, RegisterInput, Registry, count_records, try_register, on_data, on_error,
  on_close, kill, dispose_record, dispose_records, dispose, dispose_all,
}

-- What happens to a registry: its clients' calls, and its children's events.
pub data Happening : Type 0 where
  registers : String → ℕ → RegisterInput → Happening
  prints : (List ℕ → List ℕ) → String → List ℕ → Happening
  fails : String → ℕ → Happening
  closes : String → Option ExitCode → ℕ → Happening
  kills : String → String → Happening
  disposes : String → Happening
  disposes_all : Happening

unfoldable pub happen : Happening → Registry → Registry
happen (registers id now input) g = (try_register id now input g).1
happen (prints decode id chunk) g = on_data decode id chunk g
happen (fails id now) g = on_error id now g
happen (closes id code now) g = on_close id code now g
happen (kills session id) g = (kill session id g).1
happen (disposes session) g = dispose session g
happen disposes_all g = dispose_all g

unfoldable pub history : List Happening → Registry → Registry
history [] g = g
history (h ∷ hs) g = history hs (happen h g)

unfoldable pub hit : (ProcessRecord → Bool) → Option ProcessRecord → ℕ
hit p none = 0
hit p (some r) = if p r then 1 else 0

pub count_records-set :
    (p : ProcessRecord → Bool) (k : String) (r : ProcessRecord) (m : Dict ProcessRecord)
    → count_records p (Dict.set k r m) + hit p (Dict.get k m)
      ≡ count_records p m + (if p r then 1 else 0)
unfolding count_records hit Dict.set Dict.get
count_records-set p k r [] = omega arith
count_records-set p k r ((j, s) ∷ m) = ground (arith, count_records-set p k r m)

pub count_records-dispose :
    (p : ProcessRecord → Bool) (session : String) (m : Dict ProcessRecord)
    → ((r : ProcessRecord) → p (dispose_record session r) ≡ p r)
    → count_records p (dispose_records session m) ≡ count_records p m
unfolding count_records dispose_records
count_records-dispose p session [] h = refl
count_records-dispose p session ((j, r) ∷ m) h =
    ground (arith, h r, count_records-dispose p session m h)
