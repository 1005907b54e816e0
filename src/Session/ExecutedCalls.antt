-- ===== src/Session/ExecutedCalls.antt =====
-- Which calls a message of the model's history shows: those that were executed in its step.
use mini_dsh.Common.{
  arith, Bool-cases, inl, inr, ℕ, zero, suc, ◌+◌, String, ◌≡◌, refl, ap, ◌∙◌, sym, Option, none,
  some, List, [], ◌∷◌, ◌++◌, ◌==◌, if◌then◌else◌, get_elem?, or_else, eq_iff,
}
use mathlib.Core.List.{append_assoc, append-nil}
use mini_dsh.Common.Dict
use mini_dsh.Common.Dict.{Dict, get-set}
use mini_dsh.Session.{ToolCall, SessionAppendedEvent, tool_call, SessionEvent}
use mini_dsh.Session.Messages.{note_call, effective_calls, replace_calls, message_calls}

-- The calls that an event, and a log, execute in a step.
unfoldable pub executed_by : String → SessionAppendedEvent → List ToolCall
executed_by step (tool_call id call) = if id == step then call ∷ [] else []
executed_by step _ = []

unfoldable pub executed_in : String → List SessionEvent → List ToolCall
unfolding executed_by
executed_in step [] = []
executed_in step (e ∷ events) = executed_by step e.body ++ executed_in step events

abbrev noted : String → Dict (List ToolCall) → List ToolCall
noted step calls = or_else (Dict.get step calls) []

note_call_step :
    (step : String) (calls : Dict (List ToolCall)) (b : SessionAppendedEvent)
    → noted step (note_call calls b) ≡ noted step calls ++ executed_by step b
unfolding note_call executed_by
note_call_step step calls (tool_call id call) =
    let more = or_else (Dict.get id calls) [] ++ call ∷ [] in
    let all = get-set step id more calls in
    elim (Bool-cases (id == step)) [
      | inl e ↦
          let got : Dict.get step (Dict.set id more calls) ≡ some more = all ∙ rw e refl in
          let same : more ≡ noted step calls ++ call ∷ [] =
            ap (λ k. or_else (Dict.get k calls) [] ++ call ∷ []) ((eq_iff id step).0 e) in
          rw e (ap (λ o. or_else o []) got ∙ same)
      | inr e ↦
          let got : Dict.get step (Dict.set id more calls) ≡ Dict.get step calls =
            all ∙ rw e refl in
          rw e (ap (λ o. or_else o []) got ∙ sym (append-nil (noted step calls)))
    ]
note_call_step step calls _ = sym (append-nil (noted step calls))

effective_calls_step :
    (step : String) (events : List SessionEvent) (calls : Dict (List ToolCall))
    → noted step (effective_calls calls events) ≡ noted step calls ++ executed_in step events
unfolding effective_calls executed_in
effective_calls_step step [] calls = sym (append-nil (noted step calls))
effective_calls_step step (e ∷ events) calls =
    effective_calls_step step events (note_call calls e.body)
    ∙ rw (note_call_step step calls e.body)
        (append_assoc (noted step calls) (executed_by step e.body) (executed_in step events))

-- The call at a position, with the executed one in its place if there is one.
unfoldable pub shown_call : List ToolCall → ℕ → Option ToolCall → Option ToolCall
shown_call executed i none = none
shown_call executed i (some call) = some (or_else (get_elem? executed i) call)

shown_call_nothing : (i : ℕ) (call : Option ToolCall) → shown_call [] i call ≡ call
unfolding shown_call
shown_call_nothing i none = refl
shown_call_nothing i (some call) = refl

replace_calls_elem :
    (executed : List ToolCall) (n i : ℕ) (calls : List ToolCall)
    → get_elem? (replace_calls (some executed) n calls) i
      ≡ shown_call executed (n + i) (get_elem? calls i)
unfolding replace_calls shown_call
replace_calls_elem executed n i [] = refl
replace_calls_elem executed n zero (call ∷ calls) =
    ap (λ k. shown_call executed k (some call)) (omega arith)
replace_calls_elem executed n (suc i) (call ∷ calls) =
    replace_calls_elem executed (suc n) i calls
    ∙ ap (λ k. shown_call executed k (get_elem? calls i)) (omega arith)

shown_in :
    (executed : Option (List ToolCall)) (calls : List ToolCall) (i : ℕ)
    → get_elem? (replace_calls executed 0 calls) i
      ≡ shown_call (or_else executed []) i (get_elem? calls i)
shown_in none calls i =
    let same : get_elem? (replace_calls none 0 calls) i ≡ get_elem? calls i =
      unfold replace_calls in refl in
    same ∙ sym (shown_call_nothing i (get_elem? calls i))
shown_in (some executed) calls i =
    replace_calls_elem executed 0 i calls
    ∙ ap (λ k. shown_call executed k (get_elem? calls i)) (omega arith)

-- The call at each position of an assistant message of a step: the call that is executed at that
-- position in the step, counted over the whole log, and the requested one where there is none.
pub message_calls_lem :
    (events : List SessionEvent) (step : String) (calls : List ToolCall) (i : ℕ)
    → get_elem? (or_else (message_calls (effective_calls [] events) step (some calls)) []) i
      ≡ shown_call (executed_in step events) i (get_elem? calls i)
unfolding message_calls executed_in Dict.get
message_calls_lem events step calls i =
    shown_in (Dict.get step (effective_calls [] events)) calls i
    ∙ ap (λ x. shown_call x i (get_elem? calls i)) (effective_calls_step step events [])
