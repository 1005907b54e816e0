-- ===== src/Session/Tests.antt =====
-- A small session: an answer whose call a hook rewrote, and a fork.
use mini_dsh.Common.{
  ℕ, ◌≡◌, refl, true, false, none, some, List, [], ◌∷◌, ◌++◌, get_elem?, take, or_else, first_some,
}
use mini_dsh.Common.Dict
use mini_dsh.Session.{
  ToolCall, SessionAppendedEvent, SessionEvent, user_message, assistant_message, tool_call,
  tool_result, session_title, session_model, given, absent, cleared, turn_start, last_of, title_in,
  custom_title, pinned_in, pinned, mode_in, session_mode_of, grants_in, session_grants_of,
  derive_session_model,
}
use mini_dsh.Session.Messages.{
  derive_messages, effective_calls, note_call, messages_of, message_of, message_calls,
  replace_calls, push_message, user, assistant, tool, plain, user_message_content,
}
use mini_dsh.Session.ExecutedCalls.{message_calls_lem, shown_call, executed_in}
use mini_dsh.Session.Settings.{
  settings_snoc, derive_session_model_lem, names_model, provider_in, model_in, thinking_in,
}
use mini_dsh.Session.Log.{loaded, append, stamp, run_write, settle_durable, chain_end, fork}
use mini_dsh.Session.Durability.{
  Happening, appends, writes, happen, history, durable_lem, broken_stops,
}
use mini_dsh.Session.Forks.{IsNumbered, fork_lem}

abbrev event : ℕ → SessionAppendedEvent → SessionEvent
event seq body = record { seq = seq; timestamp = 100; body = body }

abbrev asked : ToolCall
asked = record { id = "c1"; name = "Bash"; args = 1 }

abbrev executed : ToolCall
executed = record { id = "c1"; name = "Bash"; args = 2 }

abbrev log : List SessionEvent
log =
    event 1 (user_message "list" none)
    ∷ event 2 (turn_start 0)
    ∷ event 3 (assistant_message "step" "" (some (asked ∷ [])))
    ∷ event 4 (tool_call "step" executed)
    ∷ event 5 (tool_result "c1" "a.txt")
    ∷ event 6 (session_model (given "p") absent cleared)
    ∷ []

log_messages :
    derive_messages [] log
    ≡ user (plain "list") ∷ assistant "" (some (executed ∷ [])) ∷ tool "a.txt" "c1" ∷ []
unfolding derive_messages effective_calls note_call messages_of message_of message_calls
    replace_calls push_message user_message_content Dict.set Dict.get
log_messages = refl

message_calls_lem_example :
    get_elem? (or_else (message_calls (effective_calls [] log) "step" (some (asked ∷ []))) []) 0
    ≡ shown_call (executed_in "step" log) 0 (get_elem? (asked ∷ []) 0)
message_calls_lem_example = message_calls_lem log "step" (asked ∷ []) 0

abbrev titled : SessionEvent
titled = event 7 (session_title (some "Files"))

settings_snoc_example :
    (custom_title (log ++ titled ∷ []) ≡ or_else (title_in titled.body) (custom_title log))
    × (pinned (log ++ titled ∷ []) ≡ or_else (pinned_in titled.body) (pinned log))
    × (session_mode_of (log ++ titled ∷ [])
        ≡ first_some (mode_in titled.body) (session_mode_of log))
    × (session_grants_of (log ++ titled ∷ [])
        ≡ or_else (grants_in titled.body) (session_grants_of log))
settings_snoc_example = settings_snoc log titled

derive_session_model_lem_example :
    let model = derive_session_model log in
    (model.has_event ≡ or_else (last_of names_model log) false)
    × (model.provider ≡ or_else (last_of provider_in log) absent)
    × (model.model ≡ or_else (last_of model_in log) absent)
    × (model.thinking_level ≡ or_else (last_of thinking_in log) absent)
derive_session_model_lem_example = derive_session_model_lem log

abbrev happenings : List Happening
happenings = appends 200 (session_title none) ∷ writes none ∷ []

durable_lem_example :
    let s = history happenings (loaded "s1" true log) in take 7 s.disk ≡ take 7 s.log
unfolding history happen append stamp run_write settle_durable chain_end loaded
durable_lem_example = durable_lem "s1" log happenings 7 none refl

abbrev failing : List Happening
failing = appends 200 (session_title none) ∷ writes (some "disk full") ∷ []

broken_stops_example :
    let s = history failing (loaded "s1" true log) in
    (history happenings (settle_durable 7 none s).1).log ≡ s.log
unfolding history happen append stamp run_write settle_durable chain_end loaded
broken_stops_example =
    broken_stops 7 none (history failing (loaded "s1" true log)) "disk full" happenings refl

fork_lem_example :
    let s = history happenings (loaded "s1" true log) in
    IsNumbered 0 s.log × (fork (some 3) s ≡ take 3 s.log) × (fork none s ≡ s.log)
fork_lem_example =
    fork_lem "s1" true log happenings 3 (refl, (refl, (refl, (refl, (refl, (refl, tt))))))
