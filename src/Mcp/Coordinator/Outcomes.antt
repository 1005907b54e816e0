-- ===== src/Mcp/Coordinator/Outcomes.antt =====
-- What one dispatch reports.
use mini_dsh.Common.{String, ◌≡◌, ◌≢◌, Bool, true, false, none, some, arith, eq_refl, ◌||◌}
use mini_dsh.Mcp.Journal.{
  ToolOutcome, success, error, indeterminate, audit_fault, DispatchIntent, Journal, reserve,
  append_intent, intent_refusal, intent_written, append_terminal, terminal_written, write_line,
  bind_intent, bind_terminal, faulted, has_terminal, Write,
}
use mini_dsh.Common.Dict.{get-set}
use mini_dsh.Mcp.Coordinator.{
  Env, Host, DispatchOutput, CallResult, answered, threw, dispatch_tool_call, send, open_dispatch,
  write_intent, settle_call, finish, answer_claim, slice_to,
}

-- The outcome that the transport's answer stands for, and the text that it carries.
abbrev pub outcome_of : CallResult → ToolOutcome
outcome_of (answered content true) = error
outcome_of (answered content false) = success
outcome_of (threw message true) = error
outcome_of (threw message false) = indeterminate

-- The outcome that is reported where the terminal record could not be stored.
abbrev pub lost_outcome_of : CallResult → ToolOutcome
lost_outcome_of (answered content is_error) = audit_fault
lost_outcome_of (threw message true) = error
lost_outcome_of (threw message false) = indeterminate

abbrev pub text_of : CallResult → String
text_of (answered content is_error) = content
text_of (threw message not_sent) = message

module _ (hash : String → String) where
  settle_call_persisted :
      (w : Write) (b : Bool) (i : DispatchIntent) (call : CallResult) (h : Host)
      → faulted h.journal ≡ false
      → w.failure ≡ none
      → let r = settle_call hash w b i call h in
        (r.0 ≡ record {
          outcome = outcome_of call;
          output = text_of call;
          invocation_id = i.invocation_id;
        })
        × (has_terminal i.invocation_id r.1.journal
            ≡ some (record { outcome = outcome_of call; detail = slice_to 500 (text_of call) }))
        × (r.1.fault ≡ h.fault)
  unfolding settle_call finish append_terminal terminal_written write_line bind_terminal faulted
      has_terminal
  settle_call_persisted w b i (answered content true) h p q = (
    ground arith,
    ground (
      arith,
      eq_refl i.invocation_id,
      get-set i.invocation_id i.invocation_id
          (record { outcome = error; detail = slice_to 500 content }) h.journal.terminals,
    ),
    ground arith,
  )
  settle_call_persisted w b i (answered content false) h p q = (
    ground arith,
    ground (
      arith,
      eq_refl i.invocation_id,
      get-set i.invocation_id i.invocation_id
          (record { outcome = success; detail = slice_to 500 content }) h.journal.terminals,
    ),
    ground arith,
  )
  settle_call_persisted w b i (threw content true) h p q = (
    ground arith,
    ground (
      arith,
      eq_refl i.invocation_id,
      get-set i.invocation_id i.invocation_id
          (record { outcome = error; detail = slice_to 500 content }) h.journal.terminals,
    ),
    ground arith,
  )
  settle_call_persisted w b i (threw content false) h p q = (
    ground arith,
    ground (
      arith,
      eq_refl i.invocation_id,
      get-set i.invocation_id i.invocation_id
          (record { outcome = indeterminate; detail = slice_to 500 content }) h.journal.terminals,
    ),
    ground arith,
  )

  settle_call_lost :
      (w : Write) (b : Bool) (i : DispatchIntent) (call : CallResult) (h : Host)
      → w.failure ≢ none
      → let r = settle_call hash w b i call h in
        (faulted r.1.journal ≡ true)
        × (r.0.outcome ≡ lost_outcome_of call)
        × (r.1.fault ≡ (b || h.fault))
  unfolding settle_call finish append_terminal terminal_written write_line bind_terminal faulted
  settle_call_lost w b i (answered content e) h p = (ground arith, ground arith, ground arith)
  settle_call_lost w b i (threw content true) h p = (ground arith, ground arith, ground arith)
  settle_call_lost w b i (threw content false) h p = (ground arith, ground arith, ground arith)

  append_intent_healthy :
      (w : Write) (i : DispatchIntent) (j : Journal)
      → (append_intent w i j).0 ≡ none
      → faulted (append_intent w i j).1 ≡ false
  unfolding append_intent intent_refusal intent_written write_line faulted bind_intent
  append_intent_healthy w i j e = ground arith

  -- A dispatch that sends, and whose terminal record is then stored, reports the outcome and the
  -- text of the transport's answer; the journal has that outcome under the invocation id, with the
  -- text cut to 500 code units, and the fault file is as before.
  pub dispatch_persisted :
      (env : Env) (i : DispatchIntent) (h : Host)
      → (dispatch_tool_call hash env i h).2 ≡ 1
      → env.terminal_write.failure ≡ none
      → let r = dispatch_tool_call hash env i h in
        (r.0
          ≡ some (record {
            outcome = outcome_of env.call;
            output = text_of env.call;
            invocation_id = i.invocation_id;
          }))
        × (has_terminal i.invocation_id r.1.journal
            ≡ some (record {
              outcome = outcome_of env.call;
              detail = slice_to 500 (text_of env.call);
            }))
        × (r.1.fault ≡ h.fault)
  unfolding dispatch_tool_call send open_dispatch answer_claim write_intent
  dispatch_persisted env i h sent ok =
      let j = (append_intent env.intent_write i (reserve i h.journal).1).1 in
      let healthy = append_intent_healthy env.intent_write i (reserve i h.journal).1 in
      let settled =
        settle_call_persisted env.terminal_write env.fault_written i env.call
          (record h { journal = j }) in
      (
        ground (arith, healthy, settled),
        ground (arith, healthy, settled),
        ground (arith, healthy, settled),
      )

  -- A dispatch that sends, but whose terminal record is not stored, leaves the journal faulted and
  -- the fault file written if it could be; an answer is reported as an audit fault, an error before
  -- the request was sent as an error, and any other error as indeterminate.
  pub dispatch_lost :
      (env : Env) (i : DispatchIntent) (h : Host)
      → (dispatch_tool_call hash env i h).2 ≡ 1
      → env.terminal_write.failure ≢ none
      → let r = dispatch_tool_call hash env i h in
        (out : DispatchOutput) × (r.0 ≡ some out)
        × (faulted r.1.journal ≡ true)
        × (out.outcome ≡ lost_outcome_of env.call)
        × (r.1.fault ≡ (env.fault_written || h.fault))
  unfolding dispatch_tool_call send open_dispatch answer_claim write_intent
  dispatch_lost env i h sent bad =
      let j = (append_intent env.intent_write i (reserve i h.journal).1).1 in
      let h' = record h { journal = j } in
      let settled = settle_call_lost env.terminal_write env.fault_written i env.call h' in
      let out = (settle_call hash env.terminal_write env.fault_written i env.call h').0 in
      (
        out,
        ground (arith, settled),
        ground (arith, settled),
        ground (arith, settled),
        ground (arith, settled),
      )
