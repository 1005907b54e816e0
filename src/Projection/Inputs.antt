-- ===== src/Projection/Inputs.antt =====
-- The cases `user/message`, `input/queued` and `input/settled`.
use mini_dsh.Common.{
  ℕ, String, true, false, Option, none, some, [], ◌∷◌, ◌++◌, ◌==◌, if◌then◌else◌, or_else, length,
}
use mini_dsh.Common.Dict
use mini_dsh.Common.Keys
use mini_dsh.Projection.Item.{RetryInput, user, on_user, NotSent, rejected, empty, ViewItem}
use mini_dsh.Projection.Event.{SseEvent, given}
use mini_dsh.Projection.State.{Projector, push, change, some_attachments, retry_input_of}

-- The queued bubble becomes a message at the same place.
abbrev pub unqueue : ViewItem → ViewItem
unqueue = on_user λ i. record i { queued = some false; input_id = none; steer = none }

unfoldable pub claim_input : String → RetryInput → Projector → Projector
claim_input id input p = if Keys.mem id p.turn_input_ids then p else record p {
  turn_input_ids = Keys.add id p.turn_input_ids;
  turn_inputs = p.turn_inputs ++ input ∷ [];
}

unfoldable pub new_user : SseEvent → String → ViewItem
unfolding some_attachments
new_user e content = user (record {
  content = content;
  ts = e.timestamp;
  attachments = some_attachments e.attachments;
  queued = none;
  input_id = none;
  steer = none;
  not_sent = none;
})

-- The bubble that waits under the id, if there is one.
unfoldable pub deliver : String → Option ℕ → SseEvent → String → Projector → Projector
deliver id none e content p = push (new_user e content) p
deliver id (some n) e content p =
    let p' = change n unqueue p in record p' { queued_users = Dict.delete id p'.queued_users }

unfoldable pub receive : Option String → SseEvent → String → Projector → Projector
receive none e content p =
    push (new_user e content)
      (record p { turn_legacy_inputs = p.turn_legacy_inputs ++ retry_input_of e ∷ [] })
receive (some id) e content p =
    let input = or_else (Dict.get id p.accepted_inputs) (retry_input_of e) in
    let p' = claim_input id input p in deliver id (Dict.get id p'.queued_users) e content p'

unfoldable pub user_message_content : Option String → SseEvent → Projector → Projector
user_message_content none e p = p
user_message_content (some content) e p = receive (given e.input_id) e content p

unfoldable pub on_user_message : SseEvent → Projector → Projector
unfolding user_message_content
on_user_message e p = user_message_content e.content e p

unfoldable pub enqueue : Option String → Option String → SseEvent → Projector → Projector
enqueue none content e p = p
enqueue (some id) none e p = p
enqueue (some id) (some content) e p =
    let item = user (record {
      content = content;
      ts = e.timestamp;
      attachments = some_attachments e.attachments;
      queued = some true;
      input_id = some id;
      steer = if e.steer then some true else none;
      not_sent = none;
    }) in
    push item (record p {
      accepted_inputs = Dict.set id (retry_input_of e) p.accepted_inputs;
      queued_users = Dict.set id (length (p.view).items) p.queued_users;
    })

unfoldable pub on_input_queued : SseEvent → Projector → Projector
unfolding enqueue
on_input_queued e p = enqueue (given e.input_id) e.content e p

unfoldable pub not_sent_of : Option String → Option NotSent
not_sent_of none = none
not_sent_of (some outcome) =
    if outcome == "rejected" then some rejected else if outcome == "empty" then some empty else none

abbrev pub set_not_sent : Option NotSent → ViewItem → ViewItem
set_not_sent none item = item
set_not_sent (some why) item = on_user (λ i. record i { not_sent = some why }) item

-- A settled input belongs to the turn that claimed it.
unfoldable pub claim_settled : String → Option RetryInput → Projector → Projector
claim_settled id none p = p
claim_settled id (some input) p = claim_input id input p

unfoldable pub settle_pending : String → Option ℕ → SseEvent → Projector → Projector
settle_pending id none e p = p
settle_pending id (some n) e p =
    let p' = change n (λ item. set_not_sent (not_sent_of e.outcome) (unqueue item)) p in
    record p' { queued_users = Dict.delete id p'.queued_users }

unfoldable pub settle_input : Option String → SseEvent → Projector → Projector
settle_input none e p = p
settle_input (some id) e p =
    let p' = claim_settled id (Dict.get id p.accepted_inputs) p in
    settle_pending id (Dict.get id p'.queued_users) e p'

unfoldable pub on_input_settled : SseEvent → Projector → Projector
unfolding settle_input
on_input_settled e p = settle_input (given e.input_id) e p
