-- ===== src/Conversation/Moving.antt =====
-- All that a side does of itself.
use mathlib.Core.List.{append_cancel_left}
use agent_client_protocol_py.Base.{◌≡◌, refl, sym, subst, ◌∙◌, String, Option, List, Json, ◌++◌}
use agent_client_protocol_py.Exceptions.{Exn}
use agent_client_protocol_py.Store.{abandon}
use agent_client_protocol_py.Connection.{Connection, add_observer, end_notification}
use agent_client_protocol_py.Connection.Steps.{IsSound}
use agent_client_protocol_py.Connection.Reach.{Reach-IsSound}
use agent_client_protocol_py.Connection.Reach
use agent_client_protocol_py.Conversation.State.{
  Move, request_sent, notification_sent, observer_added, dispatched, request_ended,
  notification_ended, caller_cancelled,
}
use agent_client_protocol_py.Conversation.Side.{IsServing}
use agent_client_protocol_py.Conversation.Sending.{
  Moved, Sends, quiet-Sends, request-Sends, notification-Sends,
}
use agent_client_protocol_py.Conversation.Serving.{dispatch-Sends, end_request-Sends}

module _ (loads : String → Option Json) (exn_text : Exn → String) (to_str : Json → String) where
  -- A move is a step of the side's connection.
  pub Move-Step :
      {c t : Connection} → Move loads exn_text to_str c t → Reach.Step loads exn_text to_str c t
  Move-Step (request_sent method params f e) = Reach.request_sent method params f e
  Move-Step (notification_sent method params e) = Reach.notification_sent method params e
  Move-Step (observer_added observer) = Reach.observer_added observer
  Move-Step dispatched = Reach.dispatched
  Move-Step (request_ended i outcome value says) = Reach.request_ended i outcome
  Move-Step (notification_ended i outcome) = Reach.notification_ended i outcome
  Move-Step (caller_cancelled f) = Reach.caller_cancelled f

  pub Move-IsSound : {c t : Connection} → Move loads exn_text to_str c t → IsSound c → IsSound t
  Move-IsSound m h = Reach-IsSound loads exn_text to_str (Reach.next Reach.here (Move-Step m)) h

  pub Move-Sends :
      {c t : Connection}
      → Move loads exn_text to_str c t
      → IsServing c
      → Sends loads exn_text to_str c t
  unfolding add_observer end_notification abandon
  Move-Sends {c} {t} (request_sent method params f e) h =
      request-Sends loads exn_text to_str method params f c t h e
  Move-Sends {c} {t} (notification_sent method params e) h =
      notification-Sends loads exn_text to_str method params c t h e
  Move-Sends {c} (observer_added observer) h =
      quiet-Sends loads exn_text to_str c _ h refl refl refl refl
  Move-Sends {c} dispatched h = dispatch-Sends loads exn_text to_str c h
  Move-Sends {c} (request_ended i outcome value says) h =
      end_request-Sends loads exn_text to_str i outcome value c h says
  Move-Sends {c} (notification_ended i outcome) h =
      quiet-Sends loads exn_text to_str c _ h refl refl refl refl
  Move-Sends {c} (caller_cancelled f) h =
      quiet-Sends loads exn_text to_str c _ h refl refl refl refl

  -- The frames of a move are those of the code.
  pub Move-Moved :
      {c t : Connection} (frames : List Json)
      → Move loads exn_text to_str c t
      → t.sent ≡ c.sent ++ frames
      → IsServing c
      → Moved loads exn_text to_str frames c t
  Move-Moved {c} {t} frames m sent h =
      let (fs, adds, moved) = Move-Sends m h in
      subst (λ fs. Moved loads exn_text to_str fs c t)
        (append_cancel_left c.sent fs frames (sym adds ∙ sent)) moved
