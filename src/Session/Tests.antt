-- ===== src/Session/Tests.antt =====
-- The theorems on the accumulator, at concrete notifications.
use agent_client_protocol_py.Base.{
  ◌≡◌, refl, inl, String, Bool, true, false, none, some, [], ◌∷◌, ◌++◌, null, ok, if◌then◌else◌,
  nat_eq, contains,
}
use agent_client_protocol_py.Schema.{
  SessionNotification, user_message_chunk, tool_call_update, text_content_block, ToolCallProgress,
}
use agent_client_protocol_py.Base.Lists.{remove}
use agent_client_protocol_py.Session.Accumulator.{
  SessionAccumulator, new_accumulator, apply, subscribe, unsubscribe,
}
use agent_client_protocol_py.Session.History.{IsHistory}
use agent_client_protocol_py.Session.Receive.{
  Callbacks, started, receive, receive-IsHistory, IsQuiet,
}
use agent_client_protocol_py.Session.Keys.{IsFiled, apply-IsFiled}
use agent_client_protocol_py.Session.Subscribers.{unsubscribe-subscribe}

abbrev silent : Callbacks (Unit {0})
silent c snap n st = (ok tt, st)

silent-IsQuiet : IsQuiet silent
silent-IsQuiet = record { at = λ c snap n st. refl }

abbrev hello : SessionNotification
hello = record {
  field_meta = none;
  session_id = "s1";
  update = user_message_chunk (record {
    field_meta = none;
    content = text_content_block (record { field_meta = none; annotations = none; text = "hello" });
  });
}

abbrev renamed : String → ToolCallProgress
renamed title = record {
  field_meta = none;
  content = none;
  kind = none;
  locations = none;
  raw_input = null;
  raw_output = null;
  status = none;
  title = some title;
  tool_call_id = "t1";
}

abbrev build : SessionNotification
build = record { field_meta = none; session_id = "s1"; update = tool_call_update (renamed "Build") }

abbrev other_session : SessionNotification
other_session = record hello { session_id = "s10" }

abbrev in_session : Bool → SessionAccumulator
in_session auto_reset = record (new_accumulator auto_reset) { session_id = some "s1" }

receive-IsHistory_example :
    IsHistory
      (started "s1" (new_accumulator true))
      (hello.update ∷ build.update ∷ [])
      (receive silent silent-IsQuiet (hello ∷ build ∷ []) (new_accumulator true, tt)).0
receive-IsHistory_example =
    receive-IsHistory silent silent-IsQuiet hello (build ∷ []) (new_accumulator true) tt (inl refl)
      (refl, tt)

apply-IsFiled_example : IsFiled (apply silent build (in_session false, tt)).1.0.tool_calls
apply-IsFiled_example = apply-IsFiled silent (λ c snap n st h. h) build (in_session false) tt tt

abbrev observed : SessionAccumulator
observed = record (in_session true) { subscribers = 1 ∷ 2 ∷ 3 ∷ [] }

unsubscribe-subscribe_example : (unsubscribe 2 (subscribe 2 observed)).subscribers ≡ (
    if contains observed.subscribers 2
    then remove 2 observed.subscribers ++ (2 ∷ [])
    else observed.subscribers)
unsubscribe-subscribe_example = unsubscribe-subscribe 2 observed
