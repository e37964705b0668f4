-- ===== src/Tracker/Stream.antt =====
-- Streaming text into a call.
use text.Mathlib.TextLemmas.{append-nil, append_assoc}
use agent_client_protocol_py.Base.{◌≡◌, String, ◌<>◌, string_eq, some, List, [], ◌∷◌}
use agent_client_protocol_py.Base.Dict.{lookup, lookup-insert_self}
use agent_client_protocol_py.Helpers.{text_block, tool_content}
use agent_client_protocol_py.Tracker.Call.{TrackedToolCall, unset, append_text, buffered}
use agent_client_protocol_py.Tracker.Calls.{ToolCallTracker, append_stream_text}
use agent_client_protocol_py.Tracker.Replies.{on_call_known}

-- The texts appended one by one, with no title and no status.
abbrev pub append_all : String → List String → ToolCallTracker → ToolCallTracker
append_all x [] self = self
append_all x (text ∷ texts) self = append_all x texts (append_stream_text x text unset unset self).1

abbrev pub joined : List String → String
joined [] = ""
joined (text ∷ texts) = text <> joined texts

-- The call whose stream holds `buffer`.
abbrev pub streamed : String → TrackedToolCall → TrackedToolCall
streamed buffer t = record t {
  content = some (tool_content (text_block buffer) ∷ []);
  stream_buffer = some buffer;
}

step :
    (x text : String) (t : TrackedToolCall) (self : ToolCallTracker)
    → lookup x self.calls ≡ some t
    → lookup x (append_stream_text x text unset unset self).1.calls
      ≡ some (streamed (buffered t.stream_buffer <> text) t)
unfolding append_stream_text append_text
step x text t self found =
    rw (on_call_known x (append_text text unset unset) self t found)
      (lookup-insert_self x _ self.calls)

-- After any texts, at least one, the call's content is one text block with what was buffered
-- followed by the texts in order, and the rest of the call is as before.
pub lookup-append_all :
    (x text : String) (texts : List String) (t : TrackedToolCall) (self : ToolCallTracker)
    → lookup x self.calls ≡ some t
    → lookup x (append_all x (text ∷ texts) self).calls
      ≡ some (streamed (buffered t.stream_buffer <> joined (text ∷ texts)) t)
lookup-append_all x text [] t self found = rw append-nil (step x text t self found)
lookup-append_all x text (next ∷ texts) t self found = rw (← append_assoc) (
    lookup-append_all x next texts (streamed (buffered t.stream_buffer <> text) t) _
      (step x text t self found))
