-- ===== src/Tracker/Replies.antt =====
-- What the methods of the tracker return and change, on each branch.
use agent_client_protocol_py.Base.{◌≡◌, refl, string_eq, String, Option, none, some, ok, err, arith}
use agent_client_protocol_py.Base.Dict.{lookup, insert, lookup-erase}
use agent_client_protocol_py.Schema.{ToolCallProgress, ToolCallStatus}
use agent_client_protocol_py.Tracker.Call.{
  TrackedToolCall, unknown_tool_call_error, Arg, UpdateArgs, update, append_text,
}
use agent_client_protocol_py.Tracker.Calls.{
  ToolCallTracker, require_call, on_call, progress, append_stream_text, forget, view,
  tool_call_model,
}

module _ (x : String) (method : TrackedToolCall → ToolCallProgress × TrackedToolCall)
    (self : ToolCallTracker) where
  pub on_call_known :
      (old : TrackedToolCall)
      → lookup x self.calls ≡ some old
      → on_call x method self
        ≡ (ok (method old).0, record self { calls = insert x (method old).1 self.calls })
  unfolding require_call
  on_call_known old found = rw (found, on_call, require_call)

  pub on_call_unknown :
      lookup x self.calls ≡ none → on_call x method self ≡ (err (unknown_tool_call_error x), self)
  unfolding require_call
  on_call_unknown missing = rw (missing, on_call, require_call)

-- The two methods that `progress` and `append_stream_text` call.
pub progress_lem :
    (x : String) (args : UpdateArgs) (self : ToolCallTracker)
    → progress x args self ≡ on_call x (update args) self
unfolding progress
progress_lem x args self = refl

module _ (x : String) (self : ToolCallTracker) (missing : lookup x self.calls ≡ none) where
  require_call_unknown : require_call x self ≡ err (unknown_tool_call_error x)
  unfolding require_call
  require_call_unknown = rw (missing, require_call)

  view_unknown : view x self ≡ err (unknown_tool_call_error x)
  unfolding view
  view_unknown = ground (arith, require_call_unknown)

  pub tool_call_model_unknown : tool_call_model x self ≡ err (unknown_tool_call_error x)
  unfolding tool_call_model
  tool_call_model_unknown = ground (arith, require_call_unknown)

-- A call that is not tracked, because it never was or was forgotten: every method that needs it
-- raises the unknown-call error with its external id, and the tracker stays as it was.
pub forgotten_is_unknown :
    (x : String) (args : UpdateArgs) (text : String) (title : Arg (Option String))
    (status : Arg (Option ToolCallStatus)) (self : ToolCallTracker)
    → let t = forget x self in
      (progress x args t ≡ (err (unknown_tool_call_error x), t))
      × (append_stream_text x text title status t ≡ (err (unknown_tool_call_error x), t))
      × (view x t ≡ err (unknown_tool_call_error x))
      × (tool_call_model x t ≡ err (unknown_tool_call_error x))
forgotten_is_unknown x args text title status self =
    let t = forget x self in
    let missing : lookup x t.calls ≡ none =
      unfold forget in ground (arith, lookup-erase x x self.calls) in
    (
      unfold progress in on_call_unknown x (update args) t missing,
      unfold append_stream_text in on_call_unknown x (append_text text title status) t missing,
      view_unknown x t missing,
      tool_call_model_unknown x t missing,
    )
