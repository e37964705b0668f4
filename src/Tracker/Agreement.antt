-- ===== src/Tracker/Agreement.antt =====
-- After any operations the accumulator shows the tracker's calls.
use agent_client_protocol_py.Base.{
  ◌≡◌, true, refl, ◌∙◌, ap, ℕ, String, ◌<>◌, string_eq, Option, none, some, List, [], ◌∷◌,
}
use agent_client_protocol_py.Base.Dict.{
  lookup, map_values, lookup-map_values, lookup-erase_inv, lookup-nil,
}
use agent_client_protocol_py.Base.Lists.{All}
use agent_client_protocol_py.Schema.{ToolCallProgress, ToolCallStatus, tool_call_update}
use agent_client_protocol_py.Session.{
  MutableToolCallState, apply_progress, ToolCallView, call_view, SessionAccumulator,
  new_accumulator,
}
use agent_client_protocol_py.Tracker.Call.{
  TrackedToolCall, TrackedToolCallView, Arg, UpdateArgs, update, append_text, stream_args, buffered,
  to_view,
}
use agent_client_protocol_py.Tracker.Calls.{
  ToolCallTracker, new_tracker, on_call, progress, append_stream_text, forget,
}
use agent_client_protocol_py.Tracker.Ids.{IsInjective, IsDrawn-new_tracker, forget-IsDrawn}
use agent_client_protocol_py.Tracker.Mirror.{Shows, IsSet?, IsExplicit, update-Shows}
use agent_client_protocol_py.Tracker.Replies.{on_call_known, on_call_unknown}
use agent_client_protocol_py.Tracker.Follow.{
  Op, op_start, op_progress, op_stream, op_forget, IsExplicitOp, Pair, deliver, perform,
  perform_all, Follows, called-Follows, start-Follows,
}

-- A method of a call, on both sides.
record IsShown (method : TrackedToolCall → ToolCallProgress × TrackedToolCall) : Type 0 where
  message_id : (t : TrackedToolCall) → (method t).0.tool_call_id ≡ t.tool_call_id
  kept_id : (t : TrackedToolCall) → (method t).1.tool_call_id ≡ t.tool_call_id
  shows :
      (t : TrackedToolCall) (c : MutableToolCallState)
      → Shows t c
      → Shows (method t).1 (apply_progress (method t).0 c)

update-IsShown : (args : UpdateArgs) → IsExplicit args → IsShown (update args)
unfolding update
update-IsShown args e = record {
  message_id = λ t. refl;
  kept_id = λ t. refl;
  shows = λ t c. update-Shows args t c e;
}

append_text-IsShown :
    (text : String) (title : Arg (Option String)) (status : Arg (Option ToolCallStatus))
    → IsSet? title
    → IsSet? status
    → IsShown (append_text text title status)
unfolding append_text
append_text-IsShown text title status e f = record {
  message_id = λ t. refl;
  kept_id = λ t. refl;
  shows = λ t c h.
      let buffer = buffered t.stream_buffer <> text in
      update-Shows (stream_args buffer title status) (record t { stream_buffer = some buffer }) c
        (record {
          title = e;
          kind = tt;
          status = f;
          content = tt;
          locations = tt;
          raw_input = tt;
          raw_output = tt;
        })
        (record {
          tool_call_id = h.tool_call_id;
          title = h.title;
          kind = h.kind;
          status = h.status;
          content = h.content;
          locations = h.locations;
          raw_input = h.raw_input;
          raw_output = h.raw_output;
        });
}

module _ (id_factory : ℕ → String) where
  on_call-Follows :
      (x : String) (method : TrackedToolCall → ToolCallProgress × TrackedToolCall)
      → IsShown method
      → (t : ToolCallTracker) (s : SessionAccumulator) → Follows id_factory (t, s)
      → Follows id_factory
          ((on_call x method t).1, deliver tool_call_update (on_call x method t).0 s)
  on_call-Follows x method shown t s f = go (lookup x t.calls) refl
    where
      go :
          (o : Option TrackedToolCall)
          → lookup x t.calls ≡ o
          → Follows id_factory
              ((on_call x method t).1, deliver tool_call_update (on_call x method t).0 s)
      go none e = rw (on_call_unknown x method t e) f
      go (some old) e = rw (on_call_known x method t old e) (
          called-Follows id_factory x (method old).0 old (method old).1 t s e (shown.message_id old)
            (shown.kept_id old) (shown.shows old) f)

  forget-Follows :
      (x : String) (t : ToolCallTracker) (s : SessionAccumulator)
      → Follows id_factory (t, s)
      → Follows id_factory (forget x t, s)
  forget-Follows x t s f = record {
    drawn = forget-IsDrawn id_factory x t f.drawn;
    filed = f.filed;
    mirrors = unfold forget in λ y u e. f.mirrors y u (lookup-erase_inv y x t.calls e).1;
  }

  perform-Follows :
      IsInjective id_factory
      → (op : Op) → IsExplicitOp op
      → (t : ToolCallTracker) (s : SessionAccumulator) → Follows id_factory (t, s)
      → Follows id_factory (perform id_factory op (t, s))
  perform-Follows inj (op_start x args) e t s f = start-Follows id_factory inj x args t s f
  perform-Follows inj (op_progress x args) e t s f =
      unfold progress in on_call-Follows x (update args) (update-IsShown args e) t s f
  perform-Follows inj (op_stream x text title status) e t s f =
      unfold append_stream_text in
      on_call-Follows x (append_text text title status)
        (append_text-IsShown text title status e.0 e.1) t s f
  perform-Follows inj (op_forget x) e t s f = forget-Follows x t s f

  perform_all-Follows :
      IsInjective id_factory
      → (ops : List Op) (p : Pair) → All IsExplicitOp ops
      → Follows id_factory p
      → Follows id_factory (perform_all id_factory ops p)
  perform_all-Follows inj [] p e f = f
  perform_all-Follows inj (op ∷ ops) p e f =
      perform_all-Follows inj ops (perform id_factory op p) e.1
        (perform-Follows inj op e.0 p.0 p.1 f)

  new-Follows : Follows id_factory (new_tracker, new_accumulator true)
  new-Follows = record {
    drawn = IsDrawn-new_tracker id_factory;
    filed = tt;
    mirrors = λ x t e. cc (lookup-nil {V = TrackedToolCall} x);
  }

  abbrev pub as_call_view : TrackedToolCallView → ToolCallView
  as_call_view v = record {
    tool_call_id = v.tool_call_id;
    title = v.title;
    kind = v.kind;
    status = v.status;
    content = v.content;
    locations = v.locations;
    raw_input = v.raw_input;
    raw_output = v.raw_output;
  }

  call_view-to_view :
      (t : TrackedToolCall) (c : MutableToolCallState)
      → Shows t c
      → call_view c ≡ as_call_view (to_view t)
  unfolding call_view to_view
  call_view-to_view t c h =
      rw (
        h.tool_call_id, h.title, h.kind, h.status, h.content, h.locations, h.raw_input,
        h.raw_output,
      )

  -- A new tracker and a new accumulator after the operations.
  abbrev pub played : List Op → Pair
  played ops = perform_all id_factory ops (new_tracker, new_accumulator true)

  -- Whatever calls are started, updated, streamed to and forgotten, with ids that do not repeat
  -- and no explicit `None` among the arguments of an update: the snapshot of an accumulator that
  -- got every message shows each tracked call, under its id, as the tracker's own view does.
  pub played-agrees :
      IsInjective id_factory
      → (ops : List Op) (x : String) (t : TrackedToolCall) → All IsExplicitOp ops
      → lookup x (played ops).0.calls ≡ some t
      → lookup t.tool_call_id (map_values call_view (played ops).1.tool_calls)
        ≡ some (as_call_view (to_view t))
  played-agrees inj ops x t e found =
      let f = perform_all-Follows inj ops (new_tracker, new_accumulator true) e new-Follows in
      let (c, there, same) = f.mirrors x t found in
      lookup-map_values call_view t.tool_call_id _ ∙ rw there (ap some (call_view-to_view t c same))
