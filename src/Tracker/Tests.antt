-- ===== src/Tracker/Tests.antt =====
-- The theorems on the tracker, at concrete calls.
use agent_client_protocol_py.Base.Lists.{All}
use agent_client_protocol_py.Tracker.Mirror.{IsExplicit}
use agent_client_protocol_py.Base.{
  ◌≡◌, refl, ℕ, ◌+◌, ◌<>◌, zero, suc, String, string_eq, none, some, List, [], ◌∷◌, null, arith, ap,
  sym, ◌∙◌,
}
use Prim.Native.String.{count}
use text.Mathlib.TextLemmas.{length-append, append_cancel_left}
use agent_client_protocol_py.Base.Dict.{lookup, insert, map_values}
use agent_client_protocol_py.Schema.{ToolCallStatus}
use agent_client_protocol_py.Session.{call_view}
use agent_client_protocol_py.Tracker.Call.{
  TrackedToolCall, UpdateArgs, unset, given, to_view, append_text, update,
}
use agent_client_protocol_py.Tracker.Calls.{
  ToolCallTracker, StartArgs, new_call, start, require_call, progress, append_stream_text,
}
use agent_client_protocol_py.Tracker.Ids.{IsInjective}
use agent_client_protocol_py.Tracker.Follow.{Op, op_start, op_progress, op_stream, IsExplicitOp}
use agent_client_protocol_py.Tracker.Agreement.{played, as_call_view, played-agrees}
use agent_client_protocol_py.Tracker.Stream.{streamed}

-- A factory of texts of growing length.
abbrev ids : ℕ → String
ids zero = ""
ids (suc n) = "a" <> ids n

ids-IsInjective : IsInjective ids
ids-IsInjective zero zero e = refl
ids-IsInjective zero (suc j) e =
    let longer : 0 ≡ 1 + count (ids j) = ap count e ∙ length-append "a" (ids j) in omega arith
ids-IsInjective (suc i) zero e =
    let longer : 0 ≡ 1 + count (ids i) = ap count (sym e) ∙ length-append "a" (ids i) in omega arith
ids-IsInjective (suc i) (suc j) e =
    ap suc (ids-IsInjective i j (append_cancel_left "a" (ids i) (ids j) e))

abbrev build : StartArgs
build = record {
  title = "Build";
  kind = none;
  status = some ToolCallStatus.in_progress;
  content = none;
  locations = none;
  raw_input = null;
  raw_output = null;
}

abbrev tracked : ToolCallTracker
tracked = record { ids_drawn = 1; calls = ("x", new_call "t0" build) ∷ [] }

tracked_found : lookup "x" tracked.calls ≡ some (new_call "t0" build)
unfolding lookup string_eq
tracked_found = refl

abbrev retitled : UpdateArgs
retitled = record {
  title = given (some "Test");
  kind = unset;
  status = unset;
  content = unset;
  locations = unset;
  raw_input = unset;
  raw_output = unset;
}

abbrev ops : List Op
ops = op_start "x" build ∷ op_stream "x" "log" unset unset ∷ op_progress "x" retitled ∷ []

abbrev after_ops : TrackedToolCall
after_ops = record (streamed "log" (new_call "" build)) { title = some "Test" }

retitled-IsExplicit : IsExplicit retitled
retitled-IsExplicit = record {
  title = tt;
  kind = tt;
  status = tt;
  content = tt;
  locations = tt;
  raw_input = tt;
  raw_output = tt;
}

ops_found : lookup "x" (played ids ops).0.calls ≡ some after_ops
unfolding start progress append_stream_text append_text update new_call require_call lookup insert
    string_eq
ops_found = refl

ops_explicit : All IsExplicitOp ops
ops_explicit =
    let updated : IsExplicit retitled × Unit {0} = (retitled-IsExplicit, tt) in
    let streams : (Unit {0} × Unit {0}) × (IsExplicit retitled × Unit {0}) = ((tt, tt), updated) in
    (tt, streams)

played-agrees_example :
    lookup after_ops.tool_call_id (map_values call_view (played ids ops).1.tool_calls)
    ≡ some (as_call_view ids (to_view after_ops))
played-agrees_example = played-agrees ids ids-IsInjective ops "x" after_ops ops_explicit ops_found
