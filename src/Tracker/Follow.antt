-- ===== src/Tracker/Follow.antt =====
-- A tracker and an accumulator that receives its messages, over any sequence of operations.
use mathlib.Core.Option.{get_or}
use agent_client_protocol_py.Base.{
  ◌≡◌, ◌≢◌, refl, sym, subst, inl, inr, ◌∙◌, string_eq, ℕ, String, Option, none, some, List, [],
  ◌∷◌, Result, ok, err, arith,
}
use agent_client_protocol_py.Base.Dict.{lookup, insert, lookup-insert_inv}
use agent_client_protocol_py.Base.Models.{copy_model_list_id}
use agent_client_protocol_py.Schema.{
  ToolCallProgress, ToolCallStart, ToolCallStatus, SessionUpdate, tool_call, tool_call_update,
}
use agent_client_protocol_py.Session.{
  MutableToolCallState, new_state, apply_start, apply_progress, SessionAccumulator, apply_update,
}
use agent_client_protocol_py.Session.History.{call_step}
use agent_client_protocol_py.Session.Keys.{IsFiled, call_of-tool_call_id, apply_update-IsFiled}
use agent_client_protocol_py.Tracker.Call.{TrackedToolCall, TrackerError, Arg, UpdateArgs}
use agent_client_protocol_py.Tracker.Calls.{
  ToolCallTracker, StartArgs, new_call, start, progress, append_stream_text, forget,
}
use agent_client_protocol_py.Tracker.Ids.{
  IsInjective, IsDrawn, start-IsDrawn, insert-IsDrawn, fresh,
}
use agent_client_protocol_py.Tracker.Mirror.{Shows, IsSet?, IsExplicit}

-- One call of a method of the tracker.
pub data Op : Type 0 where
  op_start : String → StartArgs → Op
  op_progress : String → UpdateArgs → Op
  op_stream : String → String → Arg (Option String) → Arg (Option ToolCallStatus) → Op
  op_forget : String → Op

-- No argument of the call is an explicit `None`.
abbrev pub IsExplicitOp : Op → Type 0
IsExplicitOp (op_start x args) = Unit
IsExplicitOp (op_progress x args) = IsExplicit args
IsExplicitOp (op_stream x text title status) = IsSet? title × IsSet? status
IsExplicitOp (op_forget x) = Unit

-- The message, if the method returned one, reaches the accumulator.
abbrev pub deliver :
    {M : Type 0}
    → (M → SessionUpdate)
    → Result TrackerError M
    → SessionAccumulator
    → SessionAccumulator
deliver wrap (ok m) s = apply_update (wrap m) s
deliver wrap (err e) s = s

abbrev pub Pair : Type 0
Pair = ToolCallTracker × SessionAccumulator

module _ (id_factory : ℕ → String) where
  abbrev pub perform : Op → Pair → Pair
  perform (op_start x args) (t, s) =
      let (r, t') = start id_factory x args t in (t', deliver tool_call r s)
  perform (op_progress x args) (t, s) =
      let (r, t') = progress x args t in (t', deliver tool_call_update r s)
  perform (op_stream x text title status) (t, s) =
      let (r, t') = append_stream_text x text title status t in (t', deliver tool_call_update r s)
  perform (op_forget x) (t, s) = (forget x t, s)

  abbrev pub perform_all : List Op → Pair → Pair
  perform_all [] p = p
  perform_all (op ∷ ops) p = perform_all ops (perform op p)

  pub record Follows (p : Pair) : Type 0 where
    pub drawn : IsDrawn id_factory p.0
    pub filed : IsFiled p.1.tool_calls
    pub mirrors :
        (x : String) (t : TrackedToolCall)
        → lookup x p.0.calls ≡ some t
        → (c : MutableToolCallState) × (lookup t.tool_call_id p.1.tool_calls ≡ some c) × Shows t c

  progress_at :
      (m : ToolCallProgress) (id : String) (c : MutableToolCallState) (s : SessionAccumulator)
      → lookup id s.tool_calls ≡ some c
      → m.tool_call_id ≡ id
      → lookup id (apply_update (tool_call_update m) s).tool_calls ≡ some (apply_progress m c)
  progress_at m id c s found own = ground (arith, call_step s id (tool_call_update m))

  progress_off :
      (m : ToolCallProgress) (id : String) (s : SessionAccumulator)
      → m.tool_call_id ≢ id
      → lookup id (apply_update (tool_call_update m) s).tool_calls ≡ lookup id s.tool_calls
  progress_off m id s other = ground (arith, call_step s id (tool_call_update m))

  pub called-Follows :
      (x : String) (m : ToolCallProgress) (old new : TrackedToolCall) (t : ToolCallTracker)
      (s : SessionAccumulator)
      → lookup x t.calls ≡ some old
      → m.tool_call_id ≡ old.tool_call_id
      → new.tool_call_id ≡ old.tool_call_id
      → ((c : MutableToolCallState) → Shows old c → Shows new (apply_progress m c))
      → Follows (t, s)
      → Follows (record t { calls = insert x new t.calls }, apply_update (tool_call_update m) s)
  called-Follows x m old new t s found own kept shows f = record {
    drawn = insert-IsDrawn id_factory x old new t found kept f.drawn;
    filed = apply_update-IsFiled (tool_call_update m) s f.filed;
    mirrors = λ y u e. elim (lookup-insert_inv y x new t.calls e) [
      | inl (at, is_new) ↦
          let (c, there, same) = f.mirrors x old found in
          (
            apply_progress m c,
            rw (← is_new, kept) (progress_at m old.tool_call_id c s there own),
            subst (λ v. Shows v (apply_progress m c)) is_new (shows c same),
          )
      | inr (off, before) ↦
          let (c, there, same) = f.mirrors y u before in
          (
            c,
            progress_off m u.tool_call_id s
                  (λ clash. off (f.drawn.distinct y x u old before found (sym clash ∙ own)))
                ∙ there,
            same,
          )
    ];
  }

  start_at :
      (m : ToolCallStart) (s : SessionAccumulator)
      → lookup m.tool_call_id (apply_update (tool_call m) s).tool_calls
        ≡ some
            (apply_start m (get_or (lookup m.tool_call_id s.tool_calls) (new_state m.tool_call_id)))
  start_at m s = ground (arith, call_step s m.tool_call_id (tool_call m))

  start_off :
      (m : ToolCallStart) (id : String) (s : SessionAccumulator)
      → id ≢ m.tool_call_id
      → lookup id (apply_update (tool_call m) s).tool_calls ≡ lookup id s.tool_calls
  start_off m id s other = ground (arith, call_step s id (tool_call m))

  -- The `tool_call` message of a new call.
  abbrev started_message : String → StartArgs → ToolCallStart
  started_message id args = record {
    field_meta = none;
    content = args.content;
    kind = args.kind;
    locations = args.locations;
    raw_input = args.raw_input;
    raw_output = args.raw_output;
    status = args.status;
    title = args.title;
    tool_call_id = id;
  }

  pub start-ok :
      (x : String) (args : StartArgs) (t : ToolCallTracker)
      → (start id_factory x args t).0 ≡ ok (started_message (id_factory t.ids_drawn) args)
  unfolding start
  start-ok x args t = simp copy_model_list_id

  new_call-Shows :
      (id : String) (args : StartArgs) (old : MutableToolCallState)
      → old.tool_call_id ≡ id
      → Shows (new_call id args) (apply_start (started_message id args) old)
  unfolding new_call apply_start
  new_call-Shows id args old own = record {
    tool_call_id = own;
    title = refl;
    kind = refl;
    status = refl;
    content = refl;
    locations = refl;
    raw_input = refl;
    raw_output = refl;
  }

  pub start-Follows :
      IsInjective id_factory
      → (x : String) (args : StartArgs) (t : ToolCallTracker) (s : SessionAccumulator)
      → Follows (t, s)
      → Follows (perform (op_start x args) (t, s))
  start-Follows inj x args t s f = rw (start-ok x args t) (record {
    drawn = start-IsDrawn id_factory inj x args t f.drawn;
    filed = apply_update-IsFiled (tool_call m) s f.filed;
    mirrors =
        unfold start in
        λ y u e. elim (lookup-insert_inv y x (new_call id args) t.calls e) [
          | inl (at, is_new) ↦ (
            apply_start m (get_or (lookup id s.tool_calls) (new_state id)),
            rw (← is_new) (start_at m s),
            subst (λ v. Shows v (apply_start m (get_or (lookup id s.tool_calls) (new_state id))))
                is_new (new_call-Shows id args _ (call_of-tool_call_id id s.tool_calls f.filed)),
          )
          | inr (off, before) ↦
              let (c, there, same) = f.mirrors y u before in
              (
                c,
                start_off m u.tool_call_id s (fresh id_factory inj t f.drawn y u before) ∙ there,
                same,
              )
        ];
  })
    where
      id : String
      id = id_factory t.ids_drawn

      m : ToolCallStart
      m = started_message id args
