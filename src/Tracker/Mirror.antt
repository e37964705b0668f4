-- ===== src/Tracker/Mirror.antt =====
-- An accumulator of session_state.py that is fed the tracker's messages shows what the tracker
-- tracks.
use agent_client_protocol_py.Base.{
  ◌≡◌, refl, string_eq, Option, none, some, List, Json, is_none, false,
}
use agent_client_protocol_py.Base.Models.{copy_model_list, copy_model_list_id}
use agent_client_protocol_py.Session.{MutableToolCallState, apply_progress, over, over_any}
use agent_client_protocol_py.Tracker.Call.{
  TrackedToolCall, Arg, unset, given, UpdateArgs, update, assign, keyword, keyword_any, copied,
}

-- An accumulated call shows a tracked one.
pub record Shows (t : TrackedToolCall) (c : MutableToolCallState) : Type 0 where
  pub tool_call_id : c.tool_call_id ≡ t.tool_call_id
  pub title : c.title ≡ t.title
  pub kind : c.kind ≡ t.kind
  pub status : c.status ≡ t.status
  pub content : c.content ≡ t.content
  pub locations : c.locations ≡ t.locations
  pub raw_input : c.raw_input ≡ t.raw_input
  pub raw_output : c.raw_output ≡ t.raw_output

-- An argument is not an explicit `None`, which the messages cannot tell from a missing one.
abbrev pub IsSet? {ℓ} : {A : Type ℓ} → Arg (Option A) → Type 0
IsSet? unset = Unit
IsSet? (given none) = ⊥
IsSet? (given (some a)) = Unit

abbrev pub IsSetAny : Arg Json → Type 0
IsSetAny unset = Unit
IsSetAny (given value) = is_none value ≡ false

pub record IsExplicit (args : UpdateArgs) : Type 0 where
  pub title : IsSet? args.title
  pub kind : IsSet? args.kind
  pub status : IsSet? args.status
  pub content : IsSet? args.content
  pub locations : IsSet? args.locations
  pub raw_input : IsSetAny args.raw_input
  pub raw_output : IsSetAny args.raw_output

over-keyword {ℓ} :
    {A : Type ℓ} (arg : Arg (Option A)) (old : Option A)
    → IsSet? arg
    → over (keyword arg) old ≡ assign arg old
over-keyword unset old h = refl
over-keyword (given none) old h = absurd h
over-keyword (given (some a)) old h = refl

over_any-keyword_any :
    (arg : Arg Json) (old : Json) → IsSetAny arg → over_any (keyword_any arg) old ≡ assign arg old
over_any-keyword_any unset old h = refl
over_any-keyword_any (given value) old h = rw h

copied-IsSet? {ℓ} : {A : Type ℓ} (arg : Arg (Option (List A))) → IsSet? arg → IsSet? (copied arg)
unfolding copy_model_list
copied-IsSet? unset h = h
copied-IsSet? (given none) h = h
copied-IsSet? (given (some a)) h = h

over-copied {ℓ} :
    {A : Type ℓ} (arg : Arg (Option (List A))) (old : Option (List A))
    → IsSet? arg
    → over (copy_model_list (keyword (copied arg))) old ≡ assign (copied arg) old
over-copied arg old h = rw copy_model_list_id (over-keyword (copied arg) old (copied-IsSet? arg h))

-- One update of a call, on both sides.
pub update-Shows :
    (args : UpdateArgs) (t : TrackedToolCall) (c : MutableToolCallState)
    → IsExplicit args
    → Shows t c
    → Shows (update args t).1 (apply_progress (update args t).0 c)
unfolding update apply_progress
update-Shows args t c e h = record {
  tool_call_id = h.tool_call_id;
  title = rw h.title (over-keyword args.title t.title e.title);
  kind = rw h.kind (over-keyword args.kind t.kind e.kind);
  status = rw h.status (over-keyword args.status t.status e.status);
  content = rw h.content (over-copied args.content t.content e.content);
  locations = rw h.locations (over-copied args.locations t.locations e.locations);
  raw_input = rw h.raw_input (over_any-keyword_any args.raw_input t.raw_input e.raw_input);
  raw_output = rw h.raw_output (over_any-keyword_any args.raw_output t.raw_output e.raw_output);
}
