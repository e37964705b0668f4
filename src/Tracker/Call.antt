-- ===== src/Tracker/Call.antt =====
-- `_TrackedToolCall`, and the arguments that may be `UNSET`.
use agent_client_protocol_py.Base.{
  String, ◌<>◌, Option, none, some, List, [], ◌∷◌, Json, null, Result, ok, err,
}
use agent_client_protocol_py.Schema.{
  ToolKind, ToolCallStatus, ToolCallContent, ToolCallLocation, ToolCallStart, ToolCallProgress,
  ToolCallUpdate,
}
use agent_client_protocol_py.Helpers.{text_block, tool_content}
use agent_client_protocol_py.Base.Models.{copy_model_list, non_empty}

-- An argument whose default is `UNSET`.
pub data Arg {ℓ} (A : Type ℓ) : Type ℓ where
  unset : Arg A
  given : A → Arg A

pub data TrackerError : Type 0 where
  missing_tool_call_title_error : TrackerError
  unknown_tool_call_error : String → TrackerError

pub record TrackedToolCallView : Type 0 where
  pub tool_call_id : String
  pub title : Option String
  pub kind : Option ToolKind
  pub status : Option ToolCallStatus
  pub content : Option (List ToolCallContent)
  pub locations : Option (List ToolCallLocation)
  pub raw_input : Json
  pub raw_output : Json

pub record TrackedToolCall : Type 0 where
  pub tool_call_id : String
  pub title : Option String
  pub kind : Option ToolKind
  pub status : Option ToolCallStatus
  pub content : Option (List ToolCallContent)
  pub locations : Option (List ToolCallLocation)
  pub raw_input : Json
  pub raw_output : Json
  pub stream_buffer : Option String

unfoldable pub to_view : TrackedToolCall → TrackedToolCallView
to_view self = record {
  tool_call_id = self.tool_call_id;
  title = self.title;
  kind = self.kind;
  status = self.status;
  content = non_empty self.content;
  locations = non_empty self.locations;
  raw_input = self.raw_input;
  raw_output = self.raw_output;
}

unfoldable pub to_tool_call_model : TrackedToolCall → ToolCallUpdate
unfolding copy_model_list
to_tool_call_model self = record {
  field_meta = none;
  content = copy_model_list self.content;
  kind = self.kind;
  locations = copy_model_list self.locations;
  raw_input = self.raw_input;
  raw_output = self.raw_output;
  status = self.status;
  title = self.title;
  tool_call_id = self.tool_call_id;
}

unfoldable pub to_start_model : TrackedToolCall → Result TrackerError ToolCallStart
unfolding copy_model_list
to_start_model self = elim self.title [
  | none ↦ err missing_tool_call_title_error
  | some title ↦ ok (record {
    field_meta = none;
    content = copy_model_list self.content;
    kind = self.kind;
    locations = copy_model_list self.locations;
    raw_input = self.raw_input;
    raw_output = self.raw_output;
    status = self.status;
    title = title;
    tool_call_id = self.tool_call_id;
  })
]

-- The keyword arguments of `update` and `progress`.
pub record UpdateArgs : Type 0 where
  pub title : Arg (Option String)
  pub kind : Arg (Option ToolKind)
  pub status : Arg (Option ToolCallStatus)
  pub content : Arg (Option (List ToolCallContent))
  pub locations : Arg (Option (List ToolCallLocation))
  pub raw_input : Arg Json
  pub raw_output : Arg Json

-- `if x is not UNSET: self.x = x`
abbrev pub assign {ℓ} : {A : Type ℓ} → Arg A → A → A
assign unset old = old
assign (given a) old = a

-- The keyword of the message, left at its default `None` where the argument is `UNSET`.
abbrev pub keyword {ℓ} : {A : Type ℓ} → Arg (Option A) → Option A
keyword unset = none
keyword (given a) = a

abbrev pub keyword_any : Arg Json → Json
keyword_any unset = null
keyword_any (given a) = a

abbrev pub copied {ℓ} : {A : Type ℓ} → Arg (Option (List A)) → Arg (Option (List A))
copied unset = unset
copied (given items) = given (copy_model_list items)

unfoldable pub update : UpdateArgs → TrackedToolCall → ToolCallProgress × TrackedToolCall
unfolding copy_model_list
update args self = (
  record {
    field_meta = none;
    content = keyword (copied args.content);
    kind = keyword args.kind;
    locations = keyword (copied args.locations);
    raw_input = keyword_any args.raw_input;
    raw_output = keyword_any args.raw_output;
    status = keyword args.status;
    title = keyword args.title;
    tool_call_id = self.tool_call_id;
  },
  record self {
    title = assign args.title self.title;
    kind = assign args.kind self.kind;
    status = assign args.status self.status;
    content = assign (copied args.content) self.content;
    locations = assign (copied args.locations) self.locations;
    raw_input = assign args.raw_input self.raw_input;
    raw_output = assign args.raw_output self.raw_output;
  },
)

-- `self._stream_buffer or ""`
abbrev pub buffered : Option String → String
buffered none = ""
buffered (some text) = text

abbrev pub stream_args : String → Arg (Option String) → Arg (Option ToolCallStatus) → UpdateArgs
stream_args buffer title status = record {
  title = title;
  kind = unset;
  status = status;
  content = given (some (tool_content (text_block buffer) ∷ []));
  locations = unset;
  raw_input = unset;
  raw_output = unset;
}

unfoldable pub append_text :
    String
    → Arg (Option String)
    → Arg (Option ToolCallStatus)
    → TrackedToolCall
    → ToolCallProgress × TrackedToolCall
unfolding update
append_text text title status self =
    let buffer = buffered self.stream_buffer <> text in
    update (stream_args buffer title status) (record self { stream_buffer = some buffer })
