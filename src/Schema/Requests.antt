-- ===== src/Schema/Requests.antt =====
-- The parameters of the requests and notifications that the two sides send each other.
use Prim.Native.Nat.{compare, Ordering}
use agent_client_protocol_py.Base.{
  ◌≡◌, refl, sym, subst, ◌≤◌, ◌<◌, arith, ℕ, ℤ, pos, negsuc, String, Bool, true, false, ◌&&◌,
  Option, none, some, List, Fields,
}
use agent_client_protocol_py.Schema.Content.{ContentBlock}
use agent_client_protocol_py.Schema.Permission.{RequestPermissionRequest}
use agent_client_protocol_py.Schema.Update.{SessionNotification}
use agent_client_protocol_py.Schema.Setup.{
  EnvVariable, Implementation, McpServer, ClientCapabilities,
}

pub record InitializeRequest : Type 0 where
  pub field_meta : Option Fields
  pub client_capabilities : Option ClientCapabilities
  pub client_info : Option Implementation
  pub protocol_version : ℤ

pub record NewSessionRequest : Type 0 where
  pub field_meta : Option Fields
  pub cwd : String
  pub mcp_servers : List McpServer

pub record LoadSessionRequest : Type 0 where
  pub field_meta : Option Fields
  pub cwd : String
  pub mcp_servers : List McpServer
  pub session_id : String

pub record ListSessionsRequest : Type 0 where
  pub field_meta : Option Fields
  pub cursor : Option String
  pub cwd : Option String

pub record SetSessionModeRequest : Type 0 where
  pub field_meta : Option Fields
  pub mode_id : String
  pub session_id : String

pub record SetSessionModelRequest : Type 0 where
  pub field_meta : Option Fields
  pub model_id : String
  pub session_id : String

pub record AuthenticateRequest : Type 0 where
  pub field_meta : Option Fields
  pub method_id : String

pub record PromptRequest : Type 0 where
  pub field_meta : Option Fields
  pub prompt : List ContentBlock
  pub session_id : String

pub record ForkSessionRequest : Type 0 where
  pub field_meta : Option Fields
  pub cwd : String
  pub mcp_servers : Option (List McpServer)
  pub session_id : String

pub record ResumeSessionRequest : Type 0 where
  pub field_meta : Option Fields
  pub cwd : String
  pub mcp_servers : Option (List McpServer)
  pub session_id : String

pub record CancelNotification : Type 0 where
  pub field_meta : Option Fields
  pub session_id : String

pub record ReadTextFileRequest : Type 0 where
  pub field_meta : Option Fields
  pub limit : Option ℤ
  pub line : Option ℤ
  pub path : String
  pub session_id : String

pub record WriteTextFileRequest : Type 0 where
  pub field_meta : Option Fields
  pub content : String
  pub path : String
  pub session_id : String

pub record CreateTerminalRequest : Type 0 where
  pub field_meta : Option Fields
  pub args : Option (List String)
  pub command : String
  pub cwd : Option String
  pub env : Option (List EnvVariable)
  pub output_byte_limit : Option ℤ
  pub session_id : String

pub record TerminalOutputRequest : Type 0 where
  pub field_meta : Option Fields
  pub session_id : String
  pub terminal_id : String

pub record ReleaseTerminalRequest : Type 0 where
  pub field_meta : Option Fields
  pub session_id : String
  pub terminal_id : String

pub record WaitForTerminalExitRequest : Type 0 where
  pub field_meta : Option Fields
  pub session_id : String
  pub terminal_id : String

pub record KillTerminalCommandRequest : Type 0 where
  pub field_meta : Option Fields
  pub session_id : String
  pub terminal_id : String

-- A model that a connection sends.
pub data Params : Type 0 where
  initialize_params : InitializeRequest → Params
  new_session_params : NewSessionRequest → Params
  load_session_params : LoadSessionRequest → Params
  list_sessions_params : ListSessionsRequest → Params
  set_session_mode_params : SetSessionModeRequest → Params
  set_session_model_params : SetSessionModelRequest → Params
  authenticate_params : AuthenticateRequest → Params
  prompt_params : PromptRequest → Params
  fork_session_params : ForkSessionRequest → Params
  resume_session_params : ResumeSessionRequest → Params
  cancel_params : CancelNotification → Params
  session_update_params : SessionNotification → Params
  request_permission_params : RequestPermissionRequest → Params
  read_text_file_params : ReadTextFileRequest → Params
  write_text_file_params : WriteTextFileRequest → Params
  create_terminal_params : CreateTerminalRequest → Params
  terminal_output_params : TerminalOutputRequest → Params
  release_terminal_params : ReleaseTerminalRequest → Params
  wait_for_terminal_exit_params : WaitForTerminalExitRequest → Params
  kill_terminal_params : KillTerminalCommandRequest → Params

abbrev leb : ℕ → ℕ → Bool
leb a b = elim (compare a b) [ Ordering.gt ↦ false | _ ↦ true ]

-- `ge=0` of an optional field
abbrev pub non_negative : Option ℤ → Bool
non_negative none = true
non_negative (some (pos n)) = true
non_negative (some (negsuc n)) = false

-- `ge=0, le=65535`
abbrev pub uint16 : ℤ → Bool
uint16 (pos n) = leb n 65535
uint16 (negsuc n) = false

-- The bounds that the classes give their numbers.
unfoldable pub in_bounds : Params → Bool
in_bounds (initialize_params r) = uint16 r.protocol_version
in_bounds (read_text_file_params r) = non_negative r.limit && non_negative r.line
in_bounds (create_terminal_params r) = non_negative r.output_byte_limit
in_bounds _ = true

-- What the bounds say of a number.
pub uint16-bound : (version : ℤ) → uint16 version ≡ true → (n : ℕ) × (version ≡ pos n) × (n ≤ 65535)
uint16-bound (pos n) h = (n, refl, ground (arith, h))
uint16-bound (negsuc n) h = cc

pub uint16-out : (version : ℤ) → uint16 version ≡ false → (n : ℕ) → version ≡ pos n → 65535 < n
uint16-out version h n is =
    subst (λ v. uint16 v ≡ false → 65535 < n) (sym is) (λ out. ground (arith, out)) h
