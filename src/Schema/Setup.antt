-- ===== src/Schema/Setup.antt =====
-- What a connection and a session are set up with.
use agent_client_protocol_py.Base.{String, Bool, false, Option, none, some, List, Fields}

pub record EnvVariable : Type 0 where
  pub field_meta : Option Fields
  pub name : String
  pub value : String

pub record FileSystemCapability : Type 0 where
  pub field_meta : Option Fields
  pub read_text_file : Option Bool
  pub write_text_file : Option Bool

pub record HttpHeader : Type 0 where
  pub field_meta : Option Fields
  pub name : String
  pub value : String

pub record Implementation : Type 0 where
  pub field_meta : Option Fields
  pub name : String
  pub title : Option String
  pub version : String

pub record McpServerHttp : Type 0 where
  pub field_meta : Option Fields
  pub headers : List HttpHeader
  pub name : String
  pub url : String

pub record McpServerSse : Type 0 where
  pub field_meta : Option Fields
  pub headers : List HttpHeader
  pub name : String
  pub url : String

pub record McpServerStdio : Type 0 where
  pub field_meta : Option Fields
  pub args : List String
  pub command : String
  pub env : List EnvVariable
  pub name : String

-- `HttpMcpServer | SseMcpServer | McpServerStdio`
pub data McpServer : Type 0 where
  http_mcp_server : McpServerHttp → McpServer
  sse_mcp_server : McpServerSse → McpServer
  stdio_mcp_server : McpServerStdio → McpServer

pub record ClientCapabilities : Type 0 where
  pub field_meta : Option Fields
  pub fs : Option FileSystemCapability
  pub terminal : Option Bool

-- `ClientCapabilities()`: the fields at their defaults.
abbrev pub default_capabilities : ClientCapabilities
default_capabilities = record {
  field_meta = none;
  fs =
      some
        (record { field_meta = none; read_text_file = some false; write_text_file = some false });
  terminal = some false;
}
