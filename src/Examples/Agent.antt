-- ===== src/Examples/Agent.antt =====
-- `ExampleAgent` of src/examples/agent.py. The client that `on_connect` gives it is a parameter, its
-- `session_update`, over the world `W` that it changes; `str` of an `int` is another.
use agent_client_protocol_py.Base.{
  ℕ, suc, String, string_eq, contains, List, [], ◌∷◌, ◌++◌, Result, ok, err, if◌then◌else◌,
}
use agent_client_protocol_py.Exceptions.{Exn}
use agent_client_protocol_py.Schema.{
  ContentBlock, AgentMessageChunk, SessionUpdate, agent_message_chunk,
}
use agent_client_protocol_py.Helpers.{text_block, update_agent_message}

-- `_sessions` is a set: a list without repetition.
pub record ExampleAgent : Type 0 where
  pub next_session_id : ℕ
  pub sessions : List String

-- `__init__`
abbrev pub new_agent : ExampleAgent
new_agent = record { next_session_id = 0; sessions = [] }

-- `self._sessions.add(session_id)`
abbrev pub add_session : String → ExampleAgent → ExampleAgent
add_session session_id self = record self {
  sessions =
      if contains self.sessions session_id
      then self.sessions
      else self.sessions ++ (session_id ∷ []);
}

-- The id of the new session, beside the agent.
unfoldable pub new_session : (ℕ → String) → ExampleAgent → String × ExampleAgent
new_session int_str self =
    let session_id = int_str self.next_session_id in
    (
      session_id,
      add_session session_id (record self { next_session_id = suc self.next_session_id }),
    )

unfoldable pub load_session : String → ExampleAgent → ExampleAgent
load_session session_id self = add_session session_id self

-- The content of a message: an update, or a block that is to be one.
pub data AgentContent : Type 0 where
  an_update : AgentMessageChunk → AgentContent
  a_block : ContentBlock → AgentContent

module _ {W : Type 0}
    (session_update : String → SessionUpdate → W → Result Exn (Unit {0}) × W) where
  -- `_send_agent_message`
  unfoldable pub send_agent_message : String → AgentContent → W → Result Exn (Unit {0}) × W
  unfolding update_agent_message
  send_agent_message session_id (an_update chunk) w =
      session_update session_id (agent_message_chunk chunk) w
  send_agent_message session_id (a_block content) w =
      session_update session_id (update_agent_message content) w

  -- `for block in prompt`: an exception ends it.
  unfoldable pub send_blocks : String → List ContentBlock → W → Result Exn (Unit {0}) × W
  unfolding send_agent_message
  send_blocks session_id [] w = (ok tt, w)
  send_blocks session_id (content ∷ rest) w =
      let (sent, w1) = send_agent_message session_id (a_block content) w in
      let later = send_blocks session_id rest w1 in elim sent [ err e ↦ (err e, w1) | ok _ ↦ later ]

  -- The stop reason, beside the agent and the world.
  unfoldable pub prompt :
      List ContentBlock → String → ExampleAgent → W → Result Exn String × ExampleAgent × W
  unfolding send_agent_message send_blocks text_block
  prompt blocks session_id self w =
      let self1 = if contains self.sessions session_id then self else add_session session_id self in
      let (sent, w1) = send_agent_message session_id (a_block (text_block "Client sent:")) w in
      let (echoed, w2) = send_blocks session_id blocks w1 in
      elim sent [
        | err e ↦ (err e, self1, w1)
        | ok _ ↦ elim echoed [ err e ↦ (err e, self1, w2) | ok _ ↦ (ok "end_turn", self1, w2) ]
      ]
