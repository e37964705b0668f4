-- ===== src/Examples/Echo.antt =====
-- A prompt of the example agent, as a client sees it that keeps the session.
use mathlib.Core.List.{append_assoc, append-nil}
use agent_client_protocol_py.Base.{
  ◌≡◌, refl, ap, ◌∙◌, String, string_eq, contains, true, Bool-cases, inl, inr, none, List, [], ◌∷◌,
  ◌++◌, map, Result, ok, if◌then◌else◌, arith,
}
use agent_client_protocol_py.Base.Lists.{All, pair}
use agent_client_protocol_py.Exceptions.{Exn}
use agent_client_protocol_py.Schema.{ContentBlock, ContentChunk, SessionUpdate, SessionNotification}
use agent_client_protocol_py.Helpers.{text_block, update_agent_message}
use agent_client_protocol_py.Session.{SessionAccumulator}
use agent_client_protocol_py.Session.History.{collect, agent_of, user_of, thought_of}
use agent_client_protocol_py.Session.Receive.{
  Callbacks, IsQuiet, Accepts, started, receive, receive-IsHistory,
}
use agent_client_protocol_py.Examples.Agent.{
  ExampleAgent, send_agent_message, send_blocks, prompt, add_session,
}

-- A client that lists what it gets.
abbrev pub listing :
    String
    → SessionUpdate
    → List SessionNotification
    → Result Exn (Unit {0}) × List SessionNotification
listing session_id update seen =
    (ok tt, seen ++ (record { field_meta = none; session_id = session_id; update = update } ∷ []))

abbrev pub note_of : String → ContentBlock → SessionNotification
note_of session_id content = record {
  field_meta = none;
  session_id = session_id;
  update = update_agent_message content;
}

send_blocks-listing :
    (session_id : String) (blocks : List ContentBlock) (seen : List SessionNotification)
    → send_blocks listing session_id blocks seen ≡ (ok tt, seen ++ map (note_of session_id) blocks)
unfolding send_blocks send_agent_message
send_blocks-listing session_id [] seen = rw append-nil
send_blocks-listing session_id (content ∷ rest) seen =
    rw (send_blocks-listing session_id rest, append_assoc)

abbrev echo_of : List ContentBlock → List ContentBlock
echo_of blocks = text_block "Client sent:" ∷ blocks

abbrev pub chunk_of : ContentBlock → ContentChunk
chunk_of content = record { field_meta = none; content = content }

contains-append_last : (xs : List String) (x : String) → contains (xs ++ (x ∷ [])) x ≡ true
contains-append_last [] x = ground arith
contains-append_last (y ∷ ys) x = ground (arith, contains-append_last ys x)

abbrev kept : String → ExampleAgent → ExampleAgent
kept session_id self =
    if contains self.sessions session_id then self else add_session session_id self

kept-contains :
    (session_id : String) (self : ExampleAgent)
    → contains (kept session_id self).sessions session_id ≡ true
kept-contains session_id self = elim (Bool-cases (contains self.sessions session_id)) [
  | inl old ↦ rw (old, old) refl
  | inr new ↦ rw new (contains-append_last self.sessions session_id)
]

prompt-listing :
    (session_id : String) (blocks : List ContentBlock) (self : ExampleAgent)
    (seen : List SessionNotification)
    → prompt listing blocks session_id self seen
      ≡ (ok "end_turn", kept session_id self, seen ++ map (note_of session_id) (echo_of blocks))
unfolding prompt send_agent_message
prompt-listing session_id blocks self seen = rw (
  prompt,
  send_blocks-listing session_id blocks,
  send_blocks-listing session_id blocks,
  send_agent_message,
  append_assoc,
)

notes-All :
    (session_id : String) (blocks : List ContentBlock)
    → All (λ (m : SessionNotification). m.session_id ≡ session_id) (map (note_of session_id) blocks)
notes-All session_id [] = tt
notes-All session_id (content ∷ rest) = pair refl (notes-All session_id rest)

collect-notes :
    (session_id : String) (blocks : List ContentBlock)
    → (collect agent_of
          (map (λ (m : SessionNotification). m.update) (map (note_of session_id) blocks))
        ≡ map chunk_of blocks)
      × (collect user_of
            (map (λ (m : SessionNotification). m.update) (map (note_of session_id) blocks))
          ≡ [])
      × (collect thought_of
            (map (λ (m : SessionNotification). m.update) (map (note_of session_id) blocks))
          ≡ [])
unfolding update_agent_message
collect-notes session_id [] = (refl, refl, refl)
collect-notes session_id (content ∷ rest) =
    let (agents, users, thoughts) = collect-notes session_id rest in
    (ap (λ cs. chunk_of content ∷ cs) agents, users, thoughts)

-- A prompt of the example agent ends its turn and keeps the session. A client gives what it gets to
-- an accumulator whose callbacks do not write to it and that accepts the session: it resets
-- by itself, has no session yet, or has this one. It then has as the agent's further messages the
-- text "Client sent:" and the blocks of the prompt, in order, and no other message.
pub prompt-receive :
    {W : Type 0} (call : Callbacks W) (session_id : String) (blocks : List ContentBlock)
    (self : ExampleAgent) (s : SessionAccumulator) (w : W) (quiet : IsQuiet call)
    → Accepts session_id s
    → ((prompt listing blocks session_id self []).0 ≡ ok "end_turn")
      × (contains (prompt listing blocks session_id self []).1.sessions session_id ≡ true)
      × ((receive call quiet (prompt listing blocks session_id self []).2 (s, w)).0.agent_messages
          ≡ (started session_id s).agent_messages
            ++ map chunk_of (text_block "Client sent:" ∷ blocks))
      × ((receive call quiet (prompt listing blocks session_id self []).2 (s, w)).0.user_messages
          ≡ (started session_id s).user_messages)
      × ((receive call quiet (prompt listing blocks session_id self []).2 (s, w)).0.agent_thoughts
          ≡ (started session_id s).agent_thoughts)
prompt-receive call session_id blocks self s w quiet accepts =
    let sends = prompt-listing session_id blocks self [] in
    let history =
      receive-IsHistory call quiet (note_of session_id (text_block "Client sent:"))
        (map (note_of session_id) blocks) s w accepts (notes-All session_id blocks) in
    let (agents, users, thoughts) = collect-notes session_id (echo_of blocks) in
    rw sends (
      refl,
      kept-contains session_id self,
      history.agent_messages ∙ ap (λ cs. (started session_id s).agent_messages ++ cs) agents,
      history.user_messages
          ∙ ap (λ cs. (started session_id s).user_messages ++ cs) users
          ∙ append-nil _,
      history.agent_thoughts
          ∙ ap (λ cs. (started session_id s).agent_thoughts ++ cs) thoughts
          ∙ append-nil _,
    )
