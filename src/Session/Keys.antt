-- ===== src/Session/Keys.antt =====
-- The tool calls are filed under their own ids, each once.
use mathlib.Core.Option.{get_or}
use agent_client_protocol_py.Base.{
  ℕ, ◌≡◌, refl, ◌⊎◌, inl, inr, string_eq, String, none, some, List, [], ◌∷◌, Result, Result-branch,
  ok, err, arith,
}
use agent_client_protocol_py.Base.Dict.{Dict, lookup, insert, lookup-insert}
use agent_client_protocol_py.Schema.{
  SessionUpdate, SessionNotification, tool_call, tool_call_update,
}
use agent_client_protocol_py.Session.Calls.{
  MutableToolCallState, new_state, apply_start, apply_progress,
}
use agent_client_protocol_py.Session.Receive.{Callbacks}
use agent_client_protocol_py.Session.Accumulator.{
  SessionAccumulator, SessionSnapshot, SessionError, apply_update, snapshot, notify_all,
  notify_subscribers, apply, ensure_session,
}

-- Every call is filed under its own id, and no id twice.
abbrev pub IsFiled : Dict String MutableToolCallState → Type 0
IsFiled [] = Unit
IsFiled ((k, s) ∷ d) = (s.tool_call_id ≡ k) × (lookup k d ≡ none) × IsFiled d

insert-IsFiled :
    (k : String) (s : MutableToolCallState) (d : Dict String MutableToolCallState)
    → s.tool_call_id ≡ k
    → IsFiled d
    → IsFiled (insert k s d)
unfolding insert lookup
insert-IsFiled k s [] own h = (own, refl, tt)
insert-IsFiled k s ((j, t) ∷ d) own h =
    ground (arith, insert-IsFiled k s d own h.2, lookup-insert j k s d)

pub lookup-IsFiled :
    (k : String) (s : MutableToolCallState) (d : Dict String MutableToolCallState)
    → IsFiled d
    → lookup k d ≡ some s
    → s.tool_call_id ≡ k
unfolding lookup
lookup-IsFiled k s [] h found = cc
lookup-IsFiled k s ((j, t) ∷ d) h found = ground (arith, lookup-IsFiled k s d h.2)

pub call_of-tool_call_id :
    (k : String) (d : Dict String MutableToolCallState)
    → IsFiled d
    → (get_or (lookup k d) (new_state k)).tool_call_id ≡ k
unfolding lookup
call_of-tool_call_id k [] h = refl
call_of-tool_call_id k ((j, t) ∷ d) h = ground (arith, call_of-tool_call_id k d h.2)

pub apply_update-IsFiled :
    (u : SessionUpdate) (s : SessionAccumulator)
    → IsFiled s.tool_calls
    → IsFiled (apply_update u s).tool_calls
unfolding apply_update apply_start apply_progress
apply_update-IsFiled (tool_call u) s h =
    insert-IsFiled u.tool_call_id _ s.tool_calls
      (call_of-tool_call_id u.tool_call_id s.tool_calls h) h
apply_update-IsFiled (tool_call_update u) s h =
    insert-IsFiled u.tool_call_id _ s.tool_calls
      (call_of-tool_call_id u.tool_call_id s.tool_calls h) h
apply_update-IsFiled _ s h = h

-- The session change keeps the calls or drops them all.
ensure_session-tool_calls :
    (n : SessionNotification) (s t : SessionAccumulator)
    → ensure_session n s ≡ ok t
    → (t.tool_calls ≡ s.tool_calls) ⊎ (t.tool_calls ≡ [])
unfolding ensure_session
ensure_session-tool_calls n s t e = ground arith

ensure_session-IsFiled :
    (n : SessionNotification) (s t : SessionAccumulator)
    → ensure_session n s ≡ ok t
    → IsFiled s.tool_calls
    → IsFiled t.tool_calls
ensure_session-IsFiled n s t e h = elim (ensure_session-tool_calls n s t e) [
  | inl kept ↦ rw kept h
  | inr dropped ↦ rw dropped tt
]

-- What the callbacks do to the accumulator keeps the calls filed.
abbrev pub KeepsFiled : {W : Type 0} → Callbacks W → Type 0
KeepsFiled {W} call =
    (callback : ℕ) (snap : SessionSnapshot) (n : SessionNotification) (st : SessionAccumulator × W)
    → IsFiled st.0.tool_calls
    → IsFiled (call callback snap n st).1.0.tool_calls

module _ {W : Type 0} (call : Callbacks W) (keeps : KeepsFiled call) where
  abbrev Outcome : Type 0
  Outcome = Result SessionError SessionSnapshot × (SessionAccumulator × W)

  notify_all-IsFiled :
      (callbacks : List ℕ) (snap : SessionSnapshot) (n : SessionNotification)
      (st : SessionAccumulator × W)
      → IsFiled st.0.tool_calls
      → IsFiled (notify_all call callbacks snap n st).1.0.tool_calls
  unfolding notify_all
  notify_all-IsFiled [] snap n st h = h
  notify_all-IsFiled (c ∷ rest) snap n st h =
      let st' = (call c snap n st).1 in
      Result-branch (λ (out : Outcome). IsFiled out.1.0.tool_calls) (call c snap n st).0
        (λ _. notify_all call rest snap n st') (λ e. (err e, st'))
        (λ _ _. notify_all-IsFiled rest snap n st' (keeps c snap n st h))
        (λ _ _. keeps c snap n st h)

  -- Whatever `apply` returns or raises, the calls stay filed under their own ids, each once, if
  -- the callbacks keep them so.
  pub apply-IsFiled :
      (n : SessionNotification) (s : SessionAccumulator) (w : W)
      → IsFiled s.tool_calls
      → IsFiled (apply call n (s, w)).1.0.tool_calls
  unfolding apply notify_subscribers
  apply-IsFiled n s w h =
      Result-branch (λ (out : Outcome). IsFiled out.1.0.tool_calls) (ensure_session n s) _ _
        (λ t e.
          let u = apply_update n.update t in
          let filed = apply_update-IsFiled n.update t (ensure_session-IsFiled n s t e h) in
          Result-branch (λ (out : Outcome). IsFiled out.1.0.tool_calls) (snapshot u) _ _
            (λ snap _. notify_all-IsFiled u.subscribers snap n (u, w) filed) (λ _ _. filed))
        (λ _ _. h)
