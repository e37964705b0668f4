-- ===== src/Session/Receive.antt =====
-- `apply` as a client sees it, with callbacks that leave the accumulator alone.
use agent_client_protocol_py.Base.{
  ◌≡◌, refl, ◌∙◌, subst, ◌==◌, string_eq, ℕ, String, none, some, List, [], ◌∷◌, map, Result, ok,
  if◌then◌else◌, arith, ◌⊎◌, true,
}
use agent_client_protocol_py.Base.Dict.{map_values}
use agent_client_protocol_py.Base.Lists.{All}
use agent_client_protocol_py.Schema.{SessionNotification}
use agent_client_protocol_py.Session.Calls.{call_view}
use agent_client_protocol_py.Base.Models.{map-model_copy}
use agent_client_protocol_py.Session.History.{IsHistory, IsHistory-nil, IsHistory-cons, rest_step}
use agent_client_protocol_py.Session.Accumulator.{
  SessionAccumulator, SessionSnapshot, SessionError, new_accumulator, apply_update, snapshot,
  ensure_session, notify_all, notify_subscribers, apply,
}

abbrev pub Callbacks : Type 0 → Type 0
Callbacks W =
    ℕ
    → SessionSnapshot
    → SessionNotification
    → SessionAccumulator × W
    → Result SessionError (Unit {0}) × (SessionAccumulator × W)

-- The callbacks do not write to the accumulator that calls them. They may raise.
pub record IsQuiet {W : Type 0} (call : Callbacks W) : Type 0 where
  pub at :
      (callback : ℕ) (snap : SessionSnapshot) (n : SessionNotification)
      (st : SessionAccumulator × W)
      → (call callback snap n st).1.0 ≡ st.0

-- The snapshot of a state with a session.
abbrev pub snapshot_of : String → SessionAccumulator → SessionSnapshot
snapshot_of session_id s = record {
  session_id = session_id;
  tool_calls = map_values call_view s.tool_calls;
  plan_entries = s.plan_entries;
  current_mode_id = s.current_mode_id;
  available_commands = s.available_commands;
  user_messages = s.user_messages;
  agent_messages = s.agent_messages;
  agent_thoughts = s.agent_thoughts;
}

pub snapshot-snapshot_of :
    (sid : String) (s : SessionAccumulator)
    → s.session_id ≡ some sid
    → snapshot s ≡ ok (snapshot_of sid s)
snapshot-snapshot_of sid s h = rw h (unfold snapshot in simp map-model_copy)

-- The session `sid` can go on or begin: it is the current one, there is none, or a change of
-- session resets.
abbrev pub Accepts : String → SessionAccumulator → Type 0
Accepts sid s = (s.auto_reset ≡ true) ⊎ (s.session_id ≡ none) ⊎ (s.session_id ≡ some sid)

-- The state in which the updates of session `sid` begin.
abbrev pub started : String → SessionAccumulator → SessionAccumulator
started sid s = elim s.session_id [
  | none ↦ record s { session_id = some sid }
  | some current ↦
      if sid == current
      then record s { session_id = some sid }
      else record (new_accumulator s.auto_reset) {
        session_id = some sid;
        subscribers = s.subscribers;
      }
]

pub ensure_session-started :
    (n : SessionNotification) (s : SessionAccumulator)
    → Accepts n.session_id s
    → ensure_session n s ≡ ok (started n.session_id s)
unfolding ensure_session
ensure_session-started n s h = ground arith

pub session_id-started :
    (sid : String) (s : SessionAccumulator) → (started sid s).session_id ≡ some sid
session_id-started sid s = ground arith

pub started_same :
    (sid : String) (s : SessionAccumulator) → s.session_id ≡ some sid → started sid s ≡ s
started_same sid s h = ground arith

ensure_session_same :
    (sid : String) (n : SessionNotification) (s : SessionAccumulator)
    → n.session_id ≡ sid
    → s.session_id ≡ some sid
    → ensure_session n s ≡ ok s
unfolding ensure_session
ensure_session_same sid n s e h = ground arith

module _ {W : Type 0} (call : Callbacks W) (q : IsQuiet call) where
  notify_all-quiet :
      (callbacks : List ℕ) (snap : SessionSnapshot) (n : SessionNotification)
      (st : SessionAccumulator × W)
      → (notify_all call callbacks snap n st).1.0 ≡ st.0
  unfolding notify_all
  notify_all-quiet [] snap n st = refl
  notify_all-quiet (c ∷ rest) snap n st =
      ground (arith, q.at c snap n st, notify_all-quiet rest snap n (call c snap n st).1)

  notify_subscribers-quiet :
      (snap : SessionSnapshot) (n : SessionNotification) (s : SessionAccumulator) (w : W)
      → (notify_subscribers call snap n (s, w)).1.0 ≡ s
  unfolding notify_subscribers
  notify_subscribers-quiet snap n s w = notify_all-quiet s.subscribers snap n (s, w)

  -- Once the session is settled, the state is that after the update, whatever a callback raises.
  apply-eq-apply_update :
      (n : SessionNotification) (s t : SessionAccumulator) (w : W)
      → ensure_session n s ≡ ok t
      → (apply call n (s, w)).1.0 ≡ apply_update n.update t
  unfolding apply
  apply-eq-apply_update n s t w e = grind (arith, e, notify_subscribers-quiet)

  -- The client's loop: one `apply` to a notification, the results and exceptions dropped.
  abbrev pub receive : List SessionNotification → SessionAccumulator × W → SessionAccumulator × W
  receive [] st = st
  receive (n ∷ ns) st = receive ns (apply call n st).1

  apply-eq-apply_update-started :
      (n : SessionNotification) (s : SessionAccumulator) (w : W)
      → Accepts n.session_id s
      → (apply call n (s, w)).1.0 ≡ apply_update n.update (started n.session_id s)
  apply-eq-apply_update-started n s w a =
      apply-eq-apply_update n s _ w (ensure_session-started n s a)

  receive-IsHistory_same :
      (sid : String) (ns : List SessionNotification) (st : SessionAccumulator × W)
      → All (λ n. n.session_id ≡ sid) ns
      → st.0.session_id ≡ some sid
      → IsHistory st.0 (map (λ n. n.update) ns) (receive ns st).0
  receive-IsHistory_same sid [] st all h = IsHistory-nil st.0
  receive-IsHistory_same sid (n ∷ ns) st all h =
      let e = apply-eq-apply_update n st.0 st.0 st.1 (ensure_session_same sid n st.0 all.0 h) in
      let us = map (λ (m : SessionNotification). m.update) ns in
      let st' = (apply call n st).1 in
      let h' : st'.0.session_id ≡ some sid = rw e (rest_step st.0 n.update).1 ∙ h in
      IsHistory-cons n.update us st.0 _ (
        subst (λ x. IsHistory x us (receive ns st').0) e
          (receive-IsHistory_same sid ns st' all.1 h'))

  -- After any run of notifications of one session that the accumulator accepts, with callbacks
  -- that do not write to the accumulator, the state is the history of their updates.
  pub receive-IsHistory :
      (n : SessionNotification) (ns : List SessionNotification) (s : SessionAccumulator) (w : W)
      → Accepts n.session_id s
      → All (λ m. m.session_id ≡ n.session_id) ns
      → IsHistory
          (started n.session_id s)
          (map (λ m. m.update) (n ∷ ns))
          (receive (n ∷ ns) (s, w)).0
  receive-IsHistory n ns s w a all =
      let sid = n.session_id in
      let e = apply-eq-apply_update-started n s w a in
      let us = map (λ (m : SessionNotification). m.update) ns in
      let st' = (apply call n (s, w)).1 in
      let h' : st'.0.session_id ≡ some sid =
        rw e (rest_step (started sid s) n.update).1 ∙ session_id-started sid s in
      IsHistory-cons n.update us (started sid s) _ (
        subst (λ x. IsHistory x us (receive ns st').0) e (receive-IsHistory_same sid ns st' all h'))
