-- ===== src/Session/Change.antt =====
-- What one `apply` returns, on each of its branches.
use agent_client_protocol_py.Base.{
  ◌≡◌, ◌≢◌, refl, ◌∙◌, string_eq, ℕ, String, some, List, [], ◌∷◌, ok, err, arith, false,
}
use agent_client_protocol_py.Schema.{SessionNotification}
use agent_client_protocol_py.Session.History.{rest_step}
use agent_client_protocol_py.Session.Receive.{
  Callbacks, Accepts, started, snapshot_of, snapshot-snapshot_of, ensure_session-started,
  session_id-started,
}
use agent_client_protocol_py.Session.Accumulator.{
  SessionAccumulator, SessionSnapshot, session_notification_mismatch_error, apply_update, snapshot,
  ensure_session, notify_all, notify_subscribers, apply,
}

-- A refused notification.
ensure_session_refused :
    (current : String) (n : SessionNotification) (s : SessionAccumulator)
    → s.auto_reset ≡ false
    → s.session_id ≡ some current
    → n.session_id ≢ current
    → ensure_session n s ≡ err (session_notification_mismatch_error current n.session_id)
unfolding ensure_session
ensure_session_refused current n s off h ne = ground arith

module _ {W : Type 0} (call : Callbacks W) where
  -- Without automatic reset a notification of another session raises the mismatch error that
  -- names both sessions; the state and the world stay as they were, so no callback has run.
  pub apply_refused :
      (current : String) (n : SessionNotification) (s : SessionAccumulator) (w : W)
      → s.auto_reset ≡ false
      → s.session_id ≡ some current
      → n.session_id ≢ current
      → apply call n (s, w)
        ≡ (err (session_notification_mismatch_error current n.session_id), (s, w))
  unfolding apply
  apply_refused current n s w off h ne = rw (ensure_session_refused current n s off h ne, apply)

  -- No callback raises.
  abbrev pub NeverRaises : Type 0
  NeverRaises =
      (callback : ℕ) (snap : SessionSnapshot) (n : SessionNotification)
      (st : SessionAccumulator × W)
      → (call callback snap n st).0 ≡ ok tt

  notify_all-ok :
      NeverRaises
      → (callbacks : List ℕ) (snap : SessionSnapshot) (n : SessionNotification)
        (st : SessionAccumulator × W)
      → (notify_all call callbacks snap n st).0 ≡ ok snap
  unfolding notify_all
  notify_all-ok nr [] snap n st = refl
  notify_all-ok nr (c ∷ rest) snap n st =
      ground (arith, nr c snap n st, notify_all-ok nr rest snap n (call c snap n st).1)

  snapshot-apply_update-started :
      (n : SessionNotification) (s : SessionAccumulator)
      → snapshot (apply_update n.update (started n.session_id s))
        ≡ ok (snapshot_of n.session_id (apply_update n.update (started n.session_id s)))
  snapshot-apply_update-started n s =
      snapshot-snapshot_of n.session_id _
        ((rest_step (started n.session_id s) n.update).1 ∙ session_id-started n.session_id s)

  -- If no callback raises, a notification that is accepted is answered with the snapshot of the state that its update
  -- leaves, which carries its session id.
  pub apply_accepted :
      NeverRaises
      → (n : SessionNotification) (s : SessionAccumulator) (w : W) → Accepts n.session_id s
      → (apply call n (s, w)).0
        ≡ ok (snapshot_of n.session_id (apply_update n.update (started n.session_id s)))
  unfolding apply notify_subscribers
  apply_accepted nr n s w a =
      rw (ensure_session-started n s a, snapshot-apply_update-started n s, apply)
        (notify_all-ok nr _ _ n _)
