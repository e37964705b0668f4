-- ===== src/Session/Subscribers.antt =====
-- Who is called, in which order, and what an `unsubscribe` undoes.
use mathlib.Core.List.{append_assoc, append-nil}
use agent_client_protocol_py.Base.{
  ◌≡◌, nat_eq, ℕ, List, [], ◌∷◌, ◌++◌, map, Result, ok, err, if◌then◌else◌, arith, contains, Bool,
  false, ◌||◌,
}
use agent_client_protocol_py.Base.Lists.{remove}
use agent_client_protocol_py.Schema.{SessionNotification}
use agent_client_protocol_py.Session.Receive.{Callbacks}
use agent_client_protocol_py.Session.Accumulator.{
  SessionAccumulator, SessionSnapshot, SessionError, callback_error, notify_all, notify_subscribers,
  subscribe, unsubscribe,
}

-- A world that records every call; the callbacks in `raises` record theirs and raise.
abbrev pub Log : Type 0
Log = List (ℕ × SessionSnapshot × SessionNotification)

abbrev pub logger : (ℕ → Bool) → Callbacks Log
logger raises c snap n (s, log) =
    (if raises c then err (callback_error "raised") else ok tt, (s, log ++ ((c, snap, n) ∷ [])))

-- The callbacks up to the first that raises, which is the last to be called.
abbrev pub reached : (ℕ → Bool) → List ℕ → List ℕ
reached raises [] = []
reached raises (c ∷ cs) = c ∷ (if raises c then [] else reached raises cs)

abbrev pub some_raises : (ℕ → Bool) → List ℕ → Bool
some_raises raises [] = false
some_raises raises (c ∷ cs) = raises c || some_raises raises cs

module _ (raises : ℕ → Bool) (snap : SessionSnapshot) (n : SessionNotification) where
  abbrev pub calls : List ℕ → Log
  calls = map (λ c. (c, snap, n))

  abbrev pub outcome : List ℕ → Result SessionError SessionSnapshot
  outcome cs = if some_raises raises cs then err (callback_error "raised") else ok snap

  notify_all-logger :
      (cs : List ℕ) (s : SessionAccumulator) (log : Log)
      → notify_all (logger raises) cs snap n (s, log)
        ≡ (outcome cs, (s, log ++ calls (reached raises cs)))
  unfolding notify_all
  notify_all-logger [] s log = rw append-nil
  notify_all-logger (c ∷ cs) s log = ground (
    arith,
    notify_all-logger cs s (log ++ ((c, snap, n) ∷ [])),
    append_assoc log ((c, snap, n) ∷ []) (calls (reached raises cs)),
  )

  -- The subscribers are called in the order of subscription, each once with the same snapshot
  -- and notification, up to the first that raises; its exception is the outcome.
  pub notify_subscribers-logger :
      (s : SessionAccumulator) (log : Log)
      → notify_subscribers (logger raises) snap n (s, log)
        ≡ (outcome s.subscribers, (s, log ++ calls (reached raises s.subscribers)))
  unfolding notify_subscribers
  notify_subscribers-logger s log = notify_all-logger s.subscribers s log

remove-append :
    (c : ℕ) (cs : List ℕ)
    → remove c (cs ++ (c ∷ [])) ≡ (if contains cs c then remove c cs ++ (c ∷ []) else cs)
unfolding remove
remove-append c [] = ground arith
remove-append c (x ∷ cs) = ground (arith, remove-append c cs)

-- Subscribing and then unsubscribing gives the old subscribers back, unless the callback was
-- subscribed before: then its earliest subscription is the one that goes, and the new one stays
-- at the end.
pub unsubscribe-subscribe :
    (c : ℕ) (s : SessionAccumulator)
    → (unsubscribe c (subscribe c s)).subscribers
      ≡ (if contains s.subscribers c then remove c s.subscribers ++ (c ∷ []) else s.subscribers)
unfolding subscribe unsubscribe
unsubscribe-subscribe c s = remove-append c s.subscribers
