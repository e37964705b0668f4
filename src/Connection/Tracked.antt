-- ===== src/Connection/Tracked.antt =====
-- Over any interleaving of its steps a connection can find every future that is not done.
use agent_client_protocol_py.Base.{
  ◌≡◌, refl, subst, inl, inr, ℕ, ◌+◌, ◌<◌, String, true, Option, none, some, Json, ok, arith,
  nat_eq,
}
use agent_client_protocol_py.Base.Dict.{lookup, lookup-insert_inv, lookup-erase_inv}
use agent_client_protocol_py.Base.Lists.{eq-none}
use agent_client_protocol_py.Exceptions.{Exn}
use agent_client_protocol_py.Store.{
  Future, abandoned, is_done, OutgoingMessage, MessageStateStore, register_outgoing, pop_and_settle,
  settle_outgoing, reject_all_outgoing, abandon,
}
use agent_client_protocol_py.Store.Pending.{
  IsTracked, register-IsTracked, settle_outgoing-IsTracked, settle_unresolved, reject_all_settles,
}
use agent_client_protocol_py.Store.Settled.{settle_outgoing_inv}

-- The store's futures can be found, under ids that have been drawn.
pub record IsLive (next_request_id : ℕ) (s : MessageStateStore) : Type 0 where
  pub tracked : IsTracked s
  pub below : (id : ℕ) (m : OutgoingMessage) → lookup id s.outgoing ≡ some m → id < next_request_id

pop_and_settle-below :
    (n k : ℕ) (value : Future) (s : MessageStateStore) (id : ℕ) (m : OutgoingMessage)
    → ((id : ℕ) (m : OutgoingMessage) → lookup id s.outgoing ≡ some m → id < n)
    → lookup id (pop_and_settle k value s).outgoing ≡ some m
    → id < n
unfolding pop_and_settle
pop_and_settle-below n k value s id m h found = go (lookup k s.outgoing) refl found
  where
    go :
        (o : Option OutgoingMessage)
        → lookup k s.outgoing ≡ o
        → lookup id (pop_and_settle k value s).outgoing ≡ some m
        → id < n
    go none e f = h id m (rw (e, pop_and_settle) at f)
    go (some old) e f = h id m (lookup-erase_inv id k s.outgoing (rw (e, pop_and_settle) at f)).1

pub settle_outgoing-IsLive :
    (n : ℕ) (id : Json) (value : Future) (s t : MessageStateStore)
    → is_done value ≡ true
    → settle_outgoing id value s ≡ ok t
    → IsLive n s
    → IsLive n t
settle_outgoing-IsLive n id value s t d e h = record {
  tracked = settle_outgoing-IsTracked id value s t d e h.tracked;
  below = λ j m found. elim (settle_outgoing_inv id value s t e) [
    | inl same ↦ h.below j m (subst (λ u. lookup j u.outgoing ≡ some m) same found)
    | inr popped ↦
        pop_and_settle-below n popped.0 value s j m h.below
          (subst (λ u. lookup j u.outgoing ≡ some m) popped.2 found)
  ];
}

pub register-IsLive :
    (n : ℕ) (method : String) (s : MessageStateStore)
    → IsLive n s
    → IsLive (n + 1) (register_outgoing n method s).1
register-IsLive n method s h = record {
  tracked =
      register-IsTracked n method s
        (eq-none _ (λ m found. let bad = h.below n m found in omega arith)) h.tracked;
  below =
      unfold register_outgoing in
      λ j m found. elim (lookup-insert_inv j n _ s.outgoing found) [
        | inl (at, own) ↦ omega arith
        | inr (off, old) ↦ omega (arith, h.below j m old)
      ];
}

pub reject_all-IsLive :
    (n : ℕ) (error : Exn) (s : MessageStateStore)
    → IsLive n s
    → IsLive n (reject_all_outgoing error s)
reject_all-IsLive n error s h = record {
  tracked = record {
    entry = λ f pending. absurd ((reject_all_settles error s f h.tracked).0 pending);
  };
  below = λ id m found. unfold reject_all_outgoing lookup in cc found;
}

-- A caller that is cancelled leaves its entry behind.
pub abandon-IsLive : (n f : ℕ) (s : MessageStateStore) → IsLive n s → IsLive n (abandon f s)
unfolding abandon
abandon-IsLive n f s h = record {
  tracked = record {
    entry =
        λ g pending. h.tracked.entry g (settle_unresolved f abandoned s.futures g refl pending).0;
  };
  below = h.below;
}

-- What the store keeps of the incoming requests is of no account here.
pub incoming-IsLive :
    (n : ℕ) (s t : MessageStateStore)
    → t.futures ≡ s.futures
    → t.outgoing ≡ s.outgoing
    → IsLive n s
    → IsLive n t
incoming-IsLive n s t fs os h = record {
  tracked = record {
    entry = λ f pending.
        let (id, m, found, own) = h.tracked.entry f (rw fs at pending) in (id, m, rw os found, own);
  };
  below = λ id m found. h.below id m (rw os at found);
}
