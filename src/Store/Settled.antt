-- ===== src/Store/Settled.antt =====
-- A future is settled at most once.
use agent_client_protocol_py.Base.{
  ◌≡◌, ◌≢◌, refl, ◌⊎◌, inl, inr, ℕ, nat_eq, String, true, Option, none, some, List, [], ◌∷◌, Json,
  ok, arith, Value,
}
use agent_client_protocol_py.Base.Dict.{lookup, values}
use agent_client_protocol_py.Base.Lists.{
  get_elem?, get_elem?-set_ne, get_elem?-set_self, get_elem?-append_left,
}
use agent_client_protocol_py.Exceptions.{Exn}
use agent_client_protocol_py.Store.State.{
  Future, unresolved, resolved, rejected, abandoned, is_done, OutgoingMessage, MessageStateStore,
  settle, key_of, register_outgoing, pop_and_settle, settle_outgoing, resolve_outgoing,
  reject_outgoing, reject_each, reject_all_outgoing, begin_incoming, complete_incoming,
  fail_incoming, abandon, Key, key, no_such_key, unhashable,
}

pub settle_done :
    (f : ℕ) (value : Future) (fs : List Future) (g : ℕ) (v : Future)
    → get_elem? fs g ≡ some v
    → is_done v ≡ true
    → get_elem? (settle f value fs) g ≡ some v
unfolding settle
settle_done f value fs g v h d = ground (arith, get_elem?-set_ne fs f g value)

pub settle_pending :
    (f : ℕ) (value : Future) (fs : List Future)
    → get_elem? fs f ≡ some unresolved
    → get_elem? (settle f value fs) f ≡ some value
unfolding settle
settle_pending f value fs h = ground (arith, get_elem?-set_self fs f {v = value} h)

pub settle_other :
    (f : ℕ) (value : Future) (fs : List Future) (g : ℕ)
    → f ≢ g
    → get_elem? (settle f value fs) g ≡ get_elem? fs g
unfolding settle
settle_other f value fs g ne = ground (arith, get_elem?-set_ne fs f g value)

-- One operation of the store; a failed one changes nothing. The last is the waiting caller's.
pub data Step (s : MessageStateStore) : MessageStateStore → Type 0 where
  register : (id : ℕ) (method : String) → Step s (register_outgoing id method s).1
  resolve :
      (id result : Json) {t : MessageStateStore} → resolve_outgoing id result s ≡ ok t → Step s t
  reject :
      (id : Json) (error : Exn) {t : MessageStateStore}
      → reject_outgoing id error s ≡ ok t
      → Step s t
  reject_all : (error : Exn) → Step s (reject_all_outgoing error s)
  begin : (method params : Json) → Step s (begin_incoming method params s).1
  complete : (i : ℕ) (result : Value) → Step s (complete_incoming i result s)
  fail : (i : ℕ) (error : Exn) → Step s (fail_incoming i error s)
  cancel : (f : ℕ) → Step s (abandon f s)

pub data Reach (s : MessageStateStore) : MessageStateStore → Type 0 where
  here : Reach s s
  next : {t u : MessageStateStore} → Reach s t → Step t u → Reach s u

pub reject_each_done :
    (ms : List OutgoingMessage) (error : Exn) (fs : List Future) (g : ℕ) (v : Future)
    → get_elem? fs g ≡ some v
    → is_done v ≡ true
    → get_elem? (reject_each ms error fs) g ≡ some v
unfolding reject_each
reject_each_done [] error fs g v h d = h
reject_each_done (m ∷ ms) error fs g v h d =
    reject_each_done ms error _ g v (settle_done m.future (rejected error) fs g v h d) d

pop_and_settle_done :
    (id : ℕ) (value : Future) (s : MessageStateStore) (g : ℕ) (v : Future)
    → get_elem? s.futures g ≡ some v
    → is_done v ≡ true
    → get_elem? (pop_and_settle id value s).futures g ≡ some v
unfolding pop_and_settle
pop_and_settle_done id value s g v h d = go (lookup id s.outgoing) refl
  where
    go :
        (o : Option OutgoingMessage)
        → lookup id s.outgoing ≡ o
        → get_elem? (pop_and_settle id value s).futures g ≡ some v
    go none e = rw (e, pop_and_settle) h
    go (some m) e = rw (e, pop_and_settle) (settle_done m.future value s.futures g v h d)

-- A message about a request pops the entry of its key, or finds none and changes nothing.
pub settle_outgoing_inv :
    (id : Json) (value : Future) (s t : MessageStateStore)
    → settle_outgoing id value s ≡ ok t
    → (t ≡ s) ⊎ ((k : ℕ) × (key_of id ≡ key k) × (t ≡ pop_and_settle k value s))
settle_outgoing_inv id value s t h = go (key_of id) refl
  where
    go :
        (k : Key)
        → key_of id ≡ k
        → (t ≡ s) ⊎ ((k : ℕ) × (key_of id ≡ key k) × (t ≡ pop_and_settle k value s))
    go (key k) e = unfold settle_outgoing in inr (k, e, ground (arith, e))
    go no_such_key e = unfold settle_outgoing in inl (ground (arith, e))
    go unhashable e = unfold settle_outgoing in inl (ground (arith, e))

settle_outgoing_done :
    (id : Json) (value : Future) (s t : MessageStateStore)
    → settle_outgoing id value s ≡ ok t
    → (g : ℕ) (v : Future) → get_elem? s.futures g ≡ some v
    → is_done v ≡ true
    → get_elem? t.futures g ≡ some v
settle_outgoing_done id value s t e g v h d = elim (settle_outgoing_inv id value s t e) [
  | inl same ↦ rw same h
  | inr found ↦ rw found.2 (pop_and_settle_done found.0 value s g v h d)
]

Step-done :
    {s t : MessageStateStore}
    → Step s t
    → (g : ℕ) (v : Future) → get_elem? s.futures g ≡ some v
    → is_done v ≡ true
    → get_elem? t.futures g ≡ some v
unfolding register_outgoing resolve_outgoing reject_outgoing reject_all_outgoing begin_incoming
    complete_incoming fail_incoming abandon
Step-done {s} (register id method) g v h d = get_elem?-append_left s.futures _ g h
Step-done {s} (resolve id result {t = t} e) g v h d =
    settle_outgoing_done id (resolved result) s t e g v h d
Step-done {s} (reject id error {t = t} e) g v h d =
    settle_outgoing_done id (rejected error) s t e g v h d
Step-done {s} (reject_all error) g v h d =
    reject_each_done (values s.outgoing) error s.futures g v h d
Step-done (begin method params) g v h d = h
Step-done (complete i result) g v h d = h
Step-done (fail i error) g v h d = h
Step-done {s} (cancel f) g v h d = settle_done f abandoned s.futures g v h d

-- Over any operations a future that is done keeps its result or its error: no later response,
-- rejection or cancellation replaces it.
pub Reach-done :
    {s t : MessageStateStore}
    → Reach s t
    → (g : ℕ) (v : Future) → get_elem? s.futures g ≡ some v
    → is_done v ≡ true
    → get_elem? t.futures g ≡ some v
Reach-done here g v h d = h
Reach-done (next r st) g v h d = Step-done st g v (Reach-done r g v h d) d
