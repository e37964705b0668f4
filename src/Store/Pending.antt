-- ===== src/Store/Pending.antt =====
-- Every future that is not done can be found by the id of its request.
use agent_client_protocol_py.Base.{
  ◌≡◌, ◌≢◌, refl, sym, subst, ◌∙◌, inl, inr, ℕ, nat_eq, String, true, Option, none, some, List, [],
  ◌∷◌, Json, ok, arith,
}
use agent_client_protocol_py.Base.Dict.{
  Dict, lookup, values, lookup-insert_self, lookup-insert_ne, lookup-erase,
}
use agent_client_protocol_py.Base.Lists.{
  get_elem?, get_elem?-append_inv, get_elem?-set_ne, get_elem?-set_self,
}
use agent_client_protocol_py.Exceptions.{Exn}
use agent_client_protocol_py.Store.State.{
  Future, unresolved, rejected, is_done, OutgoingMessage, MessageStateStore, new_store, settle,
  register_outgoing, pop_and_settle, settle_outgoing, reject_each, reject_all_outgoing,
}
use agent_client_protocol_py.Store.Settled.{settle_outgoing_inv}

pub record IsTracked (s : MessageStateStore) : Type 0 where
  pub entry :
      (f : ℕ)
      → get_elem? s.futures f ≡ some unresolved
      → (id : ℕ) × (m : OutgoingMessage) × (lookup id s.outgoing ≡ some m) × (m.future ≡ f)

pub IsTracked-new_store : IsTracked new_store
IsTracked-new_store = record { entry = λ f h. cc }

-- Settling leaves no new future pending.
pub settle_unresolved :
    (f : ℕ) (value : Future) (fs : List Future) (g : ℕ)
    → is_done value ≡ true
    → get_elem? (settle f value fs) g ≡ some unresolved
    → (get_elem? fs g ≡ some unresolved) × (f ≢ g)
unfolding settle
settle_unresolved f value fs g d h =
    ground
      (arith, get_elem?-set_ne fs f g value, get_elem?-set_self fs f {v = value} {w = unresolved})

-- A new request under an id that is not in use.
pub register-IsTracked :
    (id : ℕ) (method : String) (s : MessageStateStore)
    → lookup id s.outgoing ≡ none
    → IsTracked s
    → IsTracked (register_outgoing id method s).1
unfolding register_outgoing
register-IsTracked id method s free h = record {
  entry = λ f e. elim (get_elem?-append_inv s.futures unresolved f e) [
    | inl old ↦
        let (j, m, found, own) = h.entry f old in
        (
          j,
          m,
          lookup-insert_ne j id _ s.outgoing
                (λ same. cc (subst (λ k. lookup k s.outgoing ≡ some m) same found))
              ∙ found,
          own,
        )
    | inr new ↦ (id, _, lookup-insert_self id _ s.outgoing, sym new)
  ];
}

pop_and_settle-IsTracked :
    (id : ℕ) (value : Future) (s : MessageStateStore)
    → is_done value ≡ true
    → IsTracked s
    → IsTracked (pop_and_settle id value s)
unfolding pop_and_settle
pop_and_settle-IsTracked id value s d h = go (lookup id s.outgoing) refl
  where
    go :
        (o : Option OutgoingMessage)
        → lookup id s.outgoing ≡ o
        → IsTracked (pop_and_settle id value s)
    go none e = rw (e, pop_and_settle) h
    go (some m) e =
        rw (e, pop_and_settle)
          (record {
            entry = λ f pending.
                let (was, other) = settle_unresolved m.future value s.futures f d pending in
                let (j, m', found, own) = h.entry f was in
                (j, m', ground (arith, lookup-erase j id s.outgoing), own);
          })

pub settle_outgoing-IsTracked :
    (id : Json) (value : Future) (s t : MessageStateStore)
    → is_done value ≡ true
    → settle_outgoing id value s ≡ ok t
    → IsTracked s
    → IsTracked t
settle_outgoing-IsTracked id value s t d e h = elim (settle_outgoing_inv id value s t e) [
  | inl same ↦ subst IsTracked (sym same) h
  | inr found ↦ subst IsTracked (sym found.2) (pop_and_settle-IsTracked found.0 value s d h)
]

reject_each_unresolved :
    (ms : List OutgoingMessage) (error : Exn) (fs : List Future) (g : ℕ)
    → get_elem? (reject_each ms error fs) g ≡ some unresolved
    → get_elem? fs g ≡ some unresolved
unfolding reject_each
reject_each_unresolved [] error fs g h = h
reject_each_unresolved (m ∷ ms) error fs g h =
    (settle_unresolved m.future (rejected error) fs g refl
      (reject_each_unresolved ms error _ g h)).0

reject_each_settles :
    (d : Dict ℕ OutgoingMessage) (error : Exn) (fs : List Future) (id : ℕ) (m : OutgoingMessage)
    → lookup id d ≡ some m
    → get_elem? (reject_each (values d) error fs) m.future ≢ some unresolved
unfolding lookup values reject_each
reject_each_settles [] error fs id m found h = cc
reject_each_settles ((j, m') ∷ d) error fs id m found h =
    let left =
      settle_unresolved m'.future (rejected error) fs m.future refl
        (reject_each_unresolved (values d) error _ m.future h) in
    let rest = reject_each_settles d error (settle m'.future (rejected error) fs) id m in
    ground (arith, left.1)

-- If every pending future belongs to an entry, then after the rejection of every request under way
-- no future is pending and no entry is left.
pub reject_all_settles :
    (error : Exn) (s : MessageStateStore) (f : ℕ)
    → IsTracked s
    → (get_elem? (reject_all_outgoing error s).futures f ≢ some unresolved)
      × ((reject_all_outgoing error s).outgoing ≡ [])
unfolding reject_all_outgoing
reject_all_settles error s f h = (
  λ pending.
      let (id, m, found, own) =
        h.entry f (reject_each_unresolved (values s.outgoing) error s.futures f pending) in
      reject_each_settles s.outgoing error s.futures id m found (
        subst (λ g. get_elem? (reject_each (values s.outgoing) error s.futures) g ≡ some unresolved)
          (sym own) pending),
  refl,
)
