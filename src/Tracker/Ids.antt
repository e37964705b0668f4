-- ===== src/Tracker/Ids.antt =====
-- The tracked calls have distinct ids, all of them drawn from the factory.
use agent_client_protocol_py.Base.{
  ◌≡◌, ◌≢◌, sym, inl, inr, ◌∙◌, ap, string_eq, ℕ, ◌<◌, String, some, arith,
}
use agent_client_protocol_py.Base.Dict.{
  lookup, insert, lookup-insert_inv, lookup-erase_inv, lookup-nil,
}
use agent_client_protocol_py.Schema.{ToolCallProgress}
use agent_client_protocol_py.Tracker.Call.{TrackedToolCall}
use agent_client_protocol_py.Tracker.Calls.{
  ToolCallTracker, new_tracker, StartArgs, new_call, start, forget,
}

module _ (id_factory : ℕ → String) where
  -- The documented promise of the factory (`uuid4().hex` by default): no id comes twice.
  abbrev pub IsInjective : Type 0
  IsInjective = (i j : ℕ) → id_factory i ≡ id_factory j → i ≡ j

  pub record IsDrawn (self : ToolCallTracker) : Type 0 where
    pub drawn :
        (x : String) (t : TrackedToolCall)
        → lookup x self.calls ≡ some t
        → (i : ℕ) × (i < self.ids_drawn) × (t.tool_call_id ≡ id_factory i)
    pub distinct :
        (x y : String) (s t : TrackedToolCall)
        → lookup x self.calls ≡ some s
        → lookup y self.calls ≡ some t
        → s.tool_call_id ≡ t.tool_call_id
        → x ≡ y

  pub IsDrawn-new_tracker : IsDrawn new_tracker
  IsDrawn-new_tracker = record {
    drawn = λ x t e. cc (lookup-nil {V = TrackedToolCall} x);
    distinct = λ x y s t e f g. cc (lookup-nil {V = TrackedToolCall} x);
  }

  -- The next id is none of those in use.
  pub fresh :
      IsInjective
      → (self : ToolCallTracker) → IsDrawn self
      → (x : String) (t : TrackedToolCall) → lookup x self.calls ≡ some t
      → t.tool_call_id ≢ id_factory self.ids_drawn
  fresh inj self d x t e same =
      let (i, below, id) = d.drawn x t e in
      let clash : i ≡ self.ids_drawn = inj i self.ids_drawn (sym id ∙ same) in omega arith

  pub start-IsDrawn :
      IsInjective
      → (x : String) (args : StartArgs) (self : ToolCallTracker) → IsDrawn self
      → IsDrawn (start id_factory x args self).1
  unfolding start
  start-IsDrawn inj x args self d = record {
    drawn = λ y t e.
        elim (lookup-insert_inv y x (new_call (id_factory self.ids_drawn) args) self.calls e) [
          | inl (at, own) ↦ (self.ids_drawn, omega arith, ap (λ c. c.tool_call_id) (sym own))
          | inr (off, old) ↦ let (i, below, id) = d.drawn y t old in (i, omega arith, id)
        ];
    distinct = λ y z s t e f same.
        elim (lookup-insert_inv y x (new_call (id_factory self.ids_drawn) args) self.calls e) [
          | inl (at, own) ↦
              elim (lookup-insert_inv z x (new_call (id_factory self.ids_drawn) args) self.calls
                f) [
                  | inl (at', own') ↦ at ∙ sym at'
                  | inr (off', old') ↦
                      absurd
                        (fresh inj self d z t old' (sym same ∙ ap (λ c. c.tool_call_id) (sym own)))
                ]
          | inr (off, old) ↦
              elim (lookup-insert_inv z x (new_call (id_factory self.ids_drawn) args) self.calls
                f) [
                  | inl (at', own') ↦
                      absurd (fresh inj self d y s old (same ∙ ap (λ c. c.tool_call_id) (sym own')))
                  | inr (off', old') ↦ d.distinct y z s t old old' same
                ]
        ];
  }

  -- A method of a call that keeps the id of the call.
  abbrev pub KeepsId : (TrackedToolCall → ToolCallProgress × TrackedToolCall) → Type 0
  KeepsId method = (t : TrackedToolCall) → (method t).1.tool_call_id ≡ t.tool_call_id

  pub insert-IsDrawn :
      (x : String) (old new : TrackedToolCall) (self : ToolCallTracker)
      → lookup x self.calls ≡ some old
      → new.tool_call_id ≡ old.tool_call_id
      → IsDrawn self
      → IsDrawn (record self { calls = insert x new self.calls })
  insert-IsDrawn x old new self found kept d = record {
    drawn = λ y t e. elim (lookup-insert_inv y x new self.calls e) [
      | inl (at, own) ↦
          let (i, below, id) = d.drawn x old found in
          (i, below, ap (λ c. c.tool_call_id) (sym own) ∙ kept ∙ id)
      | inr (off, before) ↦ d.drawn y t before
    ];
    distinct = λ y z s t e f same. elim (lookup-insert_inv y x new self.calls e) [
      | inl (at, own) ↦ elim (lookup-insert_inv z x new self.calls f) [
        | inl (at', own') ↦ at ∙ sym at'
        | inr (off', before') ↦
            at ∙ d.distinct x z old t found before' (sym kept ∙ ap (λ c. c.tool_call_id) own ∙ same)
      ]
      | inr (off, before) ↦ elim (lookup-insert_inv z x new self.calls f) [
        | inl (at', own') ↦
            d.distinct y x s old before found (same ∙ ap (λ c. c.tool_call_id) (sym own') ∙ kept)
            ∙ sym at'
        | inr (off', before') ↦ d.distinct y z s t before before' same
      ]
    ];
  }

  pub forget-IsDrawn :
      (x : String) (self : ToolCallTracker) → IsDrawn self → IsDrawn (forget x self)
  unfolding forget
  forget-IsDrawn x self d = record {
    drawn = λ y t e. d.drawn y t (lookup-erase_inv y x self.calls e).1;
    distinct = λ y z s t e f same.
        d.distinct y z s t (lookup-erase_inv y x self.calls e).1
          (lookup-erase_inv z x self.calls f).1 same;
  }
