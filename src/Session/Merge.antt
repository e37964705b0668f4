-- ===== src/Session/Merge.antt =====
-- How the updates of one tool call merge: the last value that is given wins, field by field.
use agent_client_protocol_py.Base.{
  ◌≡◌, refl, ◌∙◌, Option, none, some, List, [], ◌∷◌, Json, null, bool, num, str, arr, obj,
}
use agent_client_protocol_py.Schema.{ToolCallProgress}
use agent_client_protocol_py.Session.Calls.{MutableToolCallState, apply_progress, over, over_any}
use agent_client_protocol_py.Base.Models.{copy_model_list_id}

-- The value that the last update to give one gives.
abbrev pub latest {ℓ κ} : {U : Type ℓ} {A : Type κ} → (U → Option A) → List U → Option A
latest f [] = none
latest f (u ∷ us) = over (latest f us) (f u)

abbrev pub latest_any {ℓ} : {U : Type ℓ} → (U → Json) → List U → Json
latest_any f [] = null
latest_any f (u ∷ us) = over_any (latest_any f us) (f u)

pub over_assoc {ℓ} : {A : Type ℓ} (a b c : Option A) → over a (over b c) ≡ over (over a b) c
over_assoc none b c = refl
over_assoc (some x) b c = refl

pub over_any_assoc : (a b c : Json) → over_any a (over_any b c) ≡ over_any (over_any a b) c
over_any_assoc null b c = refl
over_any_assoc (bool x) b c = refl
over_any_assoc (num x) b c = refl
over_any_assoc (str x) b c = refl
over_any_assoc (arr x) b c = refl
over_any_assoc (obj x) b c = refl

-- The updates of one call, one after the other.
pub progress_all : List ToolCallProgress → MutableToolCallState → MutableToolCallState
progress_all [] s = s
progress_all (p ∷ ps) s = progress_all ps (apply_progress p s)

-- `t` is `s` after the updates `ps`, each field by itself.
pub record IsMerge (s : MutableToolCallState) (ps : List ToolCallProgress)
    (t : MutableToolCallState) : Type 0 where
  pub tool_call_id : t.tool_call_id ≡ s.tool_call_id
  pub title : t.title ≡ over (latest (λ p. p.title) ps) s.title
  pub kind : t.kind ≡ over (latest (λ p. p.kind) ps) s.kind
  pub status : t.status ≡ over (latest (λ p. p.status) ps) s.status
  pub content : t.content ≡ over (latest (λ p. p.content) ps) s.content
  pub locations : t.locations ≡ over (latest (λ p. p.locations) ps) s.locations
  pub raw_input : t.raw_input ≡ over_any (latest_any (λ p. p.raw_input) ps) s.raw_input
  pub raw_output : t.raw_output ≡ over_any (latest_any (λ p. p.raw_output) ps) s.raw_output

-- After any updates each field holds the last value that an update gave it, and the old one if
-- none did; the id stays.
pub progress_all-IsMerge :
    (ps : List ToolCallProgress) (s : MutableToolCallState) → IsMerge s ps (progress_all ps s)
unfolding progress_all apply_progress
progress_all-IsMerge [] s = record {
  tool_call_id = refl;
  title = refl;
  kind = refl;
  status = refl;
  content = refl;
  locations = refl;
  raw_input = refl;
  raw_output = refl;
}
progress_all-IsMerge (p ∷ ps) s =
    let ih = progress_all-IsMerge ps (apply_progress p s) in
    record {
      tool_call_id = ih.tool_call_id;
      title = ih.title ∙ over_assoc (latest (λ p. p.title) ps) p.title s.title;
      kind = ih.kind ∙ over_assoc (latest (λ p. p.kind) ps) p.kind s.kind;
      status = ih.status ∙ over_assoc (latest (λ p. p.status) ps) p.status s.status;
      content =
          ih.content
          ∙ rw (copy_model_list_id p.content)
              (over_assoc (latest (λ p. p.content) ps) p.content s.content);
      locations =
          ih.locations
          ∙ rw (copy_model_list_id p.locations)
              (over_assoc (latest (λ p. p.locations) ps) p.locations s.locations);
      raw_input =
          ih.raw_input ∙ over_any_assoc (latest_any (λ p. p.raw_input) ps) p.raw_input s.raw_input;
      raw_output =
          ih.raw_output
          ∙ over_any_assoc (latest_any (λ p. p.raw_output) ps) p.raw_output s.raw_output;
    }
