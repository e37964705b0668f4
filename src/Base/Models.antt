-- ===== src/Base/Models.antt =====
-- What src/acp/contrib/session_state.py and src/acp/contrib/tool_calls.py, each for itself, do
-- with pydantic models. A model is a value here, so its deep copy is the value.
use agent_client_protocol_py.Base.{◌≡◌, refl, Option, none, some, List, [], ◌∷◌, map}

-- `item.model_copy(deep=True)`
abbrev pub model_copy {ℓ} : {A : Type ℓ} → A → A
model_copy item = item

-- `_copy_model_list`
unfoldable pub copy_model_list {ℓ} : {A : Type ℓ} → Option (List A) → Option (List A)
copy_model_list none = none
copy_model_list (some items) = some (map model_copy items)

-- `tuple(item.model_copy(deep=True) for item in items) if items else None`
abbrev pub non_empty {ℓ} : {A : Type ℓ} → Option (List A) → Option (List A)
non_empty none = none
non_empty (some []) = none
non_empty (some (item ∷ items)) = some (map model_copy (item ∷ items))

pub map-model_copy {ℓ} : {A : Type ℓ} (items : List A) → map model_copy items ≡ items
map-model_copy [] = refl
map-model_copy (x ∷ xs) = rw (map-model_copy xs)

pub copy_model_list_id {ℓ} : {A : Type ℓ} (o : Option (List A)) → copy_model_list o ≡ o
unfolding copy_model_list
copy_model_list_id none = refl
copy_model_list_id (some xs) = rw (map-model_copy xs)
