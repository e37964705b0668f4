-- ===== src/Utils/Reflect.antt =====
-- `_make_func` of src/acp/router.py: the handler that an object's attribute gives.
use mathlib.Core.Option.{get_or}
use agent_client_protocol_py.Base.{
  ◌≡◌, refl, nat_eq, Bool, true, false, not, ◌&&◌, Option, none, some, [], ◌∷◌, Result, ok, ◌>>=◌,
  if◌then◌else◌, ◌==◌, contains, Json,
}
use agent_client_protocol_py.Base.Dict.{lookup, last_value}
use agent_client_protocol_py.Exceptions.{Exn}
use agent_client_protocol_py.Utils.Names.{to_camel_case, underscore}
use agent_client_protocol_py.Utils.Compat.{
  Name, Instance, Model, Func, name_eq, field_meta_name, legacy_kwargs, lookup-legacy_kwargs,
}

-- What `getattr` finds on an object: whether it is callable, and whether it takes one parameter of
-- the name `params`.
pub record Member (V R : Type 0) : Type 0 where
  pub is_callable : Bool
  pub takes_params : Bool
  pub func : Func V R

-- `model.model_validate(params)`, with the model that it makes as a value.
module _ {V R : Type 0} (model : Model V) (validate : Json → Result Exn (V × Instance V)) where
  unfoldable pub wrapper : Bool → Func V R → Json → Result Exn R
  unfolding legacy_kwargs
  wrapper legacy_api func params = validate params >>= λ (value, model_obj).
      if legacy_api then func (value ∷ []) [] else func [] (legacy_kwargs model model_obj)

  -- `obj` is what `getattr(obj, ..., None)` finds.
  unfoldable pub make_func : (Name → Option (Member V R)) → Name → Option (Json → Result Exn R)
  unfolding wrapper to_camel_case
  make_func obj attr = elim (obj attr) [
    | none ↦
        if contains attr underscore
        then elim (obj (to_camel_case attr)) [
          | none ↦ none
          | some member ↦ if member.is_callable then some (wrapper true member.func) else none
        ]
        else none
    | some member ↦
        if member.is_callable
        then some (wrapper (not (contains attr underscore) && member.takes_params) member.func)
        else none
  ]

  -- The handler of an attribute that is callable, and of the new style, calls it with keywords alone
  -- for parameters that the model accepts: a field's keyword has the field's value, unless the
  -- message's own `_meta` has an entry of that name, which goes first.
  pub make_func-legacy_kwargs :
      (obj : Name → Option (Member V R)) (attr : Name) (member : Member V R) (params : Json)
      (value : V) (model_obj : Instance V) (k : Name)
      → obj attr ≡ some member
      → member.is_callable ≡ true
      → not (contains attr underscore) && member.takes_params ≡ false
      → validate params ≡ ok (value, model_obj)
      → (handler : Json → Result Exn R) × (make_func obj attr ≡ some handler)
        × (handler params ≡ member.func [] (legacy_kwargs model model_obj))
        × (lookup k (legacy_kwargs model model_obj)
            ≡ last_value (get_or model_obj.field_meta []) k (
                if contains model.model_fields k && not (k == field_meta_name)
                then some (model_obj.getattr k)
                else none))
  unfolding make_func wrapper
  make_func-legacy_kwargs obj attr member params value model_obj k found callable new_style valid =
      (
        wrapper false member.func,
        rw (make_func, found, callable, new_style) refl,
        rw (wrapper, valid) refl,
        lookup-legacy_kwargs model model_obj k,
      )

  -- An attribute that is missing is looked for under its camel case, where its name has an
  -- underscore, and is called the old way: with the model that the parameters make.
  pub make_func-to_camel_case :
      (obj : Name → Option (Member V R)) (attr : Name) (member : Member V R) (params : Json)
      (value : V) (model_obj : Instance V)
      → obj attr ≡ none
      → contains attr underscore ≡ true
      → obj (to_camel_case attr) ≡ some member
      → member.is_callable ≡ true
      → validate params ≡ ok (value, model_obj)
      → (handler : Json → Result Exn R) × (make_func obj attr ≡ some handler)
        × (handler params ≡ member.func (value ∷ []) [])
  unfolding make_func wrapper
  make_func-to_camel_case obj attr member params value model_obj missing named found callable
        valid =
      (
        wrapper true member.func,
        rw (make_func, missing, named, found, callable) refl,
        rw (wrapper, valid) refl,
      )
