-- ===== src/Utils/Compat.antt =====
-- The wrappers of utils that keep the old style of calls: one model in place of its fields. The
-- values are of a type `V`, and a name is the list of its codes.
use mathlib.Core.Option.{get_or}
use mathlib.Core.List.{List-discrete}
use agent_client_protocol_py.Base.{
  ◌≡◌, refl, ap, ◌∙◌, ℕ, nat_eq, Option, none, some, List, [], ◌∷◌, Result, err, if◌then◌else◌,
  ◌==◌, ◌&&◌, contains, Eq, arith, not,
}
use agent_client_protocol_py.Base.Dict.{
  Dict, lookup, insert, lookup-cons, lookup-nil, update_with, last_value, lookup-update_with,
}
use agent_client_protocol_py.Exceptions.{Exn, type_error, attribute_error}
use agent_client_protocol_py.Utils.Names.{to_camel_case, underscore}

abbrev pub Name : Type 0
Name = List ℕ

-- "field_meta" and "params", by their codes.
abbrev pub field_meta_name : Name
field_meta_name = 102 ∷ 105 ∷ 101 ∷ 108 ∷ 100 ∷ 95 ∷ 109 ∷ 101 ∷ 116 ∷ 97 ∷ []

abbrev pub params_name : Name
params_name = 112 ∷ 97 ∷ 114 ∷ 97 ∷ 109 ∷ 115 ∷ []

-- An instance of a model.
pub record Instance (V : Type 0) : Type 0 where
  pub getattr : Name → V
  pub field_meta : Option (Dict Name V)

-- A model's class: its fields, which values are its instances, and what `getattr` reads of
-- another value: all of the fields, and `field_meta` if it is there, or `none` where a field is
-- missing.
pub record Model (V : Type 0) : Type 0 where
  pub model_fields : List Name
  pub as_instance : V → Option (Instance V)
  pub attributes_of : V → Option (Instance V)

-- A function under positional arguments and keywords.
abbrev pub Func : Type 0 → Type 0 → Type 0
Func V R = List V → Dict Name V → Result Exn R

-- An attribute of a class, with the model that `param_model` marks it by; a wrapper keeps it.
pub record Attribute (V R : Type 0) : Type 0 where
  pub func : Func V R
  pub model : Option (Model V)

instance unfoldable pub name_eq : Eq Name
unfolding nat_eq
name_eq = record { dec = List-discrete nat_eq.dec }

-- The only parameter, by its place or as `params`.
abbrev pub one_parameter : {V : Type 0} → List V → Dict Name V → Option V
one_parameter (v ∷ []) [] = some v
one_parameter [] ((k, v) ∷ []) = if k == params_name then some v else none
one_parameter args kwargs = none

module _ {V : Type 0} where
  -- `{k: getattr(params, k) for k in model.model_fields if k != "field_meta"}`, with fields that
  -- have different names.
  unfoldable pub field_kwargs : List Name → Instance V → Dict Name V
  field_kwargs [] params = []
  field_kwargs (k ∷ fields) params =
      let rest = field_kwargs fields params in
      if k == field_meta_name then rest else (k, params.getattr k) ∷ rest

  -- The keywords that stand for an instance.
  unfoldable pub legacy_kwargs : Model V → Instance V → Dict Name V
  unfolding field_kwargs update_with
  legacy_kwargs model params = elim params.field_meta [
    | none ↦ field_kwargs model.model_fields params
    | some entries ↦ update_with entries (field_kwargs model.model_fields params)
  ]

  -- The values that `getattr` reads, of an instance or of another value.
  abbrev pub read_attributes : Model V → V → Option (Instance V)
  read_attributes model params = elim (model.as_instance params) [
    | some instance_of ↦ some instance_of
    | none ↦ model.attributes_of params
  ]

  -- The wrapper of a method with an underscore: it takes one parameter, whose fields it reads, be it
  -- an instance or not.
  unfoldable pub make_legacy_func : {R : Type 0} → Func V R → Model V → Func V R
  unfolding legacy_kwargs
  make_legacy_func func model args kwargs = elim (one_parameter args kwargs) [
    | none ↦ err type_error
    | some params ↦ elim (read_attributes model params) [
      | none ↦ err attribute_error
      | some instance_of ↦ func [] (legacy_kwargs model instance_of)
    ]
  ]

  unfoldable pub make_compatible_func : {R : Type 0} → Func V R → Model V → Func V R
  unfolding legacy_kwargs
  make_compatible_func func model args kwargs = elim (one_parameter args kwargs) [
    | none ↦ func args kwargs
    | some params ↦ elim (model.as_instance params) [
      | none ↦ func args kwargs
      | some instance_of ↦ func [] (legacy_kwargs model instance_of)
    ]
  ]

  abbrev rewrapped :
      {R : Type 0}
      → Name
      → Attribute V R
      → Model V
      → Dict Name (Attribute V R)
      → Dict Name (Attribute V R)
  rewrapped attr old model cls =
      if contains attr underscore
      then insert (to_camel_case attr) (record old { func = make_legacy_func old.func model }) cls
      else insert attr (record old { func = make_compatible_func old.func model }) cls

  -- One round of the loop.
  unfoldable pub make_compatible :
      {R : Type 0} → Name → Dict Name (Attribute V R) → Dict Name (Attribute V R)
  unfolding make_legacy_func make_compatible_func lookup insert to_camel_case
  make_compatible attr cls = elim (lookup attr cls) [
    | none ↦ cls
    | some old ↦ elim old.model [ none ↦ cls | some model ↦ rewrapped attr old model cls ]
  ]

  -- The loop over `dir(cls)`.
  unfoldable pub compatible_class :
      {R : Type 0} → List Name → Dict Name (Attribute V R) → Dict Name (Attribute V R)
  unfolding make_compatible
  compatible_class [] cls = cls
  compatible_class (attr ∷ attrs) cls = compatible_class attrs (make_compatible attr cls)

  lookup-field_kwargs :
      (fields : List Name) (params : Instance V) (k : Name)
      → lookup k (field_kwargs fields params) ≡ (
          if contains fields k && not (k == field_meta_name) then some (params.getattr k) else none)
  unfolding field_kwargs
  lookup-field_kwargs [] params k = lookup-nil k
  lookup-field_kwargs (j ∷ fields) params k = ground (
    arith,
    lookup-field_kwargs fields params k,
    lookup-cons k j (params.getattr j) (field_kwargs fields params),
  )

  pub lookup-legacy_kwargs :
      (model : Model V) (params : Instance V) (k : Name)
      → lookup k (legacy_kwargs model params)
        ≡ last_value (get_or params.field_meta []) k (
            if contains model.model_fields k && not (k == field_meta_name)
            then some (params.getattr k)
            else none)
  unfolding legacy_kwargs field_kwargs
  lookup-legacy_kwargs model params k = go params.field_meta refl
    where
      go :
          (o : Option (Dict Name V))
          → params.field_meta ≡ o
          → lookup k (legacy_kwargs model params)
            ≡ last_value (get_or params.field_meta []) k (
                if contains model.model_fields k && not (k == field_meta_name)
                then some (params.getattr k)
                else none)
      go none e = rw (legacy_kwargs, e) (lookup-field_kwargs model.model_fields params k)
      go (some entries) e =
          rw (legacy_kwargs, e)
            (lookup-update_with k entries (field_kwargs model.model_fields params)
              ∙ ap (last_value entries k) (lookup-field_kwargs model.model_fields params k))

  -- The old style of calls stands for the new one: a function that is wrapped, in either way, and
  -- gets an instance of its model as its only parameter, by its place or as `params`, is called
  -- with keywords alone. A field has its value in the instance, unless the instance's `_meta` has
  -- an entry of that name: the entry goes first. Other entries of `_meta` are keywords of their own.
  pub make_compatible_func-make_legacy_func :
      {R : Type 0} (func : Func V R) (model : Model V) (args : List V) (kwargs : Dict Name V)
      (params : V) (instance_of : Instance V) (k : Name)
      → one_parameter args kwargs ≡ some params
      → model.as_instance params ≡ some instance_of
      → (make_compatible_func func model args kwargs ≡ func [] (legacy_kwargs model instance_of))
        × (make_legacy_func func model args kwargs ≡ func [] (legacy_kwargs model instance_of))
        × (lookup k (legacy_kwargs model instance_of)
            ≡ last_value (get_or instance_of.field_meta []) k (
                if contains model.model_fields k && not (k == field_meta_name)
                then some (instance_of.getattr k)
                else none))
  unfolding make_compatible_func make_legacy_func
  make_compatible_func-make_legacy_func func model args kwargs params instance_of k given known = (
    rw (make_compatible_func, given, known) refl,
    rw (make_legacy_func, given, known) refl,
    lookup-legacy_kwargs model instance_of k,
  )
