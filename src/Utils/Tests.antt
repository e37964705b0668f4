-- ===== src/Utils/Tests.antt =====
-- The theorems on names and on the old style of calls, at concrete ones.
use mathlib.Core.Option.{get_or}
use agent_client_protocol_py.Base.{
  ◌≡◌, arith, ◌≢◌, ◌∙◌, refl, Result, Json, null, false, ℕ, nat_eq, true, Option, none, some, List,
  [], ◌∷◌, ◌++◌, ok, if◌then◌else◌, ◌==◌, ◌&&◌, contains, not,
}
use agent_client_protocol_py.Base.Dict.{lookup-cons, Dict, lookup, last_value}
use agent_client_protocol_py.Base.Lists.{All, pair}
use agent_client_protocol_py.Utils.Names.{
  is_lower, underscore, IsWord, behind, to_camel_case, snake_cased, snake_cased-to_camel_case,
}
use agent_client_protocol_py.Exceptions.{Exn}
use agent_client_protocol_py.Utils.OldStyle.{compatible_class-legacy_kwargs}
use agent_client_protocol_py.Utils.Reflect.{Member, make_func, make_func-legacy_kwargs}
use agent_client_protocol_py.Utils.Compat.{
  Attribute, compatible_class, Name, Instance, Model, Func, legacy_kwargs, field_meta_name, name_eq,
}

-- "id"
abbrev id_name : Name
id_name = 105 ∷ 100 ∷ []

abbrev later_words : List (List ℕ)
later_words = id_name ∷ []

small_letter : is_lower 116 ≡ true
unfolding is_lower
small_letter = refl

id_name-IsWord : IsWord id_name
unfolding is_lower
id_name-IsWord = pair refl (pair refl tt)

later_words-IsWord : All IsWord later_words
later_words-IsWord = pair id_name-IsWord tt

-- "tid_id"
snake_cased-to_camel_case_example :
    snake_cased (to_camel_case ((116 ∷ id_name) ++ behind later_words))
    ≡ (116 ∷ id_name) ++ behind later_words
snake_cased-to_camel_case_example =
    snake_cased-to_camel_case 116 id_name later_words small_letter id_name-IsWord later_words-IsWord
      (pair tt tt)

-- A model with the one field "id".
abbrev instance_seven : Instance ℕ
instance_seven = record { getattr = λ k. 7; field_meta = some ((id_name, 9) ∷ []) }

abbrev model : Model ℕ
model = record {
  model_fields = id_name ∷ [];
  as_instance = λ v. some instance_seven;
  attributes_of = λ v. none;
}

abbrev get_id : Func ℕ (Option ℕ)
get_id args kwargs = ok (lookup id_name kwargs)

abbrev member : Member ℕ (Option ℕ)
member = record { is_callable = true; takes_params = false; func = get_id }

abbrev obj : Name → Option (Member ℕ (Option ℕ))
obj attr = some member

abbrev validate : Json → Result Exn (ℕ × Instance ℕ)
validate params = ok (0, instance_seven)

no_old_style : not (contains id_name underscore) && member.takes_params ≡ false
unfolding nat_eq
no_old_style = refl

make_func-legacy_kwargs_example :
    (handler : Json → Result Exn (Option ℕ)) × (make_func model validate obj id_name ≡ some handler)
    × (handler null ≡ get_id [] (legacy_kwargs model instance_seven))
    × (lookup id_name (legacy_kwargs model instance_seven)
        ≡ last_value (get_or instance_seven.field_meta []) id_name (
            if contains model.model_fields id_name && not (id_name == field_meta_name)
            then some (instance_seven.getattr id_name)
            else none))
make_func-legacy_kwargs_example =
    make_func-legacy_kwargs model validate obj id_name member null 0 instance_seven id_name refl
      refl no_old_style refl

-- "a_b"
abbrev a_b : Name
a_b = 97 ∷ 95 ∷ 98 ∷ []

abbrev marked_method : Attribute ℕ (Option ℕ)
marked_method = record { func = get_id; model = some model }

abbrev cls : Dict Name (Attribute ℕ (Option ℕ))
cls = (a_b, marked_method) ∷ []

a_b_found : lookup a_b cls ≡ some marked_method
a_b_found = ground (arith, lookup-cons a_b a_b marked_method [])

a_b_named : contains a_b underscore ≡ true
unfolding nat_eq
a_b_named = refl

a_b_camel : to_camel_case a_b ≡ 97 ∷ 66 ∷ []
unfolding to_camel_case is_lower nat_eq
a_b_camel = refl

a_b_differs : a_b ≢ to_camel_case a_b
a_b_differs same = let e = same ∙ a_b_camel in cc

compatible_class-legacy_kwargs_example :
    let made = compatible_class ([] ++ (a_b ∷ [])) cls in
    (new : Attribute ℕ (Option ℕ)) × (lookup (to_camel_case a_b) made ≡ some new)
    × (new.func (0 ∷ []) [] ≡ get_id [] (legacy_kwargs model instance_seven))
    × (lookup a_b made ≡ some marked_method)
compatible_class-legacy_kwargs_example =
    compatible_class-legacy_kwargs [] [] a_b cls marked_method model (0 ∷ []) [] 0 instance_seven
      a_b_found refl a_b_named a_b_differs tt tt tt refl refl
