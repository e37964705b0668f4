-- ===== src/Transports/Environment.antt =====
-- The environment that a subprocess gets.
use mathlib.Core.Option.{get_or}
use agent_client_protocol_py.Base.{
  ◌≡◌, refl, ◌∙◌, ap, String, string_eq, Bool, Option, none, some, List, [], ◌∷◌, if◌then◌else◌,
  contains, arith,
}
use agent_client_protocol_py.Base.Dict.{
  last_value, lookup-update_with, Dict, lookup, insert, lookup-insert, lookup-nil,
}
use agent_client_protocol_py.Transports.{
  default_inherited_env_vars, starts_with, inherit, default_environment, merged_env,
}

-- The value of a variable that is inherited: one that is no shell function.
abbrev pub inherited : Dict String String → String → Option String
inherited environ key = elim (lookup key environ) [
  | none ↦ none
  | some value ↦ if starts_with "()" value then none else some value
]

-- The variable where it is named and inherited, or else its old value.
abbrev filled : Dict String String → List String → String → Option String → Option String
filled environ keys key old = elim (if contains keys key then inherited environ key else none) [
  | none ↦ old
  | some value ↦ some value
]

lookup-inherit :
    (environ : Dict String String) (keys : List String) (env : Dict String String) (key : String)
    → lookup key (inherit environ keys env) ≡ filled environ keys key (lookup key env)
unfolding inherit
lookup-inherit environ [] env key = refl
lookup-inherit environ (k ∷ keys) env key =
    go (λ d. lookup-inherit environ keys d key) (lookup k environ) refl
  where
    go :
        ((d : Dict String String)
          → lookup key (inherit environ keys d) ≡ filled environ keys key (lookup key d))
        → (o : Option String) → lookup k environ ≡ o
        → lookup key (inherit environ (k ∷ keys) env)
          ≡ filled environ (k ∷ keys) key (lookup key env)
    go rest none e = ground (arith, e, rest env)
    go rest (some v) e =
        ground (arith, e, lookup-insert key k v env, rest env, rest (insert k v env))

lookup-default_environment :
    (windows : Bool) (environ : Dict String String) (key : String)
    → lookup key (default_environment windows environ)
      ≡ (if contains (default_inherited_env_vars windows) key then inherited environ key else none)
unfolding default_environment
lookup-default_environment windows environ key =
    lookup-inherit environ (default_inherited_env_vars windows) [] key
    ∙ ground (arith, lookup-nil {V = String} key)

-- A variable of the subprocess has the last value that `env` gives it; or, if `env` names it not,
-- its own value in the environment of this process, if it is one of the six names (twelve on
-- Windows) and its value does not start like a shell function; and else it is not set.
pub lookup-merged_env :
    (windows : Bool) (environ : Dict String String) (env : Option (Dict String String))
    (key : String)
    → lookup key (merged_env windows environ env)
      ≡ last_value (get_or env []) key (
          if contains (default_inherited_env_vars windows) key then inherited environ key else none)
unfolding merged_env default_environment
lookup-merged_env windows environ none key = lookup-default_environment windows environ key
lookup-merged_env windows environ (some entries) key =
    lookup-update_with key entries (default_environment windows environ)
    ∙ ap (last_value entries key) (lookup-default_environment windows environ key)
