-- ===== src/Transports/Tests.antt =====
-- The theorems on the environment, at concrete variables.
use agent_client_protocol_py.Base.{
  ◌≡◌, String, string_eq, false, none, some, [], ◌∷◌, if◌then◌else◌, contains,
}
use mathlib.Core.Option.{get_or}
use agent_client_protocol_py.Base.Dict.{last_value, Dict, lookup}
use agent_client_protocol_py.Transports.{default_inherited_env_vars, merged_env}
use agent_client_protocol_py.Transports.Environment.{inherited, lookup-merged_env}

abbrev environ : Dict String String
environ = ("PATH", "/bin") ∷ ("SHELL", "() { x; }") ∷ ("SECRET", "1") ∷ []

abbrev entries : Dict String String
entries = ("PATH", "/usr/bin") ∷ []

lookup-merged_env_example :
    lookup "PATH" (merged_env false environ (some entries))
    ≡ last_value (get_or (some entries) []) "PATH" (
        if contains (default_inherited_env_vars false) "PATH"
        then inherited environ "PATH"
        else none)
lookup-merged_env_example = lookup-merged_env false environ (some entries) "PATH"
