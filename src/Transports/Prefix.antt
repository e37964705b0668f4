-- ===== src/Transports/Prefix.antt =====
-- `str.startswith`.
use Prim.Native.String.{String, [], ◌∷◌}
use agent_client_protocol_py.Base.{string_eq, Bool, true, false, ◌&&◌, ◌==◌}

unfoldable pub starts_with : String → String → Bool
starts_with [] text = true
starts_with (c ∷ start) [] = false
starts_with (c ∷ start) (d ∷ text) = (c ∷ []) == (d ∷ []) && starts_with start text
