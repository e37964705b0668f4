-- ===== src/Router/Names.antt =====
-- The names of extensions.
use Prim.Native.String.{String, [], ◌∷◌}
use text.Mathlib.TextLemmas.{cons-append, nil-append}
use agent_client_protocol_py.Base.{
  ◌≡◌, refl, ap, ◌∙◌, string_eq, Option, none, some, if◌then◌else◌, ◌<>◌, ◌==◌,
}

-- `method[1:]` of a method that starts with `_`.
unfoldable pub extension_name : String → Option String
extension_name [] = none
extension_name (c ∷ rest) = if (c ∷ []) == "_" then some rest else none

pub extension_name-append : (name : String) → extension_name ("_" <> name) ≡ some name
extension_name-append name =
    ap extension_name (cons-append "_" [] name ∙ ap (λ s. "_" ∷ s) (nil-append name)) ∙ marked name
  where
    marked : (rest : String) → extension_name ("_" ∷ rest) ≡ some rest
    marked rest = unfold extension_name string_eq in refl
