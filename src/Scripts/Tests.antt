-- ===== src/Scripts/Tests.antt =====
-- The theorems on the generators, at a small text and a version.
use agent_client_protocol_py.Base.{
  ◌≡◌, refl, nat_eq, String, string_eq, Bool, true, false, Option, none, some, List, [], ◌∷◌, ◌<>◌,
  ◌==◌, if◌then◌else◌,
}
use agent_client_protocol_py.Transports.Prefix.{starts_with}
use agent_client_protocol_py.Scripts.Refs.{
  Options, SchemaDir, main, resolve_ref, should_download, download_schema,
}
use agent_client_protocol_py.Scripts.Comments.{add_description_comments}
use agent_client_protocol_py.Scripts.Inserted.{Commented, add_description_comments-Commented}
use agent_client_protocol_py.Scripts.Again.{main_again, RunLeaves}

abbrev is_version : String → Bool
is_version version = false

abbrev lower : String → String
lower text = text

abbrev strip : String → String
strip text = if text == "refs/heads/main\n" then "refs/heads/main" else text

abbrev forced : Options
forced = record { no_download = false; force = true; env_override = none }

abbrev old_dir : SchemaDir
old_dir = record {
  schema_json = some "{}";
  meta_json = some "{}";
  version_file = some "refs/heads/main\n";
}

abbrev new_dir : SchemaDir
new_dir = record {
  schema_json = some "[1]";
  meta_json = some "[2]";
  version_file = some "refs/heads/main\n";
}

abbrev fetch : String → Option (String × String)
fetch ref = some ("[1]", "[2]")

abbrev offline : String → Option (String × String)
offline ref = none

abbrev main_version : Option String
main_version = some "refs/heads/main"

main_ref : resolve_ref is_version lower main_version ≡ "refs/heads/main"
unfolding resolve_ref string_eq
main_ref = refl

strips :
    strip (resolve_ref is_version lower main_version <> "\n")
    ≡ resolve_ref is_version lower main_version
unfolding string_eq
strips = rw main_ref refl

downloads :
    main is_version lower strip fetch forced main_version old_dir
    ≡ some (new_dir, some "refs/heads/main")
unfolding main should_download download_schema resolve_ref string_eq
downloads = refl

main_again_example :
    RunLeaves is_version lower strip fetch forced main_version (new_dir, some "refs/heads/main")
    × (main is_version lower strip offline (record forced { force = false }) main_version new_dir
        ≡ some (new_dir, some "refs/heads/main"))
    × (starts_with "refs/" (resolve_ref is_version lower main_version) ≡ true)
    × (resolve_ref is_version lower (some (resolve_ref is_version lower main_version))
        ≡ resolve_ref is_version lower main_version)
main_again_example =
    main_again is_version lower strip fetch offline forced main_version old_dir new_dir
      (some "refs/heads/main") refl refl strips downloads

abbrev description : List String → Option (List String)
description block = some ("The title" ∷ [])

abbrev lines : List String
lines = "class A:" ∷ "    title: str" ∷ []

add_description_comments-Commented_example :
    (out : List String) × (add_description_comments description lines ≡ some out)
    × Commented lines out
add_description_comments-Commented_example = add_description_comments-Commented description lines
