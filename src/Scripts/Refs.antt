-- ===== src/Scripts/Refs.antt =====
-- src/scripts/gen_all.py: which ref the schema comes from, and whether it is fetched. `is_version` is
-- the full match of the regular expression `v?\d+\.\d+\.\d+`, `lower` is `str.lower`, `strip` is
-- `str.strip`, and `fetch` gives the two files of a ref as `json.dumps` writes them, if it can.
use agent_client_protocol_py.Base.{
  String, ◌<>◌, string_eq, Bool, true, false, not, ◌&&◌, ◌||◌, Option, none, some, [], ◌∷◌,
  contains, if◌then◌else◌, ◌==◌, option_eq, is_some,
}
use agent_client_protocol_py.Transports.Prefix.{starts_with}

-- The options of the command line that matter here, and the variable `ACP_SCHEMA_DOWNLOAD`.
pub record Options : Type 0 where
  pub no_download : Bool
  pub force : Bool
  pub env_override : Option String

-- The texts of the files of the schema directory that are there.
pub record SchemaDir : Type 0 where
  pub schema_json : Option String
  pub meta_json : Option String
  pub version_file : Option String

-- `if version:`
abbrev pub is_given : Option String → Bool
is_given none = false
is_given (some version) = not (version == "")

module _ (is_version : String → Bool) (lower : String → String) where
  -- A version that is not empty.
  unfoldable pub resolve_version : String → String
  unfolding starts_with
  resolve_version version =
      if starts_with "refs/" version
      then version
      else if is_version version
      then "refs/tags/" <> (if starts_with "v" version then version else "v" <> version)
      else "refs/heads/" <> version

  unfoldable pub resolve_ref : Option String → String
  unfolding resolve_version
  resolve_ref none = "refs/heads/main"
  resolve_ref (some version) = if version == "" then "refs/heads/main" else resolve_version version

  module _ (strip : String → String) where
    -- `VERSION_FILE.read_text().strip() or None`, if the file is there
    unfoldable pub cached_ref : SchemaDir → Option String
    cached_ref dir = elim dir.version_file [
      | none ↦ none
      | some text ↦ if strip text == "" then none else some (strip text)
    ]

    abbrev pub has_files : SchemaDir → Bool
    has_files dir = is_some dir.schema_json && is_some dir.meta_json

    -- `_should_download`
    unfoldable pub should_download : Options → Option String → SchemaDir → Bool
    unfolding resolve_ref cached_ref
    should_download args version dir = elim args.env_override [
      | some value ↦ contains ("1" ∷ "true" ∷ "yes" ∷ []) (lower value)
      | none ↦
          if args.no_download
          then false
          else if is_given version
          then if not (is_some dir.schema_json) || not (is_some dir.meta_json)
            then true
            else if args.force
            then true
            else not (cached_ref dir == some (resolve_ref version))
          else not (has_files dir)
    ]

    -- `download_schema`, which exits if a fetch fails and writes the three files otherwise.
    unfoldable pub download_schema : (String → Option (String × String)) → String → Option SchemaDir
    download_schema fetch ref = elim (fetch ref) [
      | none ↦ none
      | some (schema_data, meta_data) ↦ some (record {
        schema_json = some schema_data;
        meta_json = some meta_data;
        version_file = some (ref <> "\n");
      })
    ]

    abbrev pub finish : Option String → SchemaDir → Option (SchemaDir × Option String)
    finish ref dir = if has_files dir then some (dir, ref) else none

    -- `main` up to the generators: the directory and the ref, or `none` where it exits.
    unfoldable pub main :
        (String → Option (String × String))
        → Options
        → Option String
        → SchemaDir
        → Option (SchemaDir × Option String)
    unfolding should_download download_schema resolve_ref cached_ref
    main fetch args version dir =
        if should_download args version dir
        then elim (download_schema fetch (resolve_ref version)) [
          | none ↦ none
          | some after ↦ finish (some (resolve_ref version)) after
        ]
        else finish (if is_given version then some (resolve_ref version) else cached_ref dir) dir
