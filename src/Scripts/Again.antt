-- ===== src/Scripts/Again.antt =====
-- A second run of src/scripts/gen_all.py.
use mathlib.Core.Option.{some-injective, none-ne-some}
use agent_client_protocol_py.Base.{
  ◌≡◌, refl, sym, subst, ◌∙◌, String, ◌<>◌, string_eq, Bool, true, false, Option, none, some,
  if◌then◌else◌, arith, Bool-cases, inl, inr, ◌⊎◌,
}
use agent_client_protocol_py.Transports.Prefix.{starts_with}
use agent_client_protocol_py.Scripts.Refs.{
  Options, SchemaDir, cached_ref, is_given, resolve_ref, should_download, download_schema, main,
  has_files,
}
use agent_client_protocol_py.Scripts.Resolved.{nonempty, resolve_ref-refs, resolve_ref_again}

module _ (is_version : String → Bool) (lower : String → String) where
  module _ (strip : String → String) where
    -- What a run leaves and reports: the files are there, and the ref is the one of the version, which
    -- is also the cached one, or without a version the cached one.
    abbrev IsReady : Option String → SchemaDir → Option String → Type 0
    IsReady version dir ref =
        (has_files is_version lower strip dir ≡ true)
        × (((is_given version ≡ true)
              × (ref ≡ some (resolve_ref is_version lower version))
              × (cached_ref is_version lower strip dir
                  ≡ some (resolve_ref is_version lower version)))
            ⊎ ((is_given version ≡ false) × (ref ≡ cached_ref is_version lower strip dir)))

    main-IsReady :
        (fetch : String → Option (String × String)) (args : Options) (version : Option String)
        (dir : SchemaDir) (ref : Option String)
        → args.env_override ≡ none
        → IsReady version dir ref
        → main is_version lower strip fetch (record args { force = false }) version dir
          ≡ some (dir, ref)
    main-IsReady fetch args version dir ref free (files, inl (given, says, cached)) =
        unfold main should_download in ground (arith, free, files, given, says, cached)
    main-IsReady fetch args version dir ref free (files, inr (given, says)) =
        unfold main should_download in ground (arith, free, files, given, says)

    abbrev written : String → String → String → SchemaDir
    written ref schema_data meta_data = record {
      schema_json = some schema_data;
      meta_json = some meta_data;
      version_file = some (ref <> "\n");
    }

    cached_ref-written :
        (ref schema_data meta_data : String)
        → strip (ref <> "\n") ≡ ref
        → starts_with "refs/" ref ≡ true
        → cached_ref is_version lower strip (written ref schema_data meta_data) ≡ some ref
    unfolding cached_ref
    cached_ref-written ref schema_data meta_data strips h = ground (arith, strips, nonempty ref h)

    written-IsReady :
        (version : Option String) (schema_data meta_data : String)
        → strip (resolve_ref is_version lower version <> "\n")
          ≡ resolve_ref is_version lower version
        → IsReady version
            (written (resolve_ref is_version lower version) schema_data meta_data)
            (some (resolve_ref is_version lower version))
    written-IsReady version schema_data meta_data strips =
        let cached =
          cached_ref-written (resolve_ref is_version lower version) schema_data meta_data strips
            (resolve_ref-refs is_version lower version) in
        elim (Bool-cases (is_given version)) [
          | inl given ↦ (refl, inl (given, refl, cached))
          | inr given ↦ (refl, inr (given, sym cached))
        ]

    download_schema-written :
        (fetch : String → Option (String × String)) (ref schema_data meta_data : String)
        → fetch ref ≡ some (schema_data, meta_data)
        → download_schema is_version lower strip fetch ref
          ≡ some (written ref schema_data meta_data)
    unfolding download_schema
    download_schema-written fetch ref schema_data meta_data e = ground (arith, e)

    download_schema-IsReady :
        (fetch : String → Option (String × String)) (version : Option String) (after : SchemaDir)
        → strip (resolve_ref is_version lower version <> "\n")
          ≡ resolve_ref is_version lower version
        → download_schema is_version lower strip fetch (resolve_ref is_version lower version)
          ≡ some after
        → IsReady version after (some (resolve_ref is_version lower version))
    download_schema-IsReady fetch version after strips h =
        go (fetch (resolve_ref is_version lower version)) refl
      where
        go :
            (o : Option (String × String))
            → fetch (resolve_ref is_version lower version) ≡ o
            → IsReady version after (some (resolve_ref is_version lower version))
        go none e = unfold download_schema in absurd (ground (arith, h, e))
        go (some (schema_data, meta_data)) e =
            let found =
              download_schema-written fetch (resolve_ref is_version lower version) schema_data
                meta_data e in
            let same = some-injective _ _ (sym found ∙ h) in
            subst (λ d. IsReady version d (some (resolve_ref is_version lower version))) same
              (written-IsReady version schema_data meta_data strips)

    kept-IsReady :
        (args : Options) (version : Option String) (dir : SchemaDir)
        → args.env_override ≡ none
        → args.no_download ≡ false
        → should_download is_version lower strip args version dir ≡ false
        → IsReady version dir (
            if is_given version
            then some (resolve_ref is_version lower version)
            else cached_ref is_version lower strip dir)
          × ((is_given version ≡ false) ⊎ (args.force ≡ false))
    kept-IsReady args version dir free may keeps = go (is_given version) refl
      where
        go :
            (b : Bool)
            → is_given version ≡ b
            → IsReady version dir (
                if is_given version
                then some (resolve_ref is_version lower version)
                else cached_ref is_version lower strip dir)
              × ((is_given version ≡ false) ⊎ (args.force ≡ false))
        go true given = unfold should_download in ground (arith, free, may, keeps, given)
        go false given = unfold should_download in ground (arith, free, may, keeps, given)

    main_downloads :
        (fetch : String → Option (String × String)) (args : Options) (version : Option String)
        (dir after : SchemaDir)
        → should_download is_version lower strip args version dir ≡ true
        → download_schema is_version lower strip fetch (resolve_ref is_version lower version)
          ≡ some after
        → has_files is_version lower strip after ≡ true
        → main is_version lower strip fetch args version dir
          ≡ some (after, some (resolve_ref is_version lower version))
    main_downloads fetch args version dir after does found there =
        unfold main in rw (does, found, there) refl

    main_fails :
        (fetch : String → Option (String × String)) (args : Options) (version : Option String)
        (dir : SchemaDir)
        → should_download is_version lower strip args version dir ≡ true
        → download_schema is_version lower strip fetch (resolve_ref is_version lower version) ≡ none
        → main is_version lower strip fetch args version dir ≡ none
    main_fails fetch args version dir does found = unfold main in rw (does, found) refl

    main_keeps :
        (fetch : String → Option (String × String)) (args : Options) (version : Option String)
        (dir : SchemaDir)
        → should_download is_version lower strip args version dir ≡ false
        → has_files is_version lower strip dir ≡ true
        → main is_version lower strip fetch args version dir
          ≡ some (
            dir,
            if is_given version
                then some (resolve_ref is_version lower version)
                else cached_ref is_version lower strip dir,
          )
    main_keeps fetch args version dir keeps there = unfold main in rw (keeps, there) refl

    -- What a run comes to: the directory is ready, and what `--force` fetches anew is what it holds.
    abbrev pub RunLeaves :
        (String → Option (String × String))
        → Options
        → Option String
        → SchemaDir × Option String
        → Type 0
    RunLeaves fetch args version p =
        IsReady version p.0 p.1
        × ((is_given version ≡ false)
            ⊎ (args.force ≡ false)
            ⊎ (download_schema is_version lower strip fetch (resolve_ref is_version lower version)
                ≡ some p.0))

    main-RunLeaves :
        (fetch : String → Option (String × String)) (args : Options) (version : Option String)
        (dir after : SchemaDir) (ref : Option String)
        → args.env_override ≡ none
        → args.no_download ≡ false
        → strip (resolve_ref is_version lower version <> "\n")
          ≡ resolve_ref is_version lower version
        → main is_version lower strip fetch args version dir ≡ some (after, ref)
        → RunLeaves fetch args version (after, ref)
    main-RunLeaves fetch args version dir after ref free may strips h =
        elim (Bool-cases (should_download is_version lower strip args version dir)) [
          | inl does ↦
              fetched does
                (download_schema is_version lower strip fetch
                  (resolve_ref is_version lower version))
                refl
          | inr keeps ↦
              let (ready, why) = kept-IsReady args version dir free may keeps in
              subst (RunLeaves fetch args version)
                (some-injective _ _ (sym (main_keeps fetch args version dir keeps ready.0) ∙ h))
                (ready, elim why [ inl g ↦ inl g | inr f ↦ inr (inl f) ])
        ]
      where
        fetched :
            should_download is_version lower strip args version dir ≡ true
            → (o : Option SchemaDir)
            → download_schema is_version lower strip fetch (resolve_ref is_version lower version)
              ≡ o
            → RunLeaves fetch args version (after, ref)
        fetched does none e =
            absurd (none-ne-some _ (sym (main_fails fetch args version dir does e) ∙ h))
        fetched does (some d) e =
            let ready = download_schema-IsReady fetch version d strips e in
            subst (RunLeaves fetch args version)
              (some-injective _ _
                (sym (main_downloads fetch args version dir d does e ready.0) ∙ h))
              (ready, inr (inr e))

    -- If a run of the generator, with neither the environment's override nor `--no-download` and with a
    -- ref that `strip` gives back from its line of the VERSION file, does not exit, then: the two
    -- files are there; with a version, the reported and the cached ref are the one that
    -- the version stands for, and with `--force` the directory is what the fetch of this ref wrote; without
    -- a version, the reported ref is the cached one; and another run without `--force`, whatever its
    -- fetches give, leaves the directory as it is and reports the same ref.
    pub main_again :
        (fetch fetch' : String → Option (String × String)) (args : Options)
        (version : Option String) (dir after : SchemaDir) (ref : Option String)
        → args.env_override ≡ none
        → args.no_download ≡ false
        → strip (resolve_ref is_version lower version <> "\n")
          ≡ resolve_ref is_version lower version
        → main is_version lower strip fetch args version dir ≡ some (after, ref)
        → RunLeaves fetch args version (after, ref)
          × (main is_version lower strip fetch' (record args { force = false }) version after
              ≡ some (after, ref))
          × (starts_with "refs/" (resolve_ref is_version lower version) ≡ true)
          × (resolve_ref is_version lower (some (resolve_ref is_version lower version))
              ≡ resolve_ref is_version lower version)
    main_again fetch fetch' args version dir after ref free may strips h =
        let leaves = main-RunLeaves fetch args version dir after ref free may strips h in
        (
          leaves,
          main-IsReady fetch' args version after ref free leaves.0,
          resolve_ref-refs is_version lower version,
          resolve_ref_again is_version lower version,
        )
