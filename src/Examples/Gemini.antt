-- ===== src/Examples/Gemini.antt =====
-- `GeminiClient` of src/examples/gemini.py: its permissions and its files. What it prints is left
-- out.
use agent_client_protocol_py.Base.{
  ℕ, zero, suc, String, Bool, true, false, not, Option, none, some, List, [], ◌∷◌, Result, ok, err,
  if◌then◌else◌, string_eq, ◌==◌,
}
use agent_client_protocol_py.Base.Lists.{get_elem?, null?}
use agent_client_protocol_py.Exceptions.{Exn}
use agent_client_protocol_py.Schema.{
  PermissionOption, PermissionOptionKind, allow_once, allow_always, reject_once, reject_always,
  RequestPermissionResponse, denied_outcome, allowed_outcome,
}
use agent_client_protocol_py.Examples.Lines.{slice_text}

pub record GeminiClient : Type 0 where
  pub auto_approve : Bool

-- `option.kind in {"allow_once", "allow_always"}`
abbrev pub allows : PermissionOptionKind → Bool
allows allow_once = true
allows allow_always = true
allows reject_once = false
allows reject_always = false

-- The loop, with `best` so far.
abbrev pub pick_from : Option PermissionOption → List PermissionOption → Option PermissionOption
pick_from best [] = best
pick_from best (option ∷ rest) =
    let later = pick_from (elim best [ none ↦ some option | some b ↦ some b ]) rest in
    if allows option.kind then some option else later

-- `_pick_preferred_option`
unfoldable pub pick_preferred_option : List PermissionOption → Option PermissionOption
pick_preferred_option options = pick_from none options

abbrev pub cancelled : RequestPermissionResponse
cancelled = record { field_meta = none; outcome = denied_outcome }

abbrev pub selected : PermissionOption → RequestPermissionResponse
selected option = record {
  field_meta = none;
  outcome = allowed_outcome (record { field_meta = none; option_id = option.option_id });
}

-- `isdigit` and `int` of a text are parameters: `int` raises for some digits. `eof` is what `input`
-- raises when its lines are over.
module _ (isdigit : String → Bool) (int : String → Result Exn ℕ) (eof : Exn) where
  -- What a choice says: `idx` is one less than the number, and 0 is no choice.
  abbrev pub chosen : List PermissionOption → ℕ → Option PermissionOption
  chosen options zero = none
  chosen options (suc idx) = get_elem? options idx

  -- `while True`, over the stripped lines of the console.
  unfoldable pub select : List PermissionOption → List String → Result Exn RequestPermissionResponse
  select options [] = err eof
  select options (choice ∷ rest) =
      let again = select options rest in
      if choice == ""
      then again
      else if isdigit choice
      then elim (int choice) [
        | err e ↦ err e
        | ok number ↦ elim (chosen options number) [
          | none ↦ again
          | some option ↦ ok (selected option)
        ]
      ]
      else again

  unfoldable pub request_permission :
      List PermissionOption → List String → GeminiClient → Result Exn RequestPermissionResponse
  unfolding pick_preferred_option select
  request_permission options choices self =
      if self.auto_approve
      then elim (pick_preferred_option options) [
        | none ↦ ok cancelled
        | some option ↦ ok (selected option)
      ]
      else if null? options
      then ok cancelled
      else select options choices

-- What a call of the client may raise: an error whose data hold a `Path`, or what the file system
-- raises.
pub data FileError : Type 0 where
  relative_path : String → FileError
  os_error : Exn → FileError

-- `Path(path).is_absolute()`, and the file system over a world.
module _ {W : Type 0} (is_absolute : String → Bool) (mkdir : String → W → Result Exn Unit × W)
    (write : String → String → W → Result Exn Unit × W)
    (read : String → W → Result Exn String × W) where
  unfoldable pub write_text_file : String → String → W → Result FileError Unit × W
  write_text_file content path w =
      if not (is_absolute path)
      then (err (relative_path path), w)
      else let (made, w1) = mkdir path w in
        let (written, w2) = write path content w1 in
        elim made [
          | err e ↦ (err (os_error e), w1)
          | ok _ ↦ elim written [ err e ↦ (err (os_error e), w2) | ok _ ↦ (ok tt, w2) ]
        ]

  -- `line is not None or limit is not None`
  abbrev pub is_window : Option ℕ → Option ℕ → Bool
  is_window none none = false
  is_window none (some n) = true
  is_window (some n) limit = true

  unfoldable pub read_text_file : String → Option ℕ → Option ℕ → W → Result FileError String × W
  unfolding slice_text
  read_text_file path limit line w =
      if not (is_absolute path)
      then (err (relative_path path), w)
      else let (found, w1) = read path w in
        elim found [
          | err e ↦ (err (os_error e), w1)
          | ok text ↦ (ok (if is_window line limit then slice_text text line limit else text), w1)
        ]
