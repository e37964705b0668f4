-- ===== src/Scripts/Comments.antt =====
-- `_add_description_comments` and `_collect_field_block` of src/scripts/gen_schema.py, on the lines
-- of the text. The description that `_extract_description` finds in a block, by a regular expression
-- and `ast.literal_eval`, is a parameter, in lines.
use Prim.Native.Char.{code}
use agent_client_protocol_py.Base.{
  ℕ, zero, suc, nat_eq, String, string_eq, ◌<>◌, Bool, true, false, ◌||◌, contains, not, ◌&&◌,
  Option, none, some, List, [], ◌∷◌, ◌++◌, map, if◌then◌else◌, ◌==◌,
}
use agent_client_protocol_py.Base.Lists.{length}

-- `f"{indent_str}# {line}"`, with no blank at the end of an empty line; the indent is 4.
abbrev pub comment_line : String → String
comment_line line = if line == "" then "    #" else "    # " <> line

abbrev pub leb : ℕ → ℕ → Bool
leb zero n = true
leb (suc m) zero = false
leb (suc m) (suc n) = leb m n

abbrev between : ℕ → ℕ → ℕ → Bool
between low high n = leb low n && leb n high

-- `if description:`
abbrev pub comment_lines : Option (List String) → List String
comment_lines none = []
comment_lines (some lines) = map comment_line lines

-- The characters of `str.isspace`, by number.
unfoldable pub is_space : ℕ → Bool
is_space n =
    between 9 13 n
    || between 28 32 n
    || contains (133 ∷ 160 ∷ 5760 ∷ 8232 ∷ 8233 ∷ 8239 ∷ 8287 ∷ 12288 ∷ []) n
    || between 8192 8202 n

-- `line.lstrip()`, and `len(line) - len(line.lstrip())`
unfoldable pub lstrip : String → String
unfolding is_space
lstrip String.[] = ""
lstrip (String.◌∷◌ c rest) =
    let stripped = lstrip rest in if is_space (code c) then stripped else String.◌∷◌ c rest

unfoldable pub indent_of : String → ℕ
unfolding is_space
indent_of String.[] = 0
indent_of (String.◌∷◌ c rest) =
    let further = indent_of rest in if is_space (code c) then suc further else 0

-- `not line.strip()`
abbrev pub blank : String → Bool
blank line = lstrip line == ""

-- `[A-Za-z_]`, and that with digits.
abbrev starts_name : ℕ → Bool
starts_name n = between 65 90 n || between 97 122 n || n == 95

abbrev in_name : ℕ → Bool
in_name n = starts_name n || between 48 57 n

-- `\s*:`
unfoldable pub colon_follows : String → Bool
unfolding is_space
colon_follows String.[] = false
colon_follows (String.◌∷◌ c rest) =
    let later = colon_follows rest in if is_space (code c) then later else code c == 58

-- `[A-Za-z0-9_]*\s*:`
unfoldable pub name_ends : String → Bool
unfolding colon_follows
name_ends String.[] = false
name_ends (String.◌∷◌ c rest) =
    let longer = name_ends rest in
    let ends = colon_follows (String.◌∷◌ c rest) in if in_name (code c) then longer else ends

-- `FIELD_DECLARATION_PATTERN.match(stripped)`
unfoldable pub declares : String → Bool
unfolding name_ends
declares String.[] = false
declares (String.◌∷◌ c rest) = starts_name (code c) && name_ends rest

module _ (description : List String → Option (List String)) where
  -- The rest of a block: the lines up to the first that is not blank and indented no further, and
  -- the lines from there.
  unfoldable pub collect_rest : ℕ → List String → List String × List String
  unfolding indent_of lstrip
  collect_rest indent [] = ([], [])
  collect_rest indent (line ∷ lines) =
      let (block, rest) = collect_rest indent lines in
      if not (blank line) && leb (indent_of line) indent
      then ([], line ∷ lines)
      else (line ∷ block, rest)

  -- `_collect_field_block`, from the line at which it starts: the block and the lines after it.
  unfoldable pub collect_field_block : ℕ → String → List String → List String × List String
  unfolding collect_rest
  collect_field_block indent line lines =
      let (block, rest) = collect_rest indent lines in (line ∷ block, rest)

  -- The loop, with a bound on its rounds: `none` where it runs out.
  unfoldable pub add_comments : ℕ → List String → Option (List String)
  unfolding collect_field_block indent_of lstrip declares
  add_comments fuel [] = some []
  add_comments zero (line ∷ lines) = none
  add_comments (suc fuel) (line ∷ lines) =
      let (block, rest) = collect_field_block 4 line lines in
      let after_block = add_comments fuel rest in
      let after_line = add_comments fuel lines in
      if indent_of line == 4 && declares (lstrip line)
      then elim after_block [
        | none ↦ none
        | some out ↦ some (comment_lines (description block) ++ (block ++ out))
      ]
      else elim after_line [ none ↦ none | some out ↦ some (line ∷ out) ]

  -- `_add_description_comments`: one round to each line at most.
  unfoldable pub add_description_comments : List String → Option (List String)
  unfolding add_comments
  add_description_comments lines = add_comments (length lines) lines
