-- ===== src/Examples/Lines.antt =====
-- `_slice_text` of src/examples/gemini.py, with the `splitlines` of a text. The numbers are those
-- that a request can hold, which are not negative.
use Prim.Native.Nat.{min}
use Prim.Native.Char.{Char, code}
use agent_client_protocol_py.Base.{
  ℕ, nat_eq, zero, suc, ◌+◌, ◌-◌, String, ◌<>◌, Bool, ◌&&◌, Option, none, some, List, [], ◌∷◌,
  contains, ◌==◌, if◌then◌else◌,
}
use agent_client_protocol_py.Base.Lists.{length}

module _ {ℓ} {A : Type ℓ} where
  abbrev pub take : ℕ → List A → List A
  take zero xs = []
  take (suc n) [] = []
  take (suc n) (x ∷ xs) = x ∷ take n xs

  abbrev pub drop : ℕ → List A → List A
  drop zero xs = xs
  drop (suc n) [] = []
  drop (suc n) (x ∷ xs) = drop n xs

-- The characters that end a line, by number.
unfoldable pub is_break : ℕ → Bool
is_break n = contains (10 ∷ 11 ∷ 12 ∷ 13 ∷ 28 ∷ 29 ∷ 30 ∷ 133 ∷ 8232 ∷ 8233 ∷ []) n

abbrev pub in_front : Char → List String → List String
in_front c [] = String.◌∷◌ c String.[] ∷ []
in_front c (line ∷ lines) = String.◌∷◌ c line ∷ lines

-- The text after a line feed, if it begins with one and a carriage return came before.
unfoldable pub skips_feed : ℕ → ℕ → Bool
skips_feed c d = c == 13 && d == 10

-- `content.splitlines()`
unfoldable pub splitlines : String → List String
unfolding is_break skips_feed
splitlines String.[] = []
splitlines (String.◌∷◌ c String.[]) = if is_break (code c) then "" ∷ [] else in_front c []
splitlines (String.◌∷◌ c (String.◌∷◌ d rest)) =
    let lines = splitlines (String.◌∷◌ d rest) in
    let after = splitlines rest in
    if skips_feed (code c) (code d)
    then "" ∷ after
    else if is_break (code c)
    then "" ∷ lines
    else in_front c lines

-- `"\n".join(lines)`
unfoldable pub join : List String → String
join [] = ""
join (line ∷ []) = line
join (line ∷ next ∷ rest) = line <> ("\n" <> join (next ∷ rest))

-- `if line: start = max(line - 1, 0)`
abbrev pub start_of : Option ℕ → ℕ
start_of none = 0
start_of (some line) = line - 1

-- `if limit: end = min(start + limit, end)`: a limit of 0 is none.
abbrev pub end_of : ℕ → Option ℕ → ℕ → ℕ
end_of start none end = end
end_of start (some zero) end = end
end_of start (some (suc n)) end = min (start + suc n) end

-- `lines[start:end]`
unfoldable pub slice_lines : Option ℕ → Option ℕ → List String → List String
slice_lines line limit lines =
    drop (start_of line) (take (end_of (start_of line) limit (length lines)) lines)

unfoldable pub slice_text : String → Option ℕ → Option ℕ → String
unfolding splitlines join slice_lines
slice_text content line limit = join (slice_lines line limit (splitlines content))
