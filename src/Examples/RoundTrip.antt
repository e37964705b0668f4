-- ===== src/Examples/RoundTrip.antt =====
-- The lines of a text, and the text of lines.
use Prim.Native.String.append
use Prim.Native.Char.{Char, code}
use agent_client_protocol_py.Base.{
  ◌≡◌, refl, ap, ◌∙◌, ℕ, nat_eq, zero, suc, String, ◌<>◌, Bool, true, false, not, ◌&&◌, Option,
  List, [], ◌∷◌, arith, if◌then◌else◌,
}
use agent_client_protocol_py.Base.Lists.{All, pair}
use agent_client_protocol_py.Examples.Lines.{
  take, drop, is_break, in_front, skips_feed, splitlines, join, slice_lines, slice_text, start_of,
  end_of,
}

abbrev unbroken : String → Bool
unbroken String.[] = true
unbroken (String.◌∷◌ c s) = not (is_break (code c)) && unbroken s

abbrev IsLine : String → Type 0
IsLine s = unbroken s ≡ true

-- Whether the last line is empty.
abbrev pub ends_blank : List String → Bool
ends_blank [] = false
ends_blank (String.[] ∷ []) = true
ends_blank (String.◌∷◌ c s ∷ []) = false
ends_blank (line ∷ next ∷ rest) = ends_blank (next ∷ rest)

unbroken_no_return : (c d : ℕ) → is_break c ≡ false → skips_feed c d ≡ false
unfolding is_break skips_feed
unbroken_no_return c d h = ground (arith, h)

splitlines-cons :
    (c : Char) (s : String)
    → is_break (code c) ≡ false
    → splitlines (String.◌∷◌ c s) ≡ in_front c (splitlines s)
unfolding splitlines
splitlines-cons c String.[] h = rw h refl
splitlines-cons c (String.◌∷◌ d rest) h =
    rw (splitlines, unbroken_no_return (code c) (code d) h, h) refl

splitlines_feed : (s : String) → splitlines ("\n" <> s) ≡ "" ∷ splitlines s
unfolding splitlines is_break skips_feed nat_eq
splitlines_feed String.[] = refl
splitlines_feed (String.◌∷◌ d rest) = rw (append.cons, append.nil) refl

splitlines-append :
    (line s : String) → IsLine line → splitlines (line <> ("\n" <> s)) ≡ line ∷ splitlines s
splitlines-append String.[] s h = rw append.nil (splitlines_feed s)
splitlines-append (String.◌∷◌ c line) s h =
    rw
      (
        append.cons c line,
        splitlines-cons c _ (ground (arith, h)),
        splitlines-append line s (ground (arith, h)),
      )
      refl

splitlines_line :
    (c : Char) (line : String)
    → IsLine (String.◌∷◌ c line)
    → splitlines (String.◌∷◌ c line) ≡ String.◌∷◌ c line ∷ []
splitlines_line c String.[] h =
    rw (splitlines-cons c _ (ground (arith, h))) (unfold splitlines in refl)
splitlines_line c (String.◌∷◌ d line) h =
    rw (splitlines-cons c _ (ground (arith, h)), splitlines_line d line (ground (arith, h))) refl

splitlines-join :
    (lines : List String)
    → All IsLine lines
    → ends_blank lines ≡ false
    → splitlines (join lines) ≡ lines
unfolding join splitlines
splitlines-join [] h e = refl
splitlines-join (String.[] ∷ []) h e = cc
splitlines-join (String.◌∷◌ c line ∷ []) (h, _) e = splitlines_line c line h
splitlines-join (line ∷ next ∷ rest) (h, hs) e =
    splitlines-append line (join (next ∷ rest)) h
    ∙ ap (λ ls. line ∷ ls) (splitlines-join (next ∷ rest) hs e)

in_front-IsLine :
    (c : Char) (lines : List String)
    → is_break (code c) ≡ false
    → All IsLine lines
    → All IsLine (in_front c lines)
in_front-IsLine c [] h hs = pair (ground (arith, h)) tt
in_front-IsLine c (line ∷ lines) h (own, hs) = pair (ground (arith, h, own)) hs

branch-IsLine :
    (skips breaks : Bool) (c : Char) (after lines : List String)
    → (breaks ≡ false → is_break (code c) ≡ false)
    → All IsLine after
    → All IsLine lines
    → All IsLine (if skips then "" ∷ after else if breaks then "" ∷ lines else in_front c lines)
branch-IsLine true breaks c after lines h ha hl = pair refl ha
branch-IsLine false true c after lines h ha hl = pair refl hl
branch-IsLine false false c after lines h ha hl = in_front-IsLine c lines (h refl) hl

splitlines-IsLine : (s : String) → All IsLine (splitlines s)
unfolding splitlines
splitlines-IsLine String.[] = tt
splitlines-IsLine (String.◌∷◌ c String.[]) =
    branch-IsLine false (is_break (code c)) c [] [] (λ h. h) tt tt
splitlines-IsLine (String.◌∷◌ c (String.◌∷◌ d rest)) =
    branch-IsLine (skips_feed (code c) (code d)) (is_break (code c)) c (splitlines rest)
      (splitlines (String.◌∷◌ d rest)) (λ h. h) (splitlines-IsLine rest)
      (splitlines-IsLine (String.◌∷◌ d rest))

take-IsLine : (n : ℕ) (lines : List String) → All IsLine lines → All IsLine (take n lines)
take-IsLine zero lines h = tt
take-IsLine (suc n) [] h = tt
take-IsLine (suc n) (line ∷ lines) (h, hs) = pair h (take-IsLine n lines hs)

drop-IsLine : (n : ℕ) (lines : List String) → All IsLine lines → All IsLine (drop n lines)
drop-IsLine zero lines h = h
drop-IsLine (suc n) [] h = tt
drop-IsLine (suc n) (line ∷ lines) (h, hs) = drop-IsLine n lines hs

-- The text that the client answers with has exactly the lines of the window, whatever characters
-- end the lines of the file, if the last line of the window is not empty.
pub splitlines-slice_text :
    (content : String) (line limit : Option ℕ)
    → ends_blank (slice_lines line limit (splitlines content)) ≡ false
    → splitlines (slice_text content line limit) ≡ slice_lines line limit (splitlines content)
unfolding slice_text
splitlines-slice_text content line limit e =
    splitlines-join (slice_lines line limit (splitlines content))
      (unfold slice_lines in
        drop-IsLine (start_of line) _
          (take-IsLine (end_of (start_of line) limit _) _ (splitlines-IsLine content)))
      e
