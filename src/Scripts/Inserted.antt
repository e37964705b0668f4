-- ===== src/Scripts/Inserted.antt =====
-- What the comments do to the text: nothing but that they are there.
use agent_client_protocol_py.Base.{
  ◌≡◌, refl, subst, ap, ℕ, zero, suc, ◌≤◌, nat_eq, String, Bool, true, false, not, ◌&&◌, Option,
  none, some, List, [], ◌∷◌, ◌++◌, map, if◌then◌else◌, ◌==◌, arith,
}
use agent_client_protocol_py.Base.Lists.{length}
use agent_client_protocol_py.Scripts.Comments.{
  comment_line, collect_rest, collect_field_block, comment_lines, add_comments,
  add_description_comments, blank, leb, indent_of, lstrip, declares,
}

-- `out` is `lines` with comment lines put in.
pub data Commented : List String → List String → Type 0 where
  ends : Commented [] []
  keeps :
      {lines out : List String} (line : String)
      → Commented lines out
      → Commented (line ∷ lines) (line ∷ out)
  comments :
      {lines out : List String} (text : String)
      → Commented lines out
      → Commented lines (comment_line text ∷ out)

comments_all :
    (texts : List String) {lines out : List String}
    → Commented lines out
    → Commented lines (map comment_line texts ++ out)
comments_all [] h = h
comments_all (text ∷ texts) h = comments text (comments_all texts h)

keeps_all :
    (block : List String) {lines out : List String}
    → Commented lines out
    → Commented (block ++ lines) (block ++ out)
keeps_all [] h = h
keeps_all (line ∷ block) h = keeps line (keeps_all block h)

comments_of :
    (texts : Option (List String)) {lines out : List String}
    → Commented lines out
    → Commented lines (comment_lines texts ++ out)
comments_of none h = h
comments_of (some texts) h = comments_all texts h

abbrev split_of :
    Bool → String → List String → List String → List String → List String × List String
split_of stops line lines block rest = if stops then ([], line ∷ lines) else (line ∷ block, rest)

-- A block and the lines after it are the lines, whichever way the test goes.
split_of-append :
    (stops : Bool) (line : String) (lines block rest : List String)
    → block ++ rest ≡ lines
    → length rest ≤ length lines
    → ((split_of stops line lines block rest).0 ++ (split_of stops line lines block rest).1
        ≡ line ∷ lines)
      × (length (split_of stops line lines block rest).1 ≤ suc (length lines))
split_of-append true line lines block rest same shorter = (refl, omega arith)
split_of-append false line lines block rest same shorter =
    (ap (λ ls. line ∷ ls) same, omega (arith, shorter))

abbrev Added : List String → Option (List String) → Type 0
Added lines r = (out : List String) × (r ≡ some out) × Commented lines out

branch-Added :
    (b : Bool) (lines : List String) (r s : Option (List String))
    → Added lines r
    → Added lines s
    → Added lines (if b then r else s)
branch-Added true lines r s h k = h
branch-Added false lines r s h k = k

add_line :
    (line : String) (lines : List String) (after : Option (List String))
    → Added lines after
    → Added (line ∷ lines) (elim after [ none ↦ none | some out ↦ some (line ∷ out) ])
add_line line lines after (out, e, h) = (line ∷ out, rw e refl, keeps line h)

add_block :
    (block lines rest : List String) (texts : Option (List String)) (after : Option (List String))
    → block ++ rest ≡ lines
    → Added rest after
    → Added lines
        (elim after [ none ↦ none | some out ↦ some (comment_lines texts ++ (block ++ out)) ])
add_block block lines rest texts after same (out, e, h) = (
  comment_lines texts ++ (block ++ out),
  rw e refl,
  subst (λ ls. Commented ls (comment_lines texts ++ (block ++ out))) same
      (comments_of texts (keeps_all block h)),
)

module _ (description : List String → Option (List String)) where
  collect_rest-append :
      (indent : ℕ) (lines : List String)
      → ((collect_rest description indent lines).0 ++ (collect_rest description indent lines).1
          ≡ lines)
        × (length (collect_rest description indent lines).1 ≤ length lines)
  unfolding collect_rest
  collect_rest-append indent [] = (refl, omega arith)
  collect_rest-append indent (line ∷ lines) =
      let (same, shorter) = collect_rest-append indent lines in
      split_of-append (not (blank line) && leb (indent_of line) indent) line lines
        (collect_rest description indent lines).0 (collect_rest description indent lines).1 same
        shorter

  add_comments-Added :
      (fuel : ℕ) (lines : List String)
      → length lines ≤ fuel
      → Added lines (add_comments description fuel lines)
  unfolding add_comments collect_field_block
  add_comments-Added zero [] enough = ([], refl, ends)
  add_comments-Added (suc fuel) [] enough = ([], refl, ends)
  add_comments-Added zero (line ∷ lines) enough = absurd (omega arith)
  add_comments-Added (suc fuel) (line ∷ lines) enough =
      let (same, shorter) = collect_rest-append 4 lines in
      branch-Added (indent_of line == 4 && declares (lstrip line)) (line ∷ lines) _ _
        (add_block (line ∷ (collect_rest description 4 lines).0) (line ∷ lines)
          (collect_rest description 4 lines).1
          (description (line ∷ (collect_rest description 4 lines).0))
          (add_comments description fuel (collect_rest description 4 lines).1)
          (ap (λ ls. line ∷ ls) same)
          (add_comments-Added fuel (collect_rest description 4 lines).1 (omega (arith, shorter))))
        (add_line line lines (add_comments description fuel lines)
          (add_comments-Added fuel lines (omega arith)))

  -- The loop ends, after as many rounds as there are lines at most, and what it returns is the lines
  -- with comment lines put in: no line is lost, changed or moved, whatever the descriptions are.
  pub add_description_comments-Commented :
      (lines : List String)
      → (out : List String) × (add_description_comments description lines ≡ some out)
        × Commented lines out
  unfolding add_description_comments
  add_description_comments-Commented lines = add_comments-Added (length lines) lines (omega arith)
