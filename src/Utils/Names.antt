-- ===== src/Utils/Names.antt =====
-- `to_camel_case`, and the way back in `BaseModel.__getattr__` of src/acp/schema.py. A name is the
-- list of its codes, and letters are those of ASCII.
use Prim.Native.Nat.{compare, Ordering}
use agent_client_protocol_py.Base.{
  ◌≡◌, refl, ap, ◌∙◌, ℕ, nat_eq, ◌+◌, ◌-◌, Bool, true, false, ◌&&◌, ◌||◌, List, [], ◌∷◌, ◌++◌, map,
  arith, ◌==◌, if◌then◌else◌,
}
use agent_client_protocol_py.Base.Lists.{All}

abbrev between : ℕ → ℕ → ℕ → Bool
between low high c = elim (compare low c) [
  | Ordering.gt ↦ false
  | _ ↦ elim (compare c high) [ Ordering.gt ↦ false | _ ↦ true ]
]

unfoldable pub is_upper : ℕ → Bool
is_upper = between 65 90

unfoldable pub is_lower : ℕ → Bool
is_lower = between 97 122

unfoldable pub upper : ℕ → ℕ
unfolding is_lower
upper c = if is_lower c then c - 32 else c

unfoldable pub lower : ℕ → ℕ
unfolding is_upper
lower c = if is_upper c then c + 32 else c

abbrev pub underscore : ℕ
underscore = 95

-- `s.split("_")`: the first part, and the others.
unfoldable pub split : List ℕ → List ℕ × List (List ℕ)
split [] = ([], [])
split (c ∷ s) =
    let (part, parts) = split s in if c == underscore then ([], part ∷ parts) else (c ∷ part, parts)

-- `str.title`, after a letter or not: the first letter of a run is large, the others are small.
unfoldable pub title_from : Bool → List ℕ → List ℕ
unfolding upper lower
title_from cased [] = []
title_from cased (c ∷ s) =
    let letter = is_upper c || is_lower c in
    (if letter then (if cased then lower c else upper c) else c) ∷ title_from letter s

unfoldable pub join : List (List ℕ) → List ℕ
join [] = []
join (part ∷ parts) = part ++ join parts

unfoldable pub to_camel_case : List ℕ → List ℕ
unfolding split title_from join
to_camel_case snake_str =
    let (first, others) = split snake_str in first ++ join (map (title_from false) others)

-- The loop of `__getattr__`, from the first letter or a later one.
unfoldable pub snake_from : Bool → List ℕ → List ℕ
unfolding lower
snake_from later [] = []
snake_from later (c ∷ item) =
    let rest = snake_from true item in
    if is_upper c && later then underscore ∷ lower c ∷ rest else lower c ∷ rest

unfoldable pub snake_cased : List ℕ → List ℕ
unfolding snake_from
snake_cased item = snake_from false item

-- A word of small letters.
abbrev pub IsWord : List ℕ → Type 0
IsWord w = All (λ c. is_lower c ≡ true) w

abbrev pub IsNonempty : List ℕ → Type 0
IsNonempty [] = ⊥
IsNonempty (c ∷ w) = Unit

-- Words behind underscores.
abbrev pub behind : List (List ℕ) → List ℕ
behind [] = []
behind (w ∷ ws) = underscore ∷ w ++ behind ws

small :
    (c : ℕ) → is_lower c ≡ true → (is_upper c ≡ false) × (lower c ≡ c) × ((c == underscore) ≡ false)
unfolding is_upper is_lower lower
small c h = (ground (arith, h), ground (arith, h), ground (arith, h))

capital : (c : ℕ) → is_lower c ≡ true → (is_upper (upper c) ≡ true) × (upper c + 32 ≡ c)
unfolding is_upper is_lower upper lower
capital c h = (ground (arith, h), ground (arith, h))

split-behind :
    (w : List ℕ) (ws : List (List ℕ)) → IsWord w → All IsWord ws → split (w ++ behind ws) ≡ (w, ws)
unfolding split nat_eq
split-behind [] [] h hs = refl
split-behind [] (v ∷ vs) h (hv, hs) = rw (split-behind v vs hv hs) refl
split-behind (c ∷ w) ws (hc, h) hs =
    let (_, _, no_mark) = small c hc in rw (split-behind w ws h hs, no_mark) refl

title_from-word : (w : List ℕ) → IsWord w → title_from true w ≡ w
unfolding title_from
title_from-word [] h = refl
title_from-word (c ∷ w) (hc, h) =
    let (not_large, _, _) = small c hc in rw (title_from, not_large, hc, title_from-word w h) refl

snake_from-word :
    (w rest : List ℕ) → IsWord w → snake_from true (w ++ rest) ≡ w ++ snake_from true rest
unfolding snake_from
snake_from-word [] rest h = refl
snake_from-word (c ∷ w) rest (hc, h) =
    let (not_large, _, _) = small c hc in rw (not_large, snake_from-word w rest h) refl

title_from-capital :
    (c : ℕ) (w : List ℕ) → is_lower c ≡ true → IsWord w → title_from false (c ∷ w) ≡ upper c ∷ w
unfolding title_from
title_from-capital c w hc h =
    let (not_large, _, _) = small c hc in rw (title_from, not_large, hc, title_from-word w h) refl

snake_from-capital :
    (c : ℕ) (rest : List ℕ)
    → is_lower c ≡ true
    → snake_from true (upper c ∷ rest) ≡ underscore ∷ c ∷ snake_from true rest
unfolding snake_from
snake_from-capital c rest hc = let (large, back) = capital c hc in rw (snake_from, large, back) refl

snake_from-titles :
    (ws : List (List ℕ))
    → All IsWord ws
    → All IsNonempty ws
    → snake_from true (join (map (title_from false) ws)) ≡ behind ws
unfolding join
snake_from-titles [] h ne = unfold snake_from in refl
snake_from-titles ((c ∷ w) ∷ ws) ((hc, h), hs) (_, ne) =
    ap (λ t. snake_from true (t ++ join (map (title_from false) ws))) (title_from-capital c w hc h)
    ∙ snake_from-capital c (w ++ join (map (title_from false) ws)) hc
    ∙ ap (λ s. underscore ∷ c ∷ s)
        (snake_from-word w (join (map (title_from false) ws)) h
          ∙ ap (λ s. w ++ s) (snake_from-titles ws hs ne))
snake_from-titles ([] ∷ ws) (h, hs) (e, ne) = absurd e

-- A name of small letters in words, none empty, comes back from its camel case: what
-- `BaseModel.__getattr__` looks up for `toCamelCase` is `to_camel_case`.
pub snake_cased-to_camel_case :
    (c : ℕ) (w : List ℕ) (ws : List (List ℕ))
    → is_lower c ≡ true
    → IsWord w
    → All IsWord ws
    → All IsNonempty ws
    → snake_cased (to_camel_case ((c ∷ w) ++ behind ws)) ≡ (c ∷ w) ++ behind ws
unfolding to_camel_case snake_cased
snake_cased-to_camel_case c w ws hc h hs ne =
    ap (λ p. snake_from false (p.0 ++ join (map (title_from false) p.1)))
      (split-behind (c ∷ w) ws (hc, h) hs)
    ∙ first_letter
    ∙ ap (λ s. c ∷ s)
        (snake_from-word w (join (map (title_from false) ws)) h
          ∙ ap (λ s. w ++ s) (snake_from-titles ws hs ne))
  where
    first_letter :
        snake_from false ((c ∷ w) ++ join (map (title_from false) ws))
        ≡ c ∷ snake_from true (w ++ join (map (title_from false) ws))
    first_letter = let (not_large, _, _) = small c hc in unfold snake_from in rw (not_large) refl
