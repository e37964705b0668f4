-- ===== src/Examples/Permission.antt =====
-- What the client of the Gemini CLI answers to a request for permission.
use agent_client_protocol_py.Base.{
  ◌≡◌, ◌≢◌, refl, subst, ℕ, zero, suc, String, string_eq, Bool, true, false, Option, none, some,
  List, [], ◌∷◌, Result, ok, err, arith, if◌then◌else◌, ◌==◌, Bool-cases, ◌⊎◌, inl, inr,
}
use agent_client_protocol_py.Base.Lists.{get_elem?}
use agent_client_protocol_py.Exceptions.{Exn}
use agent_client_protocol_py.Schema.{PermissionOption, RequestPermissionResponse}
use agent_client_protocol_py.Examples.Gemini.{
  GeminiClient, allows, pick_from, pick_preferred_option, cancelled, selected, chosen, select,
  request_permission,
}

-- The first option that allows, and else the first option.
abbrev first_allowing : List PermissionOption → Option PermissionOption
first_allowing [] = none
first_allowing (option ∷ rest) = if allows option.kind then some option else first_allowing rest

abbrev or_else : Option PermissionOption → Option PermissionOption → Option PermissionOption
or_else none other = other
or_else (some option) other = some option

abbrev first_option : List PermissionOption → Option PermissionOption
first_option [] = none
first_option (option ∷ rest) = some option

pick_from-or_else :
    (best : PermissionOption) (options : List PermissionOption)
    → pick_from (some best) options ≡ or_else (first_allowing options) (some best)
pick_from-or_else best [] = refl
pick_from-or_else best (option ∷ rest) = ground (arith, pick_from-or_else best rest)

pub pick_preferred_option-or_else :
    (options : List PermissionOption)
    → pick_preferred_option options ≡ or_else (first_allowing options) (first_option options)
unfolding pick_preferred_option
pick_preferred_option-or_else [] = refl
pick_preferred_option-or_else (option ∷ rest) = ground (arith, pick_from-or_else option rest)

-- A denial, where nothing is offered, or one of the offered options.
pub data Answers (options : List PermissionOption) : RequestPermissionResponse → Type 0 where
  denies : options ≡ [] → Answers options cancelled
  picks :
      (i : ℕ) (option : PermissionOption)
      → get_elem? options i ≡ some option
      → Answers options (selected option)

first_allowing-offered :
    (options : List PermissionOption) (option : PermissionOption)
    → first_allowing options ≡ some option
    → (i : ℕ) × (get_elem? options i ≡ some option)
first_allowing-offered [] option h = cc
first_allowing-offered (o ∷ rest) option h = elim (Bool-cases (allows o.kind)) [
  | inl yes_allows ↦ (0, ground (arith, h))
  | inr no_allows ↦
      let (i, there) = first_allowing-offered rest option (ground (arith, h)) in (suc i, there)
]

or_else-cases :
    (a b : Option PermissionOption) (option : PermissionOption)
    → or_else a b ≡ some option
    → (a ≡ some option) ⊎ (b ≡ some option)
or_else-cases none b option h = inr h
or_else-cases (some a) b option h = inl h

pick-offered :
    (options : List PermissionOption) (option : PermissionOption)
    → pick_preferred_option options ≡ some option
    → (i : ℕ) × (get_elem? options i ≡ some option)
pick-offered [] option h = unfold pick_preferred_option in cc
pick-offered (o ∷ rest) option h =
    elim (or_else-cases _ _ option (rw (pick_preferred_option-or_else (o ∷ rest)) at h)) [
      | inl allowed ↦ first_allowing-offered (o ∷ rest) option allowed
      | inr first ↦ (0, first)
    ]

pick_preferred_option-none :
    (options : List PermissionOption) → pick_preferred_option options ≡ none → options ≡ []
pick_preferred_option-none [] h = refl
pick_preferred_option-none (o ∷ rest) h =
    absurd (no_none _ o (rw (pick_preferred_option-or_else (o ∷ rest)) at h))
  where
    no_none : (a : Option PermissionOption) (b : PermissionOption) → or_else a (some b) ≢ none
    no_none none b e = cc
    no_none (some a) b e = cc

ok-same :
    (a r : RequestPermissionResponse)
    → ◌≡◌ {A = Result Exn RequestPermissionResponse} (ok a) (ok r)
    → a ≡ r
ok-same a r h = cc

module _ (isdigit : String → Bool) (int : String → Result Exn ℕ) (eof : Exn) where
  choice-Answers :
      (options : List PermissionOption) (again : Result Exn RequestPermissionResponse)
      (blank digit : Bool) (number : Result Exn ℕ) (r : RequestPermissionResponse)
      → (again ≡ ok r → Answers options r)
      → (if blank
          then again
          else if digit
          then elim number [
            | err e ↦ err e
            | ok n ↦ elim (chosen isdigit int eof options n) [
              | none ↦ again
              | some option ↦ ok (selected option)
            ]
          ]
          else again)
        ≡ ok r
      → Answers options r
  choice-Answers options again true digit number r later h = later h
  choice-Answers options again false false number r later h = later h
  choice-Answers options again false true (err e) r later h = cc
  choice-Answers options again false true (ok zero) r later h = later h
  choice-Answers options again false true (ok (suc i)) r later h = go (get_elem? options i) refl
    where
      go : (o : Option PermissionOption) → get_elem? options i ≡ o → Answers options r
      go none e = later (ground (arith, h, e))
      go (some option) e =
          subst (Answers options) (ok-same (selected option) r (ground (arith, h, e)))
            (picks i option e)

  select-Answers :
      (options : List PermissionOption) (choices : List String) (r : RequestPermissionResponse)
      → select isdigit int eof options choices ≡ ok r
      → Answers options r
  unfolding select
  select-Answers options [] r h = cc
  select-Answers options (choice ∷ rest) r h =
      choice-Answers options (select isdigit int eof options rest) (choice == "") (isdigit choice)
        (int choice) r (select-Answers options rest r) h

  -- Whatever is typed at the console, an answer of the client is the selection of one of the options
  -- that were offered, or a denial if none was.
  pub request_permission-Answers :
      (options : List PermissionOption) (choices : List String) (self : GeminiClient)
      (r : RequestPermissionResponse)
      → request_permission isdigit int eof options choices self ≡ ok r
      → Answers options r
  unfolding request_permission
  request_permission-Answers options choices self r h = elim (Bool-cases self.auto_approve) [
    | inl auto ↦ approved auto (pick_preferred_option options) refl
    | inr manual ↦ typed manual options refl
  ]
    where
      approved :
          self.auto_approve ≡ true
          → (o : Option PermissionOption) → pick_preferred_option options ≡ o
          → Answers options r
      approved auto none e =
          subst (Answers options) (ok-same cancelled r (ground (arith, h, e, auto)))
            (denies (pick_preferred_option-none options e))
      approved auto (some option) e =
          let (i, there) = pick-offered options option e in
          subst (Answers options) (ok-same (selected option) r (ground (arith, h, e, auto)))
            (picks i option there)

      typed :
          self.auto_approve ≡ false
          → (os : List PermissionOption) → options ≡ os
          → Answers options r
      typed manual [] e =
          subst (Answers options) (ok-same cancelled r (rw (e, manual) at h)) (denies e)
      typed manual (o ∷ os) e = select-Answers options choices r (rw e (rw (e, manual) at h))
