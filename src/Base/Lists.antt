-- ===== src/Base/Lists.antt =====
-- Lists over the native numbers, in Python's words.
use agent_client_protocol_py.Base.{
  ◌≡◌, ◌≢◌, ◌⊎◌, inl, inr, ap, refl, ℕ, suc, zero, ◌+◌, Bool, true, false, Option, none, some, List,
  [], ◌∷◌, ◌++◌, arith, Eq, ◌==◌, if◌then◌else◌,
}

abbrev pub null? {ℓ} : {A : Type ℓ} → List A → Bool
null? [] = true
null? (x ∷ xs) = false

abbrev pub All {ℓ κ} : {A : Type ℓ} → (A → Type κ) → List A → Type κ
All P [] = Unit
All P (x ∷ xs) = P x × All P xs

abbrev pub pair {ℓ} : {A B : Type ℓ} → A → B → A × B
pair a b = (a, b)

pub eq-none {ℓ} : {A : Type ℓ} (o : Option A) → ((a : A) → o ≢ some a) → o ≡ none
eq-none none h = refl
eq-none (some a) h = absurd (h a refl)

module _ {ℓ} {A : Type ℓ} where
  abbrev pub length : List A → ℕ
  length [] = 0
  length (x ∷ xs) = suc (length xs)

  abbrev pub get_elem? : List A → ℕ → Option A
  get_elem? [] i = none
  get_elem? (x ∷ xs) zero = some x
  get_elem? (x ∷ xs) (suc i) = get_elem? xs i

  abbrev pub set : List A → ℕ → A → List A
  set [] i v = []
  set (x ∷ xs) zero v = v ∷ xs
  set (x ∷ xs) (suc i) v = x ∷ set xs i v

  abbrev pub drop_at : ℕ → List A → List A
  drop_at i [] = []
  drop_at zero (x ∷ xs) = xs
  drop_at (suc i) (x ∷ xs) = x ∷ drop_at i xs

  pub length-append : (xs ys : List A) → length (xs ++ ys) ≡ length xs + length ys
  length-append [] ys = omega arith
  length-append (x ∷ xs) ys = omega (arith, length-append xs ys)

  pub length-set : (xs : List A) (i : ℕ) (v : A) → length (set xs i v) ≡ length xs
  length-set [] i v = refl
  length-set (x ∷ xs) zero v = refl
  length-set (x ∷ xs) (suc i) v = omega (arith, length-set xs i v)

  pub get_elem?-set_self :
      (xs : List A) (i : ℕ) {v w : A} → get_elem? xs i ≡ some w → get_elem? (set xs i v) i ≡ some v
  get_elem?-set_self [] i h = cc
  get_elem?-set_self (x ∷ xs) zero h = refl
  get_elem?-set_self (x ∷ xs) (suc i) h = get_elem?-set_self xs i h

  pub get_elem?-set_ne :
      (xs : List A) (i j : ℕ) (v : A) → i ≢ j → get_elem? (set xs i v) j ≡ get_elem? xs j
  get_elem?-set_ne [] i j v h = refl
  get_elem?-set_ne (x ∷ xs) zero zero v h = absurd (h refl)
  get_elem?-set_ne (x ∷ xs) zero (suc j) v h = refl
  get_elem?-set_ne (x ∷ xs) (suc i) zero v h = refl
  get_elem?-set_ne (x ∷ xs) (suc i) (suc j) v h = get_elem?-set_ne xs i j v (λ e. h (ap suc e))

  pub get_elem?-append_left :
      (xs ys : List A) (i : ℕ) {v : A} → get_elem? xs i ≡ some v → get_elem? (xs ++ ys) i ≡ some v
  get_elem?-append_left [] ys i h = cc
  get_elem?-append_left (x ∷ xs) ys zero h = h
  get_elem?-append_left (x ∷ xs) ys (suc i) h = get_elem?-append_left xs ys i h

  pub get_elem?-append_last :
      (xs : List A) (v : A) → get_elem? (xs ++ (v ∷ [])) (length xs) ≡ some v
  get_elem?-append_last [] v = refl
  get_elem?-append_last (x ∷ xs) v = get_elem?-append_last xs v

  -- An element after an append was there before, or is the new one at the end.
  pub get_elem?-append_inv :
      (xs : List A) (v : A) (i : ℕ) {w : A}
      → get_elem? (xs ++ (v ∷ [])) i ≡ some w
      → (get_elem? xs i ≡ some w) ⊎ (i ≡ length xs)
  get_elem?-append_inv [] v zero h = inr refl
  get_elem?-append_inv [] v (suc i) h = cc
  get_elem?-append_inv (x ∷ xs) v zero h = inl h
  get_elem?-append_inv (x ∷ xs) v (suc i) h = elim (get_elem?-append_inv xs v i h) [
    | inl old ↦ inl old
    | inr new ↦ inr (ap suc new)
  ]

-- `l.remove(x)`: the first occurrence goes; without one Python raises, and the list stays.
unfoldable pub remove {ℓ} : {A : Type ℓ} ⦃e : Eq A⦄ → A → List A → List A
remove x [] = []
remove x (y ∷ ys) = if x == y then ys else y ∷ remove x ys
