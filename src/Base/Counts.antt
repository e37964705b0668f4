-- ===== src/Base/Counts.antt =====
-- How many elements of a list pass a test, and what a list weighs.
use mathlib.Core.Option.{some-injective}
use agent_client_protocol_py.Base.{
  ◌≡◌, subst, ℕ, zero, suc, ◌+◌, Bool, true, false, some, List, [], ◌∷◌, ◌++◌, arith,
}
use agent_client_protocol_py.Base.Lists.{get_elem?, drop_at, length, All, pair}

abbrev pub one_if : Bool → ℕ
one_if true = 1
one_if false = 0

module _ {ℓ} {A : Type ℓ} where
  abbrev pub count : (A → Bool) → List A → ℕ
  count p [] = 0
  count p (x ∷ xs) = one_if (p x) + count p xs

  abbrev pub total : (A → ℕ) → List A → ℕ
  total w [] = 0
  total w (x ∷ xs) = w x + total w xs

  pub total-append : (w : A → ℕ) (xs ys : List A) → total w (xs ++ ys) ≡ total w xs + total w ys
  total-append w [] ys = omega arith
  total-append w (x ∷ xs) ys = omega (arith, total-append w xs ys)

  pub length-drop_at :
      (xs : List A) (i : ℕ) {x : A}
      → get_elem? xs i ≡ some x
      → length (drop_at i xs) + 1 ≡ length xs
  length-drop_at [] i h = cc
  length-drop_at (y ∷ xs) zero h = omega arith
  length-drop_at (y ∷ xs) (suc i) h = omega (arith, length-drop_at xs i h)

  pub count-append : (p : A → Bool) (xs ys : List A) → count p (xs ++ ys) ≡ count p xs + count p ys
  count-append p [] ys = omega arith
  count-append p (x ∷ xs) ys = omega (arith, count-append p xs ys)

  pub count-drop_at :
      (p : A → Bool) (xs : List A) (i : ℕ) {x : A}
      → get_elem? xs i ≡ some x
      → count p (drop_at i xs) + one_if (p x) ≡ count p xs
  count-drop_at p [] i h = cc
  count-drop_at p (y ∷ xs) zero {x} h =
      subst (λ z. count p xs + one_if (p z) ≡ one_if (p y) + count p xs) (some-injective _ _ h)
        (omega arith)
  count-drop_at p (y ∷ xs) (suc i) h = omega (arith, count-drop_at p xs i h)

module _ {ℓ κ} {A : Type ℓ} (P : A → Type κ) where
  pub All-append : (xs ys : List A) → All P xs → All P ys → All P (xs ++ ys)
  All-append [] ys h k = k
  All-append (x ∷ xs) ys (a, h) k = pair a (All-append xs ys h k)

  pub All-get_elem? : (xs : List A) (i : ℕ) {x : A} → All P xs → get_elem? xs i ≡ some x → P x
  All-get_elem? [] i h e = cc
  All-get_elem? (y ∷ xs) zero (a, h) e = subst P (some-injective _ _ e) a
  All-get_elem? (y ∷ xs) (suc i) (a, h) e = All-get_elem? xs i h e

  pub All-drop_at : (xs : List A) (i : ℕ) → All P xs → All P (drop_at i xs)
  All-drop_at [] i h = tt
  All-drop_at (x ∷ xs) zero (a, h) = h
  All-drop_at (x ∷ xs) (suc i) (a, h) = pair a (All-drop_at xs i h)
