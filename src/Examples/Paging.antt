-- ===== src/Examples/Paging.antt =====
-- What a file read by `_slice_text` in parts comes to.
use Prim.Native.Nat.{min}
use Prim.Native.Nat.add
use agent_client_protocol_py.Base.{
  ◌≡◌, refl, ap, ◌∙◌, ℕ, zero, suc, ◌+◌, ◌-◌, ◌*◌, ◌<◌, ◌≤◌, String, some, List, [], ◌∷◌, ◌++◌,
  arith,
}
use agent_client_protocol_py.Base.Lists.{length}
use agent_client_protocol_py.Examples.Lines.{take, drop, slice_lines}

min-suc : (m n : ℕ) → min (suc m) (suc n) ≡ suc (min m n)
min-suc m n = omega arith

module _ {ℓ} {A : Type ℓ} where
  take-length : (n : ℕ) (xs : List A) → length xs ≤ n → take n xs ≡ xs
  take-length zero [] h = refl
  take-length (suc n) [] h = refl
  take-length zero (x ∷ xs) h = absurd (omega arith)
  take-length (suc n) (x ∷ xs) h = ap (λ ys. x ∷ ys) (take-length n xs (omega arith))

  take-min : (n : ℕ) (xs : List A) → take (min n (length xs)) xs ≡ take n xs
  take-min zero xs = rw (min_zero (length xs)) refl
    where
      min_zero : (m : ℕ) → min 0 m ≡ 0
      min_zero m = omega arith
  take-min (suc n) [] = rw (min_zero (suc n)) refl
    where
      min_zero : (m : ℕ) → min m 0 ≡ 0
      min_zero m = omega arith
  take-min (suc n) (x ∷ xs) = rw (min-suc n (length xs)) (ap (λ ys. x ∷ ys) (take-min n xs))

  take_window : (s n : ℕ) (xs : List A) → take s xs ++ drop s (take (s + n) xs) ≡ take (s + n) xs
  take_window zero n xs = refl
  take_window (suc s) n [] = rw (add.suc s n) refl
  take_window (suc s) n (x ∷ xs) = rw (add.suc s n) (ap (λ ys. x ∷ ys) (take_window s n xs))

  length-take : (n : ℕ) (xs : List A) → length (take n xs) ≤ n
  length-take zero xs = omega arith
  length-take (suc n) [] = omega arith
  length-take (suc n) (x ∷ xs) = omega (arith, length-take n xs)

  length-window : (s n : ℕ) (xs : List A) → length (drop s (take (s + n) xs)) ≤ n
  length-window zero n xs = rw (add.zero n) (length-take n xs)
  length-window (suc s) n [] = rw (add.suc s n) (omega arith)
  length-window (suc s) n (x ∷ xs) = rw (add.suc s n) (length-window s n xs)

-- A window of lines, by its first line and its number of lines.
slice_lines_window :
    (line n : ℕ) (lines : List String)
    → slice_lines (some line) (some (suc n)) lines ≡ drop (line - 1) (take (line - 1 + suc n) lines)
slice_lines_window line n lines =
    unfold slice_lines in ap (drop (line - 1)) (take-min (line - 1 + suc n) lines)

-- The client's answers for the pages of a file, which hold `size` lines each, one after another.
abbrev pub read_pages : ℕ → ℕ → List String → List String
read_pages zero size lines = []
read_pages (suc k) size lines =
    read_pages k size lines ++ slice_lines (some (k * size + 1)) (some size) lines

no_pages : (n : ℕ) → 0 * n ≡ 0
no_pages n = omega arith

read_pages-take :
    (k n : ℕ) (lines : List String) → read_pages k (suc n) lines ≡ take (k * suc n) lines
read_pages-take zero n lines = rw (no_pages (suc n)) refl
read_pages-take (suc k) n lines =
    rw
      (
        read_pages-take k n lines,
        slice_lines_window (k * suc n + 1) n lines,
        same_start,
        next_start,
      )
      (take_window (k * suc n) (suc n) lines)
  where
    same_start : k * suc n + 1 - 1 ≡ k * suc n
    same_start = omega arith

    next_start : suc k * suc n ≡ k * suc n + suc n
    next_start = omega arith

-- A file that is read page by page is read whole: each line once, in order; and each page holds at
-- most as many lines as it was asked for.
pub read_pages_whole :
    (k size line : ℕ) (lines : List String)
    → 0 < size
    → length lines ≤ k * size
    → (read_pages k size lines ≡ lines)
      × (length (slice_lines (some line) (some size) lines) ≤ size)
read_pages_whole k zero line lines some_size enough = absurd (omega arith)
read_pages_whole k (suc n) line lines some_size enough = (
  read_pages-take k n lines ∙ take-length (k * suc n) lines enough,
  rw (slice_lines_window line n lines) (length-window (line - 1) (suc n) lines),
)
