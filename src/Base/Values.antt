-- ===== src/Base/Values.antt =====
-- Results that may be exceptions, signed integers, and the values that `json` reads and writes.
use Prim.Native.Nat.{ℕ}
use Prim.Native.String.{String}
use mathlib.Core.Path.{◌≡◌, refl}
use mathlib.Core.Bool.{Bool, true, false, cond}
use text.Mathlib.Text.{◌==◌}
use mathlib.Core.Option.{Option, none, some}

-- What a call that may raise comes to.
pub data Result {ℓ} (E A : Type ℓ) : Type ℓ where
  ok : A → Result E A
  err : E → Result E A

infixl 5 ◌>>=◌
abbrev pub ◌>>=◌ {ℓ} : {E A B : Type ℓ} → Result E A → (A → Result E B) → Result E B
ok a >>= f = f a
err e >>= f = err e

-- A property of a branch on a result, from the two cases.
pub Result-branch {ℓ κ} :
    {E A B : Type ℓ} (P : B → Type κ) (r : Result E A) (f : A → B) (g : E → B)
    → ((a : A) → r ≡ ok a → P (f a))
    → ((e : E) → r ≡ err e → P (g e))
    → P (elim r [ ok a ↦ f a | err e ↦ g e ])
Result-branch P (ok a) f g hf hg = hf a refl
Result-branch P (err e) f g hf hg = hg e refl

abbrev pub is_ok {ℓ} : {E A : Type ℓ} → Result E A → Bool
is_ok (ok a) = true
is_ok (err e) = false

abbrev pub is_some {ℓ} : {A : Type ℓ} → Option A → Bool
is_some none = false
is_some (some a) = true

-- `negsuc n` is -(n + 1).
pub data ℤ : Type 0 where
  pos : ℕ → ℤ
  negsuc : ℕ → ℤ

-- Python's `None`, `bool`, `int`, `str`, `list` and `dict`, as the `json` module maps them.
mutual
  pub data Json : Type 0 where
    null : Json
    bool : Bool → Json
    num : ℤ → Json
    str : String → Json
    arr : Items → Json
    obj : Fields → Json

  pub data Items : Type 0 where
    nil : Items
    cons : Json → Items → Items

  pub data Fields : Type 0 where
    end : Fields
    field : String → Json → Fields → Fields

-- What Python code may return: a value that `json.dumps` writes, or another.
pub data Value : Type 0 where
  json_value : Json → Value
  opaque : Value

-- A `dict` or a `list` built around a value can be written if the value can.
abbrev pub map_value : (Json → Json) → Value → Value
map_value f (json_value j) = json_value (f j)
map_value f opaque = opaque

-- A parameter of type `Any` that is tested by `is not None`.
abbrev pub is_none : Json → Bool
is_none null = true
is_none _ = false

-- `message.get(name)` with no default but `None` is `get_or (get_field name fs) null`; a dict has
-- a key once.
unfoldable pub get_field : String → Fields → Option Json
get_field name end = none
get_field name (field key value rest) = cond (name == key) (some value) (get_field name rest)
