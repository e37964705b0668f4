-- ===== src/Conversation/Codec.antt =====
-- A writer of JSON values, and a reader that knows what it writes: an example of the two functions
-- that the theorems on conversations suppose. Each value is written after its parts, and each part
-- is two characters: the number of an operation of the reader, and the operation's argument.
use Prim.Native.Char.{Char, char, code, nul}
use agent_client_protocol_py.Base.{
  ◌≡◌, refl, ◌∙◌, ℕ, zero, suc, pos, negsuc, String, true, false, Option, none, some, List, [], ◌∷◌,
  Json, null, bool, num, str, arr, obj, Items, nil, cons, Fields, end, field,
}
use agent_client_protocol_py.Base.Lists.{get_elem?}

-- What the reader has read and not yet used.
pub data Cell : Type 0 where
  value : Json → Cell
  text : String → Cell
  number : ℕ → Cell
  items : Items → Cell
  fields : Fields → Cell

pub data Op : Type 0 where
  o_text o_char o_zero o_suc o_null o_true o_false o_pos o_negsuc o_str o_arr o_obj : Op
  o_nil o_cons o_end o_field : Op

abbrev op_codes : List Op
op_codes =
    o_text ∷ o_char ∷ o_zero ∷ o_suc ∷ o_null ∷ o_true ∷ o_false ∷ o_pos ∷ o_negsuc ∷ o_str ∷ o_arr
    ∷ o_obj ∷ o_nil ∷ o_cons ∷ o_end ∷ o_field ∷ []

abbrev apply_op : Option Op → Char → List Cell → List Cell
apply_op (some o_text) c st = text "" ∷ st
apply_op (some o_char) c (text s ∷ st) = text (String.◌∷◌ c s) ∷ st
apply_op (some o_zero) c st = number zero ∷ st
apply_op (some o_suc) c (number n ∷ st) = number (suc n) ∷ st
apply_op (some o_null) c st = value null ∷ st
apply_op (some o_true) c st = value (bool true) ∷ st
apply_op (some o_false) c st = value (bool false) ∷ st
apply_op (some o_pos) c (number n ∷ st) = value (num (pos n)) ∷ st
apply_op (some o_negsuc) c (number n ∷ st) = value (num (negsuc n)) ∷ st
apply_op (some o_str) c (text s ∷ st) = value (str s) ∷ st
apply_op (some o_arr) c (items xs ∷ st) = value (arr xs) ∷ st
apply_op (some o_obj) c (fields fs ∷ st) = value (obj fs) ∷ st
apply_op (some o_nil) c st = items nil ∷ st
apply_op (some o_cons) c (value x ∷ items xs ∷ st) = items (cons x xs) ∷ st
apply_op (some o_end) c st = fields end ∷ st
apply_op (some o_field) c (text k ∷ value v ∷ fields fs ∷ st) = fields (field k v fs) ∷ st
apply_op _ c st = st

abbrev read_cells : String → List Cell → List Cell
read_cells String.[] st = st
read_cells (String.◌∷◌ o String.[]) st = st
read_cells (String.◌∷◌ o (String.◌∷◌ c rest)) st =
    read_cells rest (apply_op (get_elem? op_codes (code o)) c st)

abbrev top : List Cell → Option Json
top (value v ∷ []) = some v
top _ = none

abbrev pub read : String → Option Json
read line = top (read_cells line [])

abbrev part : Char → Char → String → String
part o c rest = String.◌∷◌ o (String.◌∷◌ c rest)

-- The writers put their text in front of another.
abbrev write_text : String → String → String
write_text String.[] rest = part (char 0 tt) nul rest
write_text (String.◌∷◌ c s) rest = write_text s (part (char 1 tt) c rest)

abbrev write_number : ℕ → String → String
write_number zero rest = part (char 2 tt) nul rest
write_number (suc n) rest = write_number n (part (char 3 tt) nul rest)

abbrev mutual
  write_json : Json → String → String
  write_json null rest = part (char 4 tt) nul rest
  write_json (bool true) rest = part (char 5 tt) nul rest
  write_json (bool false) rest = part (char 6 tt) nul rest
  write_json (num (pos n)) rest = write_number n (part (char 7 tt) nul rest)
  write_json (num (negsuc n)) rest = write_number n (part (char 8 tt) nul rest)
  write_json (str s) rest = write_text s (part (char 9 tt) nul rest)
  write_json (arr xs) rest = write_items xs (part (char 10 tt) nul rest)
  write_json (obj fs) rest = write_fields fs (part (char 11 tt) nul rest)

  write_items : Items → String → String
  write_items nil rest = part (char 12 tt) nul rest
  write_items (cons x xs) rest = write_items xs (write_json x (part (char 13 tt) nul rest))

  write_fields : Fields → String → String
  write_fields end rest = part (char 14 tt) nul rest
  write_fields (field k v fs) rest =
      write_fields fs (write_json v (write_text k (part (char 15 tt) nul rest)))

abbrev pub write : Json → String
write v = write_json v ""

read_cells-write_text :
    (s rest : String) (st : List Cell)
    → read_cells (write_text s rest) st ≡ read_cells rest (text s ∷ st)
read_cells-write_text String.[] rest st = refl
read_cells-write_text (String.◌∷◌ c s) rest st =
    read_cells-write_text s (part (char 1 tt) c rest) st

read_cells-write_number :
    (n : ℕ) (rest : String) (st : List Cell)
    → read_cells (write_number n rest) st ≡ read_cells rest (number n ∷ st)
read_cells-write_number zero rest st = refl
read_cells-write_number (suc n) rest st = read_cells-write_number n (part (char 3 tt) nul rest) st

mutual
  read_cells-write_json :
      (v : Json) (rest : String) (st : List Cell)
      → read_cells (write_json v rest) st ≡ read_cells rest (value v ∷ st)
  read_cells-write_json null rest st = refl
  read_cells-write_json (bool true) rest st = refl
  read_cells-write_json (bool false) rest st = refl
  read_cells-write_json (num (pos n)) rest st =
      read_cells-write_number n (part (char 7 tt) nul rest) st
  read_cells-write_json (num (negsuc n)) rest st =
      read_cells-write_number n (part (char 8 tt) nul rest) st
  read_cells-write_json (str s) rest st = read_cells-write_text s (part (char 9 tt) nul rest) st
  read_cells-write_json (arr xs) rest st = read_cells-write_items xs (part (char 10 tt) nul rest) st
  read_cells-write_json (obj fs) rest st =
      read_cells-write_fields fs (part (char 11 tt) nul rest) st

  read_cells-write_items :
      (xs : Items) (rest : String) (st : List Cell)
      → read_cells (write_items xs rest) st ≡ read_cells rest (items xs ∷ st)
  read_cells-write_items nil rest st = refl
  read_cells-write_items (cons x xs) rest st =
      read_cells-write_items xs (write_json x (part (char 13 tt) nul rest)) st
      ∙ read_cells-write_json x (part (char 13 tt) nul rest) (items xs ∷ st)

  read_cells-write_fields :
      (fs : Fields) (rest : String) (st : List Cell)
      → read_cells (write_fields fs rest) st ≡ read_cells rest (fields fs ∷ st)
  read_cells-write_fields end rest st = refl
  read_cells-write_fields (field k v fs) rest st =
      read_cells-write_fields fs (write_json v (write_text k (part (char 15 tt) nul rest))) st
      ∙ read_cells-write_json v (write_text k (part (char 15 tt) nul rest)) (fields fs ∷ st)
      ∙ read_cells-write_text k (part (char 15 tt) nul rest) (value v ∷ fields fs ∷ st)

pub read-write : (v : Json) → read (write v) ≡ some v
read-write v = rw (read_cells-write_json v "" []) refl
