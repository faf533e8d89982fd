-- ===== src/ModelCard/Values.antt =====
-- The values that `json.load` gives, over a type of numbers, and what Python does with them.
use document_classifier_week.Prelude.{
  ℕ, suc, String, Bool, true, false, ◌&&◌, ◌||◌, Option, none, some, List, [], ◌∷◌, ◌==◌, string_eq,
  if◌then◌else◌,
}

-- A dictionary is its entries; a key has one entry.
mutual
  pub data Json (N : Type 0) : Type 0 where
    null : Json N
    bool : Bool → Json N
    number : N → Json N
    str : String → Json N
    arr : Items N → Json N
    obj : Dict N → Json N

  pub data Items (N : Type 0) : Type 0 where
    nil : Items N
    cons : Json N → Items N → Items N

  pub data Dict (N : Type 0) : Type 0 where
    empty : Dict N
    entry : String → Json N → Dict N → Dict N

-- Python's numbers: the literals of the source, `==`, `<` and `float(text)`
pub record Numbers (N : Type 0) : Type 0 where
  pub literal : String → N
  pub equal : N → N → Bool
  pub lt : N → N → Bool
  pub parse_float : String → Option N
  -- `float(number)`, rounded, unless an integer is too large
  pub to_double : N → Option N

-- what the validation raises: `ClassifierValidationError`, or a plain error of Python
pub data Fault : Type 0 where
  classifier_validation_error attribute_error type_error value_error overflow_error : Fault

pub data Checked (A : Type 0) : Type 0 where
  ok : A → Checked A
  err : Fault → Checked A

infixl 5 ◌>>=◌ ◌>>◌
abbrev pub ◌>>=◌ : {A B : Type 0} → Checked A → (A → Checked B) → Checked B
ok a >>= f = f a
err e >>= f = err e

abbrev pub ◌>>◌ : {A B : Type 0} → Checked A → Checked B → Checked B
m >> k = m >>= λ _. k

-- `if b: raise e`
abbrev pub refuse_if : Bool → Fault → Checked Unit
refuse_if true e = err e
refuse_if false e = ok tt

-- `needle in text`, for texts
abbrev starts_with : String → String → Bool
starts_with String.[] s = true
starts_with (String.◌∷◌ c needle) String.[] = false
starts_with (String.◌∷◌ c needle) (String.◌∷◌ d s) =
    String.◌∷◌ c "" == String.◌∷◌ d "" && starts_with needle s

abbrev pub is_substring : String → String → Bool
is_substring needle String.[] = starts_with needle ""
is_substring needle (String.◌∷◌ c s) = starts_with needle (String.◌∷◌ c s) || is_substring needle s

module _ {N : Type 0} where
  -- `d.get(key)`
  abbrev pub lookup : String → Dict N → Option (Json N)
  lookup key empty = none
  lookup key (entry k v d) = if k == key then some v else lookup key d

  -- `d.get(key, default)`
  abbrev pub get_or : String → Json N → Dict N → Json N
  get_or key default d = elim (lookup key d) [ none ↦ default | some v ↦ v ]

  abbrev pub has_key : String → Dict N → Bool
  has_key key d = elim (lookup key d) [ none ↦ false | some v ↦ true ]

  abbrev pub is_string : String → Json N → Bool
  is_string s (Json.str t) = t == s
  is_string s _ = false

  -- `value in items`, for a text
  abbrev pub is_item : String → Items N → Bool
  is_item s nil = false
  is_item s (cons j items) = is_string s j || is_item s items

  -- a value with `keys` and `get`: any other has no such attribute
  abbrev pub as_dict : Json N → Checked (Dict N)
  as_dict (Json.obj d) = ok d
  as_dict _ = err attribute_error

  -- `key in value`
  abbrev pub contains_key : String → Json N → Checked Bool
  contains_key key (Json.obj d) = ok (has_key key d)
  contains_key key (Json.arr items) = ok (is_item key items)
  contains_key key (Json.str s) = ok (is_substring key s)
  contains_key key _ = err type_error

  -- `value[key]`, where the key is in a dictionary
  abbrev pub subscript : String → Json N → Checked (Json N)
  subscript key (Json.obj d) = elim (lookup key d) [ none ↦ err type_error | some v ↦ ok v ]
  subscript key _ = err type_error

  -- `value == [texts]`
  abbrev pub same_items : Items N → List String → Bool
  same_items nil [] = true
  same_items (cons j items) (s ∷ texts) = is_string s j && same_items items texts
  same_items _ _ = false

  abbrev pub same_strings : Json N → List String → Bool
  same_strings (Json.arr items) texts = same_items items texts
  same_strings _ texts = false

  abbrev pub count : Items N → ℕ
  count nil = 0
  count (cons j items) = suc (count items)

  module _ (ops : Numbers N) where
    -- a value in a comparison of numbers, where a Boolean is 1 or 0
    abbrev pub as_number : Json N → Option N
    as_number (Json.number n) = some n
    as_number (Json.bool true) = some (ops.literal "1")
    as_number (Json.bool false) = some (ops.literal "0")
    as_number _ = none

    -- `value == literal`
    abbrev pub equals_literal : String → Json N → Bool
    equals_literal l j = elim (as_number j) [ none ↦ false | some n ↦ ops.equal n (ops.literal l) ]

    abbrev rounded : Option N → Checked N
    rounded none = err overflow_error
    rounded (some n) = ok n

    -- `float(value)`
    abbrev pub to_float : Json N → Checked N
    to_float (Json.str s) = elim (ops.parse_float s) [ none ↦ err value_error | some n ↦ ok n ]
    to_float j = elim (as_number j) [ none ↦ err type_error | some n ↦ rounded (ops.to_double n) ]

    -- `value < threshold`
    abbrev pub less_than : Json N → N → Checked Bool
    less_than j threshold = elim (as_number j) [
      | none ↦ err type_error
      | some n ↦ ok (ops.lt n threshold)
    ]
