-- ===== src/Json.antt =====
-- What the clients of internal/repo use of encoding/json: the values that it sends, and how an
-- answer is taken apart into structs. An object has each name once.
pub mod Reading
use mirador_rca.Prelude.{Bool, Option, none, some, String, List, [], ◌∷◌, if◌then◌else◌}
use mirador_rca.Prelude.Int.{ℤ, pos}
use mirador_rca.Prelude.Text.{equal_fold}
use mirador_rca.Double.{Double}
use mirador_rca.Model.{Time, zero_time}

module _ (F : Type 0) where
  mutual
    pub data Json : Type 0 where
      null : Json
      bool : Bool → Json
      number : F → Json
      text : String → Json
      array : Items → Json
      object : Fields → Json

    pub data Items : Type 0 where
      no_items : Items
      item : Json → Items → Items

    pub data Fields : Type 0 where
      no_fields : Fields
      field : String → Json → Fields → Fields

module _ {F : Type 0} where
  -- A slice, a slice of texts, and a `map[string]interface{}` as they are marshalled.
  abbrev pub items_of : {A : Type 0} → (A → Json F) → List A → Items F
  items_of f [] = no_items
  items_of f (x ∷ xs) = item (f x) (items_of f xs)

  abbrev pub texts : List String → Json F
  texts l = array (items_of text l)

  abbrev pub fields_of : List (String × Json F) → Fields F
  fields_of [] = no_fields
  fields_of ((k, v) ∷ l) = field k v (fields_of l)

  -- `json.Unmarshal` into a struct: the value of a name, which is compared without regard to case. A
  -- name that is missing leaves its field as null does.
  unfoldable pub find : String → Fields F → Json F
  find key no_fields = null
  find key (field k v l) = if equal_fold k key then v else find key l

  -- Null leaves the zero value; a value of another kind is an error.
  abbrev pub read_text : Json F → Option String
  read_text null = some ""
  read_text (text s) = some s
  read_text v = none

  abbrev pub read_number : F → Json F → Option F
  read_number zero_value null = some zero_value
  read_number zero_value (number x) = some x
  read_number zero_value v = none

  abbrev pub read_object : {A : Type 0} → (Fields F → Option A) → Json F → Option A
  read_object read null = read no_fields
  read_object read (object l) = read l
  read_object read v = none

  abbrev pub read_items : {A : Type 0} → (Json F → Option A) → Items F → Option (List A)
  read_items read no_items = some []
  read_items read (item v l) = elim (read v) [
    | none ↦ none
    | some a ↦ elim (read_items read l) [ none ↦ none | some as_list ↦ some (a ∷ as_list) ]
  ]

  abbrev pub read_array : {A : Type 0} → (Json F → Option A) → Json F → Option (List A)
  read_array read null = some []
  read_array read (array l) = read_items read l
  read_array read v = none

  -- `UnmarshalJSON` of a time.
  unfoldable pub read_time : (String → Option Time) → Json F → Option Time
  read_time parse_time null = some zero_time
  read_time parse_time (text s) = parse_time s
  read_time parse_time v = none

module _ {F : Type 0} ⦃d : Double F⦄ where
  -- An `int`, which a number with a fraction is not.
  unfoldable pub read_int : Json F → Option ℤ
  read_int null = some (pos 0)
  read_int (number x) = if d.eq (d.of_int (d.trunc x)) x then some (d.trunc x) else none
  read_int v = none

  abbrev pub text_in : String → Fields F → Option String
  text_in key l = read_text (find key l)

  abbrev pub number_in : String → Fields F → Option F
  number_in key l = read_number (d.lit 0 0) (find key l)

  abbrev pub texts_in : String → Fields F → Option (List String)
  texts_in key l = read_array read_text (find key l)

  -- A field that is a struct, and one that is a slice of structs.
  abbrev pub struct_in : {A : Type 0} → (Fields F → Option A) → String → Fields F → Option A
  struct_in read key l = read_object read (find key l)

  abbrev pub structs_in : {A : Type 0} → (Fields F → Option A) → String → Fields F → Option (List A)
  structs_in read key l = read_array (read_object read) (find key l)

infixl 5 ◌>>=◌
abbrev pub ◌>>=◌ : {A B : Type 0} → Option A → (A → Option B) → Option B
none >>= f = none
some a >>= f = f a
