-- ===== src/Wire/Members.antt =====
-- What the readers of src/storage/tierdb_client.cpp make of one member of a document.
use tierdb_duckdb.Prelude.{
  ℤ, pos, negsuc, Text, ◌≡◌, refl, ap, ◌∙◌, Bool, true, false, Option, none, some, List, [], ◌∷◌,
  map,
}
use tierdb_duckdb.Platform.{Yyjson, Json, Fields, find_field, items}
use tierdb_duckdb.Ffi.{c_str}
use tierdb_duckdb.Client.Decode.{
  or_empty, keep, str_of, obj_str, sint_of, obj_sint, strings, strings_of, obj_strings, pin_present,
  pin_value,
}
use tierdb_duckdb.Wire.{string, number, optional, string_values, as_read, items_read}
use tierdb_duckdb.Wire.Laws.{IsI64, AllI64, Accessors}

-- What `pin_id` says of a pin.
abbrev pub has_number : Option ℤ → Bool
has_number none = false
has_number (some n) = true

abbrev pub number_or_zero : Option ℤ → ℤ
number_or_zero none = pos 0
number_or_zero (some n) = n

module _ {y : Yyjson} (laws : Accessors y) where
  member :
      (fs : Fields) (key : Text) (j : Json)
      → find_field key fs ≡ some j
      → y.obj_get (Json.obj fs) key ≡ some j
  member fs key j e = laws.get fs key ∙ e

  pub obj_str-string :
      (fs : Fields) (key s : Text)
      → find_field key fs ≡ some (Json.str s)
      → obj_str y (Json.obj fs) key ≡ c_str s
  unfolding obj_str str_of or_empty
  obj_str-string fs key s e = rw (member fs key _ e, laws.string s)

  -- A missing text is sent as null and read as the empty one.
  pub obj_str-optional :
      (fs : Fields) (key : Text) (o : Option Text)
      → find_field key fs ≡ some (as_read (optional string o))
      → obj_str y (Json.obj fs) key ≡ c_str (or_empty o)
  unfolding obj_str str_of or_empty as_read optional c_str
  obj_str-optional fs key none e = rw (member fs key _ e, laws.no_string)
  obj_str-optional fs key (some s) e = obj_str-string fs key s e

  get_sint-number : (n : ℤ) → IsI64 n → y.get_sint (as_read (number n)) ≡ n
  unfolding as_read
  get_sint-number (pos n) l = laws.unsigned n l
  get_sint-number (negsuc n) l = laws.signed (negsuc n)

  is_null-number : (n : ℤ) → y.is_null (as_read (number n)) ≡ false
  unfolding as_read
  is_null-number (pos n) = laws.unsigned_value n
  is_null-number (negsuc n) = laws.signed_value (negsuc n)

  pub obj_sint-number :
      (fs : Fields) (key : Text) (n : ℤ)
      → IsI64 n
      → find_field key fs ≡ some (as_read (number n))
      → obj_sint y (Json.obj fs) key ≡ n
  unfolding obj_sint sint_of
  obj_sint-number fs key n l e = rw (member fs key _ e) (get_sint-number n l)

  strings-string_values :
      (ss : List Text) → strings y (items (items_read (string_values ss))) ≡ map c_str ss
  unfolding strings items items_read as_read string_values keep
  strings-string_values [] = refl
  strings-string_values (s ∷ ss) =
      rw (laws.string s) (ap (λ l. c_str s ∷ l) (strings-string_values ss))

  pub obj_strings-array :
      (fs : Fields) (key : Text) (ss : List Text)
      → find_field key fs ≡ some (Json.arr (items_read (string_values ss)))
      → obj_strings y (Json.obj fs) key ≡ map c_str ss
  unfolding obj_strings strings_of
  obj_strings-array fs key ss e =
      rw (member fs key _ e, laws.each (items_read (string_values ss))) (strings-string_values ss)

  pub pin_present-optional :
      (fs : Fields) (key : Text) (o : Option ℤ)
      → find_field key fs ≡ some (as_read (optional number o))
      → pin_present y (y.obj_get (Json.obj fs) key) ≡ has_number o
  unfolding pin_present optional as_read
  pin_present-optional fs key none e = rw (member fs key _ e, laws.null)
  pin_present-optional fs key (some n) e = rw (member fs key _ e, is_null-number n)

  pin_value-absent : (pin : Option Json) → pin_present y pin ≡ false → pin_value y pin ≡ pos 0
  unfolding pin_value
  pin_value-absent pin e = rw (e, pin_value)

  pin_value-present :
      (pin : Option Json) → pin_present y pin ≡ true → pin_value y pin ≡ sint_of y pin
  unfolding pin_value
  pin_value-present pin e = rw (e, pin_value)

  pub pin_value-optional :
      (fs : Fields) (key : Text) (o : Option ℤ)
      → AllI64 o
      → find_field key fs ≡ some (as_read (optional number o))
      → pin_value y (y.obj_get (Json.obj fs) key) ≡ number_or_zero o
  unfolding optional sint_of
  pin_value-optional fs key none l e = pin_value-absent _ (pin_present-optional fs key none e)
  pin_value-optional fs key (some n) l e =
      pin_value-present _ (pin_present-optional fs key (some n) e)
      ∙ rw (member fs key _ e) (get_sint-number n l)
