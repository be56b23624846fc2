-- ===== src/Redaction/Objects.antt =====
-- redaction.py: what the sanitiser asks of a Python object, and the JSON-safe values that it makes.
-- Objects live in a heap, so that they may share and contain each other; what a hostile object does
-- when it is read is part of it.
use ai_voice_agent.Prelude.{
  Outcome, ℕ, zero, suc, ◌+◌, ◌/◌, ◌%◌, Bool, true, false, Option, List, [], ◌∷◌, ltb, ◌==◌,
  if◌then◌else◌,
}
use ai_voice_agent.Redaction.Library.{Library}
use ai_voice_agent.Text.{Text, text_eq}

-- What iteration over a container yields, and whether it then ends or raises.
pub record Items (A : Type 0) : Type 0 where
  pub items : List A
  pub ends : Bool

-- A piece of a validation error: an exact int of at most 128 bits, an exact str, anything else.
pub data Part : Type 0 where
  number_part : Text → Part
  text_part : Text → Part
  other_part : Part

-- One entry of errors(), if it is a dict: `loc` when that is a list or tuple, `msg` and `type`.
pub record ValidationError : Type 0 where
  pub location : List Part
  pub message : Part
  pub kind : Part

-- exc.errors: not callable or no list, raising, or its entries with `none` for one that is no dict.
pub data Errors : Type 0 where
  no_errors : Errors
  errors_raise : Errors
  errors_listed : List (Option ValidationError) → Errors

-- tb_frame.f_code and its line number: `none` where it is not of the exact type.
pub record CodeNames : Type 0 where
  pub filename : Option Text
  pub name : Option Text

pub record Frame : Type 0 where
  pub code : Option CodeNames
  pub line_number : Option ℕ

-- An exception: the name of its class, what str() does, the members of a group, and its links.
pub record Exception : Type 0 where
  pub qualname : Option Text
  pub errors : Errors
  pub message : Outcome Text
  pub members : Option (List ℕ)
  pub cause : Option ℕ
  pub context : Option ℕ
  pub suppress_context : Bool
  pub traceback : Option (List Frame)

pub data Object : Type 0 where
  -- A str; `exact` where its type is str itself.
  text_object : (exact : Bool) → Text → Object
  -- A Mapping: len(), which may raise, and its keys and values.
  mapping_object : Outcome ℕ → Items (ℕ × ℕ) → Object
  -- A list or tuple, or a set or frozenset.
  sequence_object : Outcome ℕ → Items ℕ → Object
  set_object : Outcome ℕ → Items ℕ → Object
  none_object : Object
  boolean_object : Bool → Object
  integer_object : (negative : Bool) → ℕ → Object
  -- A float, by its repr().
  real_object : Text → Object
  secret_object : Object
  exception_object : Exception → Object
  -- A member of an Enum, by its stored value.
  enum_object : ℕ → Object
  -- A timedelta, by the repr() of its seconds.
  duration_object : Text → Object
  path_object : Text → Object
  -- A UUID, by the int in it: `none` where that is no int or not below 2 ^ 128.
  uuid_object : Option ℕ → Object
  -- A Decimal, date, time or bytes, by what its renderer makes of it.
  rendered_object : Outcome Text → Object
  other_object : Object

mutual
  pub data Json : Type 0 where
    json_null : Json
    json_bool : Bool → Json
    json_text : Text → Json
    json_integer : (negative : Bool) → ℕ → Json
    json_real : Text → Json
    json_list : JsonItems → Json
    json_object : JsonFields → Json

  pub data JsonItems : Type 0 where
    no_items : JsonItems
    item_then : Json → JsonItems → JsonItems

  pub data JsonFields : Type 0 where
    no_fields : JsonFields
    field_then : Text → Json → JsonFields → JsonFields

-- result.append(value)
unfoldable pub append_item : JsonItems → Json → JsonItems
append_item no_items value = item_then value no_items
append_item (item_then item items) value = item_then item (append_item items value)

-- result[key] = value, where a key keeps its first place
unfoldable pub set_field : JsonFields → Text → Json → JsonFields
set_field no_fields key value = field_then key value no_fields
set_field (field_then name found fields) key value =
    let later = field_then name found (set_field fields key value) in
    if text_eq name key then field_then name value fields else later

-- What raw_decode does at a position: the address of the value and how many characters behind the
-- first it has, or an error and the position that the error names.
pub data Decoded : Type 0 where
  decoded_value : ℕ → ℕ → Decoded
  not_json : Option ℕ → Decoded

-- What is not part of this code: the objects, Python's JSON decoder and encoder, and repr(). The
-- decoder is told how many values it has decoded before, as every value it makes is a new object.
pub record World : Type 0 where
  pub library : Library
  pub heap : ℕ → Object
  pub raw_decode : ℕ → Text → ℕ → Decoded
  -- len(json.dumps(text))
  pub dumps_length : Text → ℕ
  -- json.dumps(value, ensure_ascii=False)
  pub dumps : Json → Text
  pub repr : Json → Text

digits_from : ℕ → ℕ → Text → Text
digits_from zero n text = text
digits_from (suc fuel) n text =
    let more = (b'0' + n % 10) ∷ text in
    elim (ltb n 10) [ true ↦ more | false ↦ digits_from fuel (n / 10) more ]

-- str(n)
unfoldable pub decimal : ℕ → Text
unfolding digits_from
decimal n = digits_from (suc n) n []

-- str of an int
unfoldable pub integer_text : Bool → ℕ → Text
integer_text negative n = if negative then b'-' ∷ decimal n else decimal n

bits_from : ℕ → ℕ → ℕ
bits_from zero n = 0
bits_from (suc fuel) n = elim (n == 0) [ true ↦ 0 | false ↦ suc (bits_from fuel (n / 2)) ]

-- int.bit_length
unfoldable pub bit_length : ℕ → ℕ
unfolding bits_from
bit_length n = bits_from n n
