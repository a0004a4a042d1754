-- ===== src/Json.antt =====
-- What the tools use of Python's `json`: values, and `json.dumps(value, indent=2)`.
use Prim.Native.Char.{code, Char}
use zhtps.Common.{
  List, [], ◌∷◌, ℕ, zero, suc, ◌+◌, ◌-◌, ◌/◌, ◌%◌, String, ◌<>◌, Bool, true, false, ◌||◌, ◌&&◌, ltb,
  leb, ◌==◌, ℤ, str, if◌then◌else◌, ◌≡◌, refl, pos, negsuc,
}

mutual
  pub data Json : Type 0 where
    null : Json
    boolean : Bool → Json
    number : ℤ → Json
    text : String → Json
    list_of : Items → Json
    object : Fields → Json

  pub data Items : Type 0 where
    nil : Items
    item : Json → Items → Items

  pub data Fields : Type 0 where
    end : Fields
    field : String → Json → Fields → Fields

-- The object of these members, in their order.
abbrev pub fields_of : List (String × Json) → Fields
fields_of [] = end
fields_of ((name, value) ∷ members) = field name value (fields_of members)

hex_digit : ℕ → String
hex_digit n =
    if n == 10
    then "a"
    else if n == 11
    then "b"
    else if n == 12
    then "c"
    else if n == 13
    then "d"
    else if n == 14
    then "e"
    else if n == 15
    then "f"
    else str (pos n)

-- `\uXXXX`
unicode_escape : ℕ → String
unfolding hex_digit
unicode_escape c =
    "\\u"
    <> hex_digit (c / 4096 % 16)
    <> hex_digit (c / 256 % 16)
    <> hex_digit (c / 16 % 16)
    <> hex_digit (c % 16)

-- A character outside the basic plane is two escapes.
surrogates : ℕ → String
unfolding unicode_escape
surrogates c = unicode_escape (55296 + c / 1024) <> unicode_escape (56320 + c % 1024)

escape_char : Char → String
unfolding surrogates
escape_char c =
    if code c == b'"'
    then "\\\""
    else if code c == b'\\'
    then "\\\\"
    else if code c == 10
    then "\\n"
    else if code c == 13
    then "\\r"
    else if code c == 9
    then "\\t"
    else if code c == 12
    then "\\f"
    else if code c == 8
    then "\\b"
    else if ltb (code c) 32 || (leb 127 (code c) && ltb (code c) 65536)
    then unicode_escape (code c)
    else if leb 65536 (code c)
    then surrogates (code c - 65536)
    else String.◌∷◌ c String.[]

escape : String → String
unfolding escape_char
escape String.[] = ""
escape (String.◌∷◌ c s) = escape_char c <> escape s

unfoldable pub quote : String → String
unfolding escape
quote s = "\"" <> escape s <> "\""

abbrev indent : ℕ → String
indent zero = ""
indent (suc n) = "  " <> indent n

unfoldable mutual
  pub dumps : ℕ → Json → String
  dumps level null = "null"
  dumps level (boolean true) = "true"
  dumps level (boolean false) = "false"
  dumps level (number n) = str n
  dumps level (text s) = quote s
  dumps level (list_of nil) = "[]"
  dumps level (list_of (item v vs)) =
      "[\n"
      <> indent (suc level)
      <> dumps (suc level) v
      <> dump_items level vs
      <> "\n"
      <> indent level
      <> "]"
  dumps level (object end) = "{}"
  dumps level (object (field k v fs)) =
      "{\n"
      <> indent (suc level)
      <> quote k
      <> ": "
      <> dumps (suc level) v
      <> dump_fields level fs
      <> "\n"
      <> indent level
      <> "}"

  dump_items : ℕ → Items → String
  dump_items level nil = ""
  dump_items level (item v vs) =
      ",\n" <> indent (suc level) <> dumps (suc level) v <> dump_items level vs

  dump_fields : ℕ → Fields → String
  dump_fields level end = ""
  dump_fields level (field k v fs) =
      ",\n" <> indent (suc level) <> quote k <> ": " <> dumps (suc level) v <> dump_fields level fs

dumps_test :
    dumps 0 (object (field "a" (text "x\"\n") (field "b" (number (negsuc 1)) end)))
    ≡ "{\n  \"a\": \"x\\\"\\n\",\n  \"b\": -2\n}"
unfolding dumps quote str
dumps_test = refl
