-- ===== src/Sync/Json.antt =====
-- JSON values as JSON.parse gives them, and what the language does with them: `String(value)`,
-- JSON.stringify and UTF-8; with canonicalize and canonicalJson of sync-client/rootark-sync-protocol.js.
pub mod Lookup
pub mod Canonical
use servidor_drive.Prelude.{
  ℕ, zero, suc, ◌+◌, ◌-◌, ◌*◌, ◌/◌, ◌%◌, Bool, true, false, not, ◌&&◌, ◌||◌, Option, none, some,
  List, [], ◌∷◌, ◌++◌, if◌then◌else◌, ltb, leb, ◌==◌, Text, text_eq, text_in, is_nonempty, codes,
  decimal, length,
}

-- A number is a whole one from 0 on, or any other, by its text.
mutual
  pub data Json : Type 0 where
    null : Json
    boolean : Bool → Json
    number : ℕ → Json
    other_number : Text → Json
    text : Text → Json
    array : Items → Json
    object : Fields → Json

  pub data Items : Type 0 where
    nil : Items
    item : Json → Items → Items

  pub data Fields : Type 0 where
    end : Fields
    field : Text → Json → Fields → Fields

unfoldable pub truthy : Json → Bool
truthy null = false
truthy (boolean b) = b
truthy (number n) = not (n == 0)
truthy (other_number t) = true
truthy (text t) = is_nonempty t
truthy (array xs) = true
truthy (object fs) = true

abbrev pub boolean_text : Bool → Text
boolean_text true = codes "true"
boolean_text false = codes "false"

-- `String(value)`; an array joins its items, null as nothing.
unfoldable mutual
  pub string_of : Json → Text
  string_of null = codes "null"
  string_of (boolean b) = boolean_text b
  string_of (number n) = decimal n
  string_of (other_number t) = t
  string_of (text t) = t
  string_of (array nil) = []
  string_of (array (item x xs)) = item_text x ++ joined xs
  string_of (object fs) = codes "[object Object]"

  pub item_text : Json → Text
  item_text null = []
  item_text (boolean b) = boolean_text b
  item_text (number n) = decimal n
  item_text (other_number t) = t
  item_text (text t) = t
  item_text (array nil) = []
  item_text (array (item x xs)) = item_text x ++ joined xs
  item_text (object fs) = codes "[object Object]"

  pub joined : Items → Text
  joined nil = []
  joined (item x xs) = b',' ∷ item_text x ++ joined xs

-- `String(value || "")`
unfoldable pub text_or_empty : Json → Text
unfolding truthy string_of
text_or_empty v = if truthy v then string_of v else []

-- `object[key]` for an own name, and `Object.hasOwn`.
unfoldable pub get : Text → Fields → Option Json
get k end = none
get k (field j v fs) = if text_eq j k then some v else get k fs

abbrev pub is_some {ℓ} : {A : Type ℓ} → Option A → Bool
is_some none = false
is_some (some a) = true

abbrev pub has_own : Text → Fields → Bool
has_own k fs = is_some (get k fs)

-- `{ ...object, [key]: value }`
unfoldable pub put : Text → Json → Fields → Fields
put k v end = field k v end
put k v (field j w fs) = if text_eq j k then field j v fs else field j w (put k v fs)

-- assertExactKeys
unfoldable pub has_exact_keys : List Text → Fields → Bool
has_exact_keys allowed end = true
has_exact_keys allowed (field k v fs) = text_in k allowed && has_exact_keys allowed fs

abbrev pub all_digits : Text → Bool
all_digits [] = true
all_digits (c ∷ cs) = leb 48 c && leb c 57 && all_digits cs

abbrev pub starts_with_zero : Text → Bool
starts_with_zero [] = false
starts_with_zero (c ∷ cs) = c == 48

-- `Object.keys(value).sort()`: the names here are ASCII, where UTF-16 units are code points.
unfoldable pub text_lt : Text → Text → Bool
text_lt [] [] = false
text_lt [] (d ∷ ds) = true
text_lt (c ∷ cs) [] = false
text_lt (c ∷ cs) (d ∷ ds) = ltb c d || (c == d && text_lt cs ds)

-- A name that is an array index: a decimal number up to 2 ^ 32 - 2, without leading zeros.
unfoldable pub is_index : Text → Bool
is_index t =
    is_nonempty t
    && all_digits t
    && (text_eq t (b'0' ∷ []) || not (starts_with_zero t))
    && (ltb (length t) 10 || (length t == 10 && not (text_lt (codes "4294967294") t)))

-- The order of the names in the object made of them: the indices first, by their number.
unfoldable pub key_lt : Text → Text → Bool
key_lt s t =
    if is_index s
    then not (is_index t) || ltb (length s) (length t) || (length s == length t && text_lt s t)
    else not (is_index t) && text_lt s t

unfoldable pub insert_sorted : Text → Json → Fields → Fields
insert_sorted k v end = field k v end
insert_sorted k v (field j w fs) =
    if key_lt j k then field j w (insert_sorted k v fs) else field k v (field j w fs)

unfoldable mutual
  unfolding insert_sorted

  pub canonicalize : Json → Json
  canonicalize null = null
  canonicalize (boolean b) = boolean b
  canonicalize (number n) = number n
  canonicalize (other_number t) = other_number t
  canonicalize (text t) = text t
  canonicalize (array xs) = array (canonical_items xs)
  canonicalize (object fs) = object (canonical_fields fs)

  pub canonical_items : Items → Items
  canonical_items nil = nil
  canonical_items (item x xs) = item (canonicalize x) (canonical_items xs)

  pub canonical_fields : Fields → Fields
  canonical_fields end = end
  canonical_fields (field k v fs) = insert_sorted k (canonicalize v) (canonical_fields fs)

unfoldable pub hex_digit : ℕ → ℕ
hex_digit d = if ltb d 10 then 48 + d else 87 + d

abbrev pub escape_unit : ℕ → Text
escape_unit c =
    b'\\'
    ∷ b'u'
    ∷ hex_digit (c / 4096)
    ∷ hex_digit (c / 256 % 16)
    ∷ hex_digit (c / 16 % 16)
    ∷ hex_digit (c % 16)
    ∷ []

-- One character of a JSON text; a lone surrogate is escaped.
unfoldable pub escaped : ℕ → Text
unfolding hex_digit
escaped c =
    if c == 34
    then 92 ∷ 34 ∷ []
    else if c == 92
    then 92 ∷ 92 ∷ []
    else if c == 8
    then 92 ∷ b'b' ∷ []
    else if c == 9
    then 92 ∷ b't' ∷ []
    else if c == 10
    then 92 ∷ b'n' ∷ []
    else if c == 12
    then 92 ∷ b'f' ∷ []
    else if c == 13
    then 92 ∷ b'r' ∷ []
    else if ltb c 32 || (leb 0xd800 c && leb c 0xdfff)
    then escape_unit c
    else c ∷ []

unfoldable pub escaped_all : Text → Text
unfolding escaped
escaped_all [] = []
escaped_all (c ∷ cs) = escaped c ++ escaped_all cs

abbrev pub quoted : Text → Text
quoted t = 34 ∷ escaped_all t ++ 34 ∷ []

-- JSON.stringify
unfoldable mutual
  unfolding escaped_all

  pub stringify : Json → Text
  stringify null = codes "null"
  stringify (boolean b) = boolean_text b
  stringify (number n) = decimal n
  stringify (other_number t) = t
  stringify (text t) = quoted t
  stringify (array nil) = b'[' ∷ b']' ∷ []
  stringify (array (item x xs)) = b'[' ∷ stringify x ++ stringify_items xs
  stringify (object end) = b'{' ∷ b'}' ∷ []
  stringify (object (field k v fs)) = b'{' ∷ quoted k ++ b':' ∷ stringify v ++ stringify_fields fs

  pub stringify_items : Items → Text
  stringify_items nil = b']' ∷ []
  stringify_items (item x xs) = b',' ∷ stringify x ++ stringify_items xs

  pub stringify_fields : Fields → Text
  stringify_fields end = b'}' ∷ []
  stringify_fields (field k v fs) = b',' ∷ quoted k ++ b':' ∷ stringify v ++ stringify_fields fs

unfoldable pub canonical_json : Json → Text
unfolding canonicalize stringify
canonical_json v = stringify (canonicalize v)

-- The bytes of one character.
unfoldable pub utf8_character : ℕ → List ℕ
utf8_character c =
    if ltb c 0x80
    then c ∷ []
    else if ltb c 0x800
    then (192 + c / 64) ∷ (128 + c % 64) ∷ []
    else if ltb c 0x10000
    then (224 + c / 4096) ∷ (128 + c / 64 % 64) ∷ (128 + c % 64) ∷ []
    else (240 + c / 262144) ∷ (128 + c / 4096 % 64) ∷ (128 + c / 64 % 64) ∷ (128 + c % 64) ∷ []

-- `Buffer.from(text, "utf8")`, for a text without lone surrogates.
unfoldable pub utf8 : Text → List ℕ
unfolding utf8_character
utf8 [] = []
utf8 (c ∷ cs) = utf8_character c ++ utf8 cs
