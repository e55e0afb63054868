-- ===== src/Instance/McConfig.antt =====
-- packages/contracts/src/boundary/mcc-config.ts: what a document of the client's configuration says
-- of a key. The parser of TOML is not of the repository: `Document` is what it gives. A number is
-- the text that `String` makes of it.
use open_mcc_manager.Prelude.{
  ℕ, ◌+◌, Bool, true, false, not, ◌&&◌, Option, none, some, List, [], ◌∷◌, codes, text_eq, split_at,
  if◌then◌else◌,
}

mutual
  pub data Toml : Type 0 where
    text : List ℕ → Toml
    number : List ℕ → Toml
    boolean : Bool → Toml
    big_integer : Toml
    date : Toml
    array : Items → Toml
    table : Document → Toml

  pub data Items : Type 0 where
    no_item : Items
    item : Toml → Items → Items

  pub data Document : Type 0 where
    no_field : Document
    field : List ℕ → Toml → Document → Document

pub data McConfigScalar : Type 0 where
  of_text : List ℕ → McConfigScalar
  of_number : List ℕ → McConfigScalar
  of_boolean : Bool → McConfigScalar

pub data McConfigValue : Type 0 where
  scalar : McConfigScalar → McConfigValue
  range : (min max : List ℕ) → McConfigValue
  scalars : List McConfigScalar → McConfigValue

pub record McConfigReading : Type 0 where
  pub values : List (List ℕ × McConfigValue)
  pub unreadable : List (List ℕ)

-- `===` of two numbers.
abbrev pub number_eq : List ℕ → List ℕ → Bool
number_eq a b = text_eq a b && not (text_eq a (codes "NaN"))

as_scalar : Toml → Option McConfigScalar
as_scalar (text t) = some (of_text t)
as_scalar (number n) = some (of_number n)
as_scalar (boolean b) = some (of_boolean b)
as_scalar _ = none

and_then : Option McConfigScalar → Option (List McConfigScalar) → Option (List McConfigScalar)
and_then (some first) (some rest) = some (first ∷ rest)
and_then _ _ = none

-- `isScalarList`
as_scalar_list : Items → Option (List McConfigScalar)
unfolding and_then as_scalar
as_scalar_list no_item = some []
as_scalar_list (item first rest) = and_then (as_scalar first) (as_scalar_list rest)

get_field : List ℕ → Document → Option Toml
get_field name no_field = none
get_field name (field other value rest) =
    if text_eq other name then some value else get_field name rest

has_two : Document → Bool
has_two (field _ _ (field _ _ no_field)) = true
has_two _ = false

range_between : Option Toml → Option Toml → Option McConfigValue
range_between (some (number min)) (some (number max)) =
    if number_eq min max then some (scalar (of_number min)) else some (range min max)
range_between _ _ = none

-- `keys.length` is 2, and both keys are there.
read_range : Document → Option McConfigValue
unfolding has_two range_between get_field
read_range value =
    if has_two value
    then range_between (get_field (codes "min") value) (get_field (codes "max") value)
    else none

descend : Option Toml → List (List ℕ) → Option Toml
unfolding get_field
descend current [] = current
descend (some (table fields)) (segment ∷ path) = descend (get_field segment fields) path
descend _ (segment ∷ path) = none

b_dot : ℕ
b_dot = b'.'

find_key : Document → List ℕ → Option Toml
unfolding descend b_dot
find_key document key = descend (some (table document)) (split_at b_dot key)

-- What a document says of one key.
pub data KeyReading : Type 0 where
  absent unread : KeyReading
  value_read : McConfigValue → KeyReading

read_if_some : Option McConfigValue → KeyReading
read_if_some none = unread
read_if_some (some value) = value_read value

scalars_if_some : Option (List McConfigScalar) → KeyReading
scalars_if_some none = unread
scalars_if_some (some values) = value_read (scalars values)

read_found : Option Toml → KeyReading
unfolding read_if_some scalars_if_some read_range as_scalar_list
read_found none = absent
read_found (some (text t)) = value_read (scalar (of_text t))
read_found (some (number n)) = value_read (scalar (of_number n))
read_found (some (boolean b)) = value_read (scalar (of_boolean b))
read_found (some (array items)) = scalars_if_some (as_scalar_list items)
read_found (some (table fields)) = read_if_some (read_range fields)
read_found (some _) = unread

unfoldable pub read_key : Document → List ℕ → KeyReading
unfolding read_found find_key
read_key document key = read_found (find_key document key)

unfoldable pub note_key : List ℕ → KeyReading → McConfigReading → McConfigReading
note_key key absent rest = rest
note_key key (value_read value) rest = record rest { values = (key, value) ∷ rest.values }
note_key key unread rest = record rest { unreadable = key ∷ rest.unreadable }

-- The keys in their order; of a key that is there twice, the document says the same twice.
unfoldable pub read_mcc_config_keys : Document → List (List ℕ) → McConfigReading
unfolding note_key
read_mcc_config_keys document [] = record { values = []; unreadable = [] }
read_mcc_config_keys document (key ∷ keys) =
    note_key key (read_key document key) (read_mcc_config_keys document keys)

field_count : Document → ℕ
field_count no_field = 0
field_count (field _ _ rest) = field_count rest + 1

size_of : Option Toml → Option ℕ
unfolding field_count
size_of (some (table fields)) = some (field_count fields)
size_of (some date) = some 0
size_of _ = none

-- `readMccConfigSections(text, sections).get(section)`, of one of the sections that are read.
unfoldable pub section_entries : Document → List ℕ → Option ℕ
unfolding size_of find_key
section_entries document section = size_of (find_key document section)

-- `values.get(key)`
unfoldable pub value_of : List ℕ → List (List ℕ × McConfigValue) → Option McConfigValue
value_of key [] = none
value_of key ((other, value) ∷ values) =
    if text_eq other key then some value else value_of key values
