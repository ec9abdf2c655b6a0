-- ===== src/Json.antt =====
-- JSON values as the analytics code of server/okk_mcp reads them: dicts by `get`, values by their
-- truth, and the dict and list displays that its answers are built with.
pub mod Spelling
pub mod Projection
pub mod Equality
use okk_analytics_codex_plug.Common.{
  ℕ, zero, suc, ◌/◌, ◌%◌, String, Bool, true, false, not, ◌||◌, Option, none, some, List, [], ◌∷◌,
  str_eq, nonempty, is_some, ltb, if◌then◌else◌,
}
use Prim.Native.String
use okk_analytics_codex_plug.Errors.{Result, ok, raised, ◌>>=◌, attribute_error, type_error}

mutual
  pub data Json : Type 0 where
    null : Json
    boolean : Bool → Json
    number : ℕ → Json
    -- a negative number or a fraction, as Python prints it
    decimal : String → Json
    text : String → Json
    array : Items → Json
    object : Fields → Json

  pub data Items : Type 0 where
    no_items : Items
    item : Json → Items → Items

  -- a dict, in the order of its keys
  pub data Fields : Type 0 where
    no_fields : Fields
    field : String → Json → Fields → Fields

-- the dict that the code calls a row
abbrev pub Row : Type 0
Row = Fields

unfoldable pub lookup : String → Row → Option Json
lookup k no_fields = none
lookup k (field j v rest) = if str_eq k j then some v else lookup k rest

abbrev pub or_null : Option Json → Json
or_null none = null
or_null (some v) = v

-- `row.get(k)`
unfoldable pub get : String → Row → Json
unfolding lookup
get k row = or_null (lookup k row)

-- `k in row`
unfoldable pub has : String → Row → Bool
unfolding lookup
has k row = is_some (lookup k row)

-- `row.get(k, default)`
abbrev pub get_or : String → Json → Row → Json
get_or k default row = elim (lookup k row) [ none ↦ default | some v ↦ v ]

-- `row[k] = v`
unfoldable pub set : String → Json → Row → Row
set k v no_fields = field k v no_fields
set k v (field j u rest) =
    let later = set k v rest in if str_eq k j then field j v rest else field j u later

-- the truth of a value
unfoldable pub truthy : Json → Bool
truthy null = false
truthy (boolean b) = b
truthy (number n) = ltb 0 n
truthy (decimal s) = not (str_eq s "0.0" || str_eq s "-0.0")
truthy (text s) = nonempty s
truthy (array no_items) = false
truthy (array (item v rest)) = true
truthy (object no_fields) = false
truthy (object (field k v rest)) = true

-- `a or b`
abbrev pub or_else : Json → Json → Json
or_else a b = let t = truthy a in if t then a else b

unfoldable pub is_object : Json → Bool
is_object (object row) = true
is_object _ = false

unfoldable pub is_text : Json → Bool
is_text (text s) = true
is_text _ = false

unfoldable pub is_null : Json → Bool
is_null null = true
is_null _ = false

-- the items of a list; none of another value
unfoldable pub items : Items → List Json
items no_items = []
items (item v rest) = v ∷ items rest

unfoldable pub from_list : List Json → Items
from_list [] = no_items
from_list (v ∷ rest) = item v (from_list rest)

-- a list of dicts as a value
unfoldable pub row_items : List Row → Items
row_items [] = no_items
row_items (row ∷ rest) = item (object row) (row_items rest)

abbrev pub text_items : List String → Items
text_items [] = no_items
text_items (s ∷ rest) = item (text s) (text_items rest)

-- `[row for row in value or [] if isinstance(row, dict)]`
unfoldable pub dicts_of : List Json → List Row
dicts_of [] = []
dicts_of (object row ∷ rest) = row ∷ dicts_of rest
dicts_of (_ ∷ rest) = dicts_of rest

-- the dicts among the items of a list; none where the value is no list
unfoldable pub dict_items : Json → List Row
unfolding dicts_of items
dict_items (array vs) = dicts_of (items vs)
dict_items _ = []

-- the value where it is a dict, else an empty one
unfoldable pub dict_or_empty : Json → Row
dict_or_empty (object row) = row
dict_or_empty _ = no_fields

-- a value that the code calls `.get` on
unfoldable pub as_dict : Json → Result Row
as_dict (object row) = ok row
as_dict _ = raised (attribute_error "get")

unfoldable pub as_dicts : List Json → Result (List Row)
unfolding as_dict
as_dicts [] = ok []
as_dicts (v ∷ rest) = as_dict v >>= λ row. as_dicts rest >>= λ rows. ok (row ∷ rows)

-- a value that the code goes through, calling `.get` on each item
unfoldable pub as_rows : Json → Result (List Row)
unfolding as_dicts items
as_rows (array vs) = as_dicts (items vs)
as_rows (object no_fields) = ok []
as_rows (object (field k v rest)) = raised (attribute_error "get")
as_rows (text s) = if nonempty s then raised (attribute_error "get") else ok []
as_rows _ = raised (type_error "not iterable")

-- `len` of a list or a dict
abbrev pub item_count : Items → ℕ
item_count no_items = 0
item_count (item v rest) = suc (item_count rest)

abbrev pub field_count : Fields → ℕ
field_count no_fields = 0
field_count (field k v rest) = suc (field_count rest)

-- a field, if there is a value
abbrev pub field_if : Option Json → String → Row → Row
field_if none k rest = rest
field_if (some v) k rest = field k v rest

-- `{key: row.get(key) for key in keys if key in row}`
unfoldable pub project : List String → Row → Row
project [] row = no_fields
project (k ∷ keys) row = field_if (lookup k row) k (project keys row)

-- `{key: row.get(key) for key in keys}`
unfoldable pub pick : List String → Row → Row
unfolding get
pick [] row = no_fields
pick (k ∷ keys) row = field k (get k row) (pick keys row)

-- the keys of a dict
unfoldable pub keys : Row → List String
keys no_fields = []
keys (field k v rest) = k ∷ keys rest

-- `{**row, **other}`
unfoldable pub merge : Row → Row → Row
unfolding set
merge row no_fields = row
merge row (field k v rest) = merge (set k v row) rest

-- an optional text as a value
abbrev pub opt_text : Option String → Json
opt_text none = null
opt_text (some s) = text s

abbrev pub opt_row : Option Row → Json
opt_row none = null
opt_row (some row) = object row
