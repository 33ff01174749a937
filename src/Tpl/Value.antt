-- ===== src/Tpl/Value.antt =====
-- The values that templates compute with: what `reflect.Value` holds during a render. Go maps have
-- string keys here and no order; their entries are kept in ascending order of the keys, which is the
-- order of `fmtsort.Sort`. Structs, with their methods and fields, are the host's.
use cartograph_nvim.Base.{
  ℕ, suc, ◌%◌, ◌^◌, Text, Bool, true, false, not, ◌||◌, Option, none, some, ◌==◌, List, [], ◌∷◌,
  length, text_eq, if◌then◌else◌,
}
use cartograph_nvim.Base.Int.{ℤ, pos, negsuc}
use cartograph_nvim.Tpl.Sym.{Sym}

pub data Typ : Type 0 where
  t_bool t_int t_uint t_float t_complex t_string t_any t_value t_map t_slice t_sym t_missing : Typ
  t_struct : ℕ → Typ
  t_pointer : Typ → Typ

mutual
  pub data Value : Type 0 where
    -- the zero reflect.Value, and the mark of a missing final argument
    invalid missing : Value
    -- a nil interface{}, an interface{} that holds a value; a nil pointer, a pointer
    nil_interface : Value
    interface : Value → Value
    nil_pointer : Typ → Value
    pointer : Value → Value
    bool : Bool → Value
    int : ℤ → Value
    uint : ℕ → Value
    -- by IEEE bits; a complex number, by those of its two parts
    float : ℕ → Value
    complex : ℕ × ℕ → Value
    str : Text → Value
    map_of : Entries → Value
    slice : Values → Value
    sym : Sym → Value
    -- a reflect.Value that holds a reflect.Value
    boxed : Value → Value
    object : ℕ → Value

  pub data Values : Type 0 where
    empty : Values
    also : Value → Values → Values

  pub data Entries : Type 0 where
    end : Entries
    entry : Text → Value → Entries → Entries

unfoldable pub count_values : Values → ℕ
count_values empty = 0
count_values (also v vs) = suc (count_values vs)

unfoldable pub keys : Entries → List Text
keys end = []
keys (entry k v es) = k ∷ keys es

-- MapIndex: none is the zero Value
unfoldable pub map_index : Entries → Text → Option Value
unfolding text_eq
map_index end k = none
map_index (entry j v es) k = if text_eq j k then some v else map_index es k

unfoldable pub is_valid : Value → Bool
is_valid invalid = false
is_valid _ = true

unfoldable pub is_missing : Value → Bool
is_missing missing = true
is_missing _ = false

-- The type of a valid value.
unfoldable pub type_of : Value → Typ
type_of invalid = t_any
type_of missing = t_missing
type_of nil_interface = t_any
type_of (interface v) = t_any
type_of (nil_pointer t) = t_pointer t
type_of (pointer v) = t_pointer (type_of v)
type_of (bool b) = t_bool
type_of (int n) = t_int
type_of (uint n) = t_uint
type_of (float n) = t_float
type_of (complex z) = t_complex
type_of (str s) = t_string
type_of (map_of es) = t_map
type_of (slice vs) = t_slice
type_of (sym y) = t_sym
type_of (boxed v) = t_value
type_of (object n) = t_struct n

-- isTrue; every kind of value here has a truth value, so its `ok` is always true.
unfoldable pub is_true : Value → Bool
is_true invalid = false
is_true nil_interface = false
is_true (nil_pointer t) = false
is_true (bool b) = b
is_true (int (pos n)) = not (n == 0)
is_true (int (negsuc n)) = true
is_true (uint n) = not (n == 0)
is_true (float n) = not (n % 2 ^ 63 == 0)
is_true (complex (a, b)) = not (a % 2 ^ 63 == 0) || not (b % 2 ^ 63 == 0)
is_true (str s) = not (length s == 0)
is_true (map_of end) = false
is_true (map_of (entry k v es)) = true
is_true (slice empty) = false
is_true (slice (also v vs)) = true
is_true _ = true

unfoldable pub indirect_interface : Value → Value
indirect_interface nil_interface = invalid
indirect_interface (interface v) = v
indirect_interface v = v

-- The value at the end of the indirections, and whether it is nil.
unfoldable pub indirect : Value → Value × Bool
indirect (pointer v) = indirect v
indirect (interface v) = indirect v
indirect nil_interface = (nil_interface, true)
indirect (nil_pointer t) = (nil_pointer t, true)
indirect v = (v, false)

-- The placeholder that a value is, through interfaces, pointers and boxes.
unfoldable pub sym_of : Value → Option Sym
sym_of (sym y) = some y
sym_of (interface v) = sym_of v
sym_of (pointer v) = sym_of v
sym_of (boxed v) = sym_of v
sym_of _ = none

unfoldable pub can_be_nil : Typ → Bool
can_be_nil t_any = true
can_be_nil t_value = true
can_be_nil t_map = true
can_be_nil t_slice = true
can_be_nil (t_pointer t) = true
can_be_nil _ = false

-- reflect.Zero
unfoldable pub zero_of : Typ → Value
zero_of t_bool = bool false
zero_of t_int = int (pos 0)
zero_of t_uint = uint 0
zero_of t_float = float 0
zero_of t_complex = complex (0, 0)
zero_of t_string = str []
zero_of t_any = nil_interface
zero_of t_value = boxed invalid
zero_of t_map = map_of end
zero_of t_slice = slice empty
zero_of t_sym = sym (record { path = []; expr = [] })
zero_of t_missing = missing
zero_of (t_struct n) = object n
zero_of (t_pointer t) = nil_pointer t
