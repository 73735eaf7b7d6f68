-- ===== src/Json.antt =====
-- The values of a decoded JSON frame, and what the program asks of one: src/pmkt/data/types.py,
-- and Python's dict access, truth and str.
-- A number that is not an integer is the decimal that Python prints for it: an integer of units, `one`
-- of which make 1. All decimals of a session have a common denominator, so such a unit exists.
use pmkt_core.Prelude.{
  ◌*◌, ◌-◌, nat_eq, ◌^◌, ◌%◌, ℕ, ◌+◌, ◌/◌, Bool, true, false, not, ◌&&◌, List, [], ◌∷◌, Option,
  none, some, String, if◌then◌else◌, ltb, leb, or_else, string_eq, ◌==◌,
}
use pmkt_core.Prelude.Int.{ℤ, pos, negsuc, beq_ℤ, scale, sub_ℕ}
use Prim.Native.String.{count}
use pmkt_core.Text.{strip, truthy}

mutual
  pub data Value : Type 0 where
    null_value nonfinite : Value
    bool : Bool → Value
    int num : ℤ → Value
    text : String → Value
    obj : Fields → Value
    arr : Items → Value

  -- the entries of an object, in order
  pub data Fields : Type 0 where
    end : Fields
    field : String → Value → Fields → Fields

  pub data Items : Type 0 where
    nil : Items
    cons : Value → Items → Items

-- What `Decimal(text)` gives: its value, or an infinity or a NaN.
pub data Parsed : Type 0 where
  finite : ℤ → Parsed
  not_finite : Parsed

-- What the program uses of the Python library.
pub record Python : Type 0 where
  -- units in 1
  pub one : ℕ
  -- json.loads reads a number that is not an integer as a Decimal, not as a float
  pub decimal_numbers : Bool
  -- Decimal(text), `none` where it raises
  pub decimal_of_text : String → Option Parsed
  -- math.isfinite(float(number)) of a decimal
  pub fits_float : ℤ → Bool
  -- _INTEGER_VALUE_TEXT_RE.fullmatch(text) is not None
  pub is_integer_text : String → Bool
  -- str(value) of a value that is no text
  pub str_of : Value → String
  -- float(number) of a number and float(text), as bits, `none` where it is not finite or text raises
  pub float_of_number : ℤ → Option ℕ
  pub float_of_text : String → Option ℕ
  pub lower : String → String
  pub upper : String → String

-- message.get(key), with `none` where the key is absent
unfoldable pub find : Fields → String → Option Value
find end key = none
find (field k v fs) key = if k == key then some v else find fs key

-- message.get(key): None where the key is absent
unfoldable pub get_value : Fields → String → Value
unfolding find
get_value fs key = or_else (find fs key) null_value

-- message.get(first, message.get(second, ...)), and the first of the keys that is present
unfoldable pub first_present : Fields → List String → Value
unfolding find
first_present fs [] = null_value
first_present fs (key ∷ keys) = or_else (find fs key) (first_present fs keys)

abbrev pub is_none : Value → Bool
is_none null_value = true
is_none _ = false

-- bool(value)
unfoldable pub is_truthy : Value → Bool
unfolding truthy
is_truthy null_value = false
is_truthy (bool b) = b
is_truthy (int n) = not (beq_ℤ n (pos 0))
is_truthy (num n) = not (beq_ℤ n (pos 0))
is_truthy nonfinite = true
is_truthy (text s) = truthy s
is_truthy (arr nil) = false
is_truthy (arr (cons _ _)) = true
is_truthy (obj end) = false
is_truthy (obj (field _ _ _)) = true

-- the largest integer of _MAX_TEXTUAL_INTEGER_DIGITS digits is below this
digit_limit : ℕ
digit_limit = 10 ^ 4300

module _ (py : Python) where
  -- str(value)
  unfoldable pub str : Value → String
  str (text s) = s
  str value = py.str_of value

  -- str(value or default)
  unfoldable pub str_or : Value → String → String
  unfolding is_truthy str
  str_or value default = if is_truthy value then str value else default

  integral_part : Bool → ℕ → Option ℤ
  unfolding digit_limit
  integral_part negative n =
      if (n % py.one == 0) && ltb (n / py.one) digit_limit
      then some (if negative then sub_ℕ 0 (n / py.one) else pos (n / py.one))
      else none

  -- _decimal_to_int
  unfoldable pub decimal_to_int : ℤ → Option ℤ
  unfolding integral_part
  decimal_to_int (pos n) = integral_part false n
  decimal_to_int (negsuc n) = integral_part true (n + 1)

  -- a float is refused beyond _MAX_SAFE_IEEE_754_INTEGER
  unfoldable pub float_to_int : ℤ → Option ℤ
  unfolding decimal_to_int
  float_to_int (pos n) = if leb n ((2 ^ 53 - 1) * py.one) then decimal_to_int (pos n) else none
  float_to_int (negsuc n) =
      if leb (n + 1) ((2 ^ 53 - 1) * py.one) then decimal_to_int (negsuc n) else none

  parsed_to_int : Option Parsed → Option ℤ
  unfolding decimal_to_int
  parsed_to_int (some (finite d)) = decimal_to_int d
  parsed_to_int (some not_finite) = none
  parsed_to_int none = none

  -- parse_int
  unfoldable pub parse_int : Value → Option ℤ
  unfolding parsed_to_int decimal_to_int float_to_int strip truthy
  parse_int (int n) = some n
  parse_int (num d) = if py.decimal_numbers then decimal_to_int d else float_to_int d
  parse_int (text s) =
      let t = strip s in
      if truthy t && leb (count t) 8632 && py.is_integer_text t
      then parsed_to_int (py.decimal_of_text t)
      else none
  parse_int _ = none

  if_fits : ℤ → Option ℤ
  if_fits d = if py.fits_float d then some d else none

  finite_parsed : Option Parsed → Option ℤ
  unfolding if_fits
  finite_parsed (some (finite d)) = if_fits d
  finite_parsed _ = none

  -- finite_decimal of src/pmkt/exchanges/book_integrity.py; the text of None, of a list and of an
  -- object is no decimal
  unfoldable pub finite_decimal : Value → Option ℤ
  unfolding finite_parsed if_fits
  finite_decimal (int n) = if_fits (scale n py.one)
  finite_decimal (num d) = if_fits d
  finite_decimal (text s) = finite_parsed (py.decimal_of_text s)
  finite_decimal _ = none

  -- parse_float, for numbers in the range of the floats or infinite
  unfoldable pub parse_float : Value → Option ℕ
  unfolding strip truthy
  parse_float (int n) = py.float_of_number (scale n py.one)
  parse_float (num d) = py.float_of_number d
  parse_float (text s) = let t = strip s in if truthy t then py.float_of_text t else none
  parse_float _ = none
