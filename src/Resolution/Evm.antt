-- ===== src/Resolution/Evm.antt =====
-- The codecs of src/pmkt/resolution/evm.py: words of 32 bytes as hexadecimal texts. `none` stands for
-- the ValueError or the EvmRpcError.
pub mod Words
use Prim.Native.Char.{Char, char, code}
use Prim.Native.String.{[] as end_of_text, ◌∷◌ as cons_text, count}
use pmkt_core.Prelude.{
  ℕ, zero, suc, ◌+◌, ◌-◌, ◌*◌, ◌/◌, ◌%◌, ◌^◌, Bool, true, false, not, ◌&&◌, ◌||◌, Option, none,
  some, String, if◌then◌else◌, ltb, leb, nat_eq, string_eq, ◌==◌, or_else,
}
use pmkt_core.Text.{strip, truthy}
use pmkt_core.Streaming.Projection.{◌>>=◌}
use pmkt_core.Resolution.Rationals.{after_prefix}

-- a digit in lower case
unfoldable pub hex_char : ℕ → Char
hex_char d =
    if d == 0
    then char 48 tt
    else if d == 1
    then char 49 tt
    else if d == 2
    then char 50 tt
    else if d == 3
    then char 51 tt
    else if d == 4
    then char 52 tt
    else if d == 5
    then char 53 tt
    else if d == 6
    then char 54 tt
    else if d == 7
    then char 55 tt
    else if d == 8
    then char 56 tt
    else if d == 9
    then char 57 tt
    else if d == 10
    then char 97 tt
    else if d == 11
    then char 98 tt
    else if d == 12
    then char 99 tt
    else if d == 13
    then char 100 tt
    else if d == 14
    then char 101 tt
    else char 102 tt

-- [0-9a-fA-F], with its value
unfoldable pub digit_of : ℕ → Option ℕ
digit_of c =
    if leb 48 c && leb c 57
    then some (c - 48)
    else if leb 97 c && leb c 102
    then some (c - 87)
    else if leb 65 c && leb c 70
    then some (c - 55)
    else none

-- the last digits of a number, before a text
unfoldable pub hex_before : ℕ → ℕ → String → String
unfolding hex_char
hex_before zero n rest = rest
hex_before (suc width) n rest = hex_before width (n / 16) (cons_text (hex_char (n % 16)) rest)

-- _uint256, of an integer that is not negative
unfoldable pub uint256 : ℕ → Option String
unfolding hex_before
uint256 n = if ltb n (2 ^ 256) then some (hex_before 64 n "") else none

-- int(text, 16) of a text of digits, after others that had the value n
unfoldable pub parse_hex : ℕ → String → Option ℕ
unfolding digit_of
parse_hex n end_of_text = some n
parse_hex n (cons_text c s) = digit_of (code c) >>= λ d. parse_hex (n * 16 + d) s

abbrev word_value : Option String → Option ℕ
word_value none = none
word_value (some digits) =
    if leb 1 (count digits) && leb (count digits) 64 then parse_hex 0 digits else none

-- _parse_uint256, of a text
unfoldable pub parse_uint256 : String → Option ℕ
unfolding after_prefix parse_hex
parse_uint256 text = word_value (after_prefix "0x" text)

-- [0-9a-f]
abbrev pub is_lower_hex : ℕ → Bool
is_lower_hex c = (leb 48 c && leb c 57) || (leb 97 c && leb c 102)

unfoldable pub all_lower_hex : String → Bool
all_lower_hex end_of_text = true
all_lower_hex (cons_text c s) = is_lower_hex (code c) && all_lower_hex s

-- raw.rjust(width, "0") where the width is n more than the length
unfoldable pub zeros_before : ℕ → String → String
zeros_before zero s = s
zeros_before (suc n) s = cons_text (char 48 tt) (zeros_before n s)

-- _normalize_hex32, of a text; `lower` is str.lower
unfoldable pub normalize_hex32 : (String → String) → String → Option String
unfolding strip truthy after_prefix all_lower_hex zeros_before
normalize_hex32 lower value =
    let text = lower (strip value) in
    let raw = or_else (after_prefix "0x" text) text in
    if truthy raw && leb (count raw) 64 && all_lower_hex raw
    then some (zeros_before (64 - count raw) raw)
    else none
