-- ===== src/Tests/Evm.antt =====
-- The theorems on the words of the chain at concrete inputs.
use Prim.Native.String.{◌++◌ as append_text, count}
use pmkt_core.Prelude.{◌<◌, ◌^◌, ◌≡◌, refl, true, some, String}
use pmkt_core.Resolution.Evm.{uint256, parse_uint256, normalize_hex32, all_lower_hex}
use pmkt_core.Resolution.Evm.Words.{parse_uint256-uint256, normalize_hex32-digits}

abbrev word_255 : String
word_255 = "00000000000000000000000000000000000000000000000000000000000000ff"

parse_uint256-uint256_example :
    (255 < 2 ^ 256) × (parse_uint256 (append_text "0x" word_255) ≡ some 255)
unfolding uint256
parse_uint256-uint256_example = parse_uint256-uint256 255 word_255 refl

abbrev word_ab : String
word_ab = "00000000000000000000000000000000000000000000000000000000000000ab"

normalize_hex32-digits_example : (count word_ab ≡ 64) × (all_lower_hex word_ab ≡ true)
unfolding normalize_hex32
normalize_hex32-digits_example = normalize_hex32-digits (λ s. s) " 0xab " word_ab refl
