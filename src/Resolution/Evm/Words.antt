-- ===== src/Resolution/Evm/Words.antt =====
-- A word that is encoded is decoded, and a condition's identifier has 64 digits.
use Prim.Native.Char.{code, char}
use Prim.Native.String.count
use Prim.Native.String.{◌∷◌ as cons_text, ◌++◌ as append_text, count as count_text}
use pmkt_core.Prelude.{
  ℕ, zero, suc, ◌+◌, ◌-◌, ◌*◌, ◌/◌, ◌%◌, ◌^◌, ◌<◌, ◌≡◌, refl, ap, ◌∙◌, Bool, true, ◌&&◌, Option,
  none, some, String, if◌then◌else◌, ltb, leb, nat_eq, string_eq, or_else, inl, inr, Bool-cases,
  arith,
}
use mathlib.Core.Option.{some-injective}
use mathlib.Core.Path.{subst}
use pmkt_core.Text.{truthy, strip}
use pmkt_core.Resolution.Rationals.{after_prefix}
use pmkt_core.Resolution.Labels.{after_prefix-append}
use pmkt_core.Resolution.Evm.{
  hex_char, digit_of, hex_before, uint256, parse_hex, parse_uint256, word_value, all_lower_hex,
  zeros_before, normalize_hex32,
}

digit_of-hex_char : (d : ℕ) → d < 16 → digit_of (code (hex_char d)) ≡ some d
unfolding digit_of hex_char
digit_of-hex_char zero h = refl
digit_of-hex_char (suc zero) h = refl
digit_of-hex_char (suc (suc zero)) h = refl
digit_of-hex_char (suc (suc (suc zero))) h = refl
digit_of-hex_char (suc (suc (suc (suc zero)))) h = refl
digit_of-hex_char (suc (suc (suc (suc (suc zero))))) h = refl
digit_of-hex_char (suc (suc (suc (suc (suc (suc zero)))))) h = refl
digit_of-hex_char (suc (suc (suc (suc (suc (suc (suc zero))))))) h = refl
digit_of-hex_char (suc (suc (suc (suc (suc (suc (suc (suc zero)))))))) h = refl
digit_of-hex_char (suc (suc (suc (suc (suc (suc (suc (suc (suc zero))))))))) h = refl
digit_of-hex_char (suc (suc (suc (suc (suc (suc (suc (suc (suc (suc zero)))))))))) h = refl
digit_of-hex_char (suc (suc (suc (suc (suc (suc (suc (suc (suc (suc (suc zero))))))))))) h = refl
digit_of-hex_char (suc (suc (suc (suc (suc (suc (suc (suc (suc (suc (suc (suc zero)))))))))))) h =
    refl
digit_of-hex_char (suc (suc (suc (suc (suc (suc (suc (suc (suc (suc (suc (suc (suc zero)))))))))))))
      h =
    refl
digit_of-hex_char
      (suc (suc (suc (suc (suc (suc (suc (suc (suc (suc (suc (suc (suc (suc zero)))))))))))))) h =
    refl
digit_of-hex_char
      (suc (suc (suc (suc (suc (suc (suc (suc (suc (suc (suc (suc (suc (suc (suc zero)))))))))))))))
      h =
    refl
digit_of-hex_char
      (suc
        (suc (suc (suc (suc (suc (suc (suc (suc (suc (suc (suc (suc (suc (suc (suc d))))))))))))))))
      h =
    absurd (omega arith)

-- 16 to a power
abbrev power : ℕ → ℕ
power zero = 1
power (suc w) = power w * 16

parse_hex-hex_before :
    (w n : ℕ) (rest : String) → n < power w → parse_hex 0 (hex_before w n rest) ≡ parse_hex n rest
unfolding parse_hex hex_before
parse_hex-hex_before zero n rest h = ap (λ x. parse_hex x rest) (omega arith)
parse_hex-hex_before (suc w) n rest h =
    let digit = digit_of-hex_char (n % 16) (omega arith) in
    parse_hex-hex_before w (n / 16) (cons_text (hex_char (n % 16)) rest) (omega arith)
    ∙ (rw (parse_hex, digit) (ap (λ x. parse_hex x rest) (omega arith)))

count-hex_before :
    (w n : ℕ) (rest : String) → count_text (hex_before w n rest) ≡ w + count_text rest
unfolding hex_before
count-hex_before zero n rest = omega arith
count-hex_before (suc w) n rest =
    let one = count.cons (hex_char (n % 16)) rest in
    count-hex_before w (n / 16) (cons_text (hex_char (n % 16)) rest) ∙ (rw one (omega arith))

below : (n m : ℕ) → ltb n m ≡ true → n < m
below n m h = ground arith

-- the digits of a word are read back
parse_encoded :
    (n : ℕ) → n < power 64 → parse_uint256 (append_text "0x" (hex_before 64 n "")) ≡ some n
unfolding parse_uint256 parse_hex
parse_encoded n h =
    let size : count_text (hex_before 64 n "") ≡ 64 =
      count-hex_before 64 n "" ∙ ap (λ k. 64 + k) count.nil in
    let sized : (leb 1 (count_text (hex_before 64 n ""))
          && leb (count_text (hex_before 64 n "")) 64)
        ≡ true =
      ap (λ k. leb 1 k && leb k 64) size in
    ap word_value (after_prefix-append "0x" (hex_before 64 n ""))
    ∙ ap (λ b. if b then parse_hex 0 (hex_before 64 n "") else none) sized
    ∙ parse_hex-hex_before 64 n "" h

-- an integer that _uint256 encodes is below 2 ** 256, and _parse_uint256 reads it back from the text
-- with the prefix 0x
pub parse_uint256-uint256 :
    (n : ℕ) (digits : String)
    → uint256 n ≡ some digits
    → (n < 2 ^ 256) × (parse_uint256 (append_text "0x" digits) ≡ some n)
unfolding uint256 parse_uint256
parse_uint256-uint256 n digits h = elim (Bool-cases (ltb n (2 ^ 256))) [
  | inr b ↦ let gone : Path (Option String) none (some digits) = rw (uint256, b) at h in absurd cc
  | inl b ↦
      let same : hex_before 64 n "" ≡ digits = some-injective _ _ (rw (uint256, b) at h) in
      let small = below n (2 ^ 256) b in
      (small, subst (λ t. parse_uint256 (append_text "0x" t) ≡ some n) same (parse_encoded n small))
]

count-zeros_before : (k : ℕ) (s : String) → count_text (zeros_before k s) ≡ k + count_text s
unfolding zeros_before
count-zeros_before zero s = omega arith
count-zeros_before (suc k) s =
    count.cons (char 48 tt) (zeros_before k s) ∙ (let rest = count-zeros_before k s in omega arith)

all_lower_hex-zeros_before :
    (k : ℕ) (s : String) → all_lower_hex (zeros_before k s) ≡ all_lower_hex s
unfolding zeros_before all_lower_hex
all_lower_hex-zeros_before zero s = refl
all_lower_hex-zeros_before (suc k) s = all_lower_hex-zeros_before k s

-- what _normalize_hex32 accepts is turned into exactly 64 hexadecimal digits in lower case
pub normalize_hex32-digits :
    (lower : String → String) (value digits : String)
    → normalize_hex32 lower value ≡ some digits
    → (count_text digits ≡ 64) × (all_lower_hex digits ≡ true)
unfolding normalize_hex32
normalize_hex32-digits lower value digits h =
    let text = lower (strip value) in
    let raw = or_else (after_prefix "0x" text) text in
    elim (Bool-cases (truthy raw && leb (count_text raw) 64 && all_lower_hex raw)) [
      | inr b ↦
          let gone : Path (Option String) none (some digits) = rw (normalize_hex32, b) at h in
          absurd cc
      | inl b ↦
          let same : zeros_before (64 - count_text raw) raw ≡ digits =
            some-injective _ _ (rw (normalize_hex32, b) at h) in
          let facts = split_accepted (truthy raw) (count_text raw) (all_lower_hex raw) b in
          subst (λ t. (count_text t ≡ 64) × (all_lower_hex t ≡ true)) same
            (
              count-zeros_before (64 - count_text raw) raw ∙ facts.0,
              all_lower_hex-zeros_before (64 - count_text raw) raw ∙ facts.1,
            )
    ]
  where
    split_accepted :
        (a : Bool) (k : ℕ) (c : Bool)
        → (a && leb k 64 && c) ≡ true
        → ((64 - k) + k ≡ 64) × (c ≡ true)
    split_accepted a k c h = (ground arith, ground arith)
