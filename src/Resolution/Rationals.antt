-- ===== src/Resolution/Rationals.antt =====
-- Python's fractions.Fraction as src/pmkt/resolution/terminal_labels.py uses it, and the texts of its
-- labels. The denominator of a fraction is positive.
use Prim.Native.String.{[] as end_of_text, ◌∷◌ as cons_text, ◌++◌ as append_text}
use Prim.Native.Char.{code}
use pmkt_core.Prelude.{
  ℕ, ◌*◌, Bool, false, not, ◌&&◌, ◌||◌, Option, none, some, String, if◌then◌else◌, nat_eq,
  string_eq, ◌==◌,
}
use pmkt_core.Prelude.Int.{ℤ, pos, ◌+ℤ◌, scale, beq_ℤ, ltb_ℤ}

pub record Fraction : Type 0 where
  pub numerator : ℤ
  pub denominator : ℕ

-- What the program uses of the Python library.
pub record Numbers : Type 0 where
  -- Fraction(text), `none` where it raises
  pub fraction_of_text : String → Option Fraction
  -- a / b of fractions, b not 0
  pub divided : Fraction → Fraction → Fraction
  -- str of an int
  pub int_text : ℤ → String

abbrev pub is_zero : Fraction → Bool
is_zero f = beq_ℤ f.numerator (pos 0)

abbrev pub is_one : Fraction → Bool
is_one f = beq_ℤ f.numerator (pos f.denominator)

-- 0 <= f <= 1
abbrev pub is_unit : Fraction → Bool
is_unit f = not (ltb_ℤ f.numerator (pos 0)) && not (ltb_ℤ (pos f.denominator) f.numerator)

-- f + g == 1
unfoldable pub sum_is_one : Fraction → Fraction → Bool
unfolding scale ◌+ℤ◌
sum_is_one f g =
    beq_ℤ (scale f.numerator g.denominator +ℤ scale g.numerator f.denominator)
      (pos (f.denominator * g.denominator))

-- text.removeprefix(prefix) of a text that starts with the prefix
unfoldable pub after_prefix : String → String → Option String
after_prefix end_of_text t = some t
after_prefix (cons_text c p) end_of_text = none
after_prefix (cons_text c p) (cons_text d t) =
    let rest = after_prefix p t in if code c == code d then rest else none

module _ (numbers : Numbers) where
  -- format_fraction
  unfoldable pub format_fraction : Fraction → String
  format_fraction f =
      if f.denominator == 1
      then numbers.int_text f.numerator
      else append_text (numbers.int_text f.numerator)
          (append_text "/" (numbers.int_text (pos f.denominator)))

  -- exact_payout_label
  unfoldable pub exact_payout_label : Fraction → Fraction → String
  unfolding format_fraction
  exact_payout_label on_yes on_no =
      append_text "payout:yes="
        (append_text (format_fraction on_yes) (append_text ",no=" (format_fraction on_no)))

  -- exact_scalar_label
  unfoldable pub exact_scalar_label : Fraction → String
  unfolding format_fraction
  exact_scalar_label f = append_text "scalar:" (format_fraction f)

  abbrev scalar_label_of : String → Option Fraction → Bool
  scalar_label_of text none = false
  scalar_label_of text (some f) = if is_unit f then text == exact_scalar_label f else false

  abbrev scalar_label_after : String → Option String → Bool
  scalar_label_after text none = false
  scalar_label_after text (some raw) = scalar_label_of text (numbers.fraction_of_text raw)

  -- is_exact_scalar_label
  unfoldable pub is_exact_scalar_label : String → Bool
  unfolding after_prefix exact_scalar_label
  is_exact_scalar_label text = scalar_label_after text (after_prefix "scalar:" text)

-- _valid_binary_payout_pair
unfoldable pub valid_binary_payout_pair : Fraction → Fraction → Bool
unfolding sum_is_one
valid_binary_payout_pair on_yes on_no =
    is_unit on_yes && is_unit on_no && ((is_one on_yes && is_one on_no) || sum_is_one on_yes on_no)
