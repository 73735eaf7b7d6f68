-- ===== src/Resolution/Terminal.antt =====
-- The terminal labels of src/pmkt/resolution/terminal_labels.py.
use pmkt_core.Prelude.{
  Bool, false, not, ◌&&◌, ◌||◌, List, [], ◌∷◌, Option, none, some, String, if◌then◌else◌, string_eq,
  nat_eq, ◌==◌, length, map,
}
use pmkt_core.Text.{strip, truthy}
use pmkt_core.Collections.Dict.{get, put}
use pmkt_core.Collections.Sets.{same}
use pmkt_core.Json.{Value, obj, Fields, Python, str, str_or, get_value}
use pmkt_core.Resolution.Rationals.{
  Fraction, Numbers, is_zero, is_one, is_unit, valid_binary_payout_pair, exact_payout_label,
  exact_scalar_label,
}
use pmkt_core.Resolution.Records.{is_blank, clean_text, outcome_of, json_array}

abbrev pub within_unit : Fraction → Option Fraction
within_unit f = if is_unit f then some f else none

-- by_outcome and indexed
pub record Payouts : Type 0 where
  pub by_outcome : List (String × Fraction)
  pub indexed : List Fraction

abbrev pub no_payouts : Payouts
no_payouts = record { by_outcome = []; indexed = [] }

abbrev pub known_terminal_labels : List String
known_terminal_labels = "yes" ∷ "no" ∷ "refund" ∷ []

abbrev pub first_label : Option String → Option String → Option String
first_label (some label) rest = some label
first_label none rest = rest

abbrev pub is_platform : String → Option String → Bool
is_platform platform none = false
is_platform platform (some p) = p == platform

module _ (py : Python) (loads : String → Option Value) (numbers : Numbers) where
  -- Fraction(str(value).strip())
  unfoldable pub fraction_of : Value → Option Fraction
  unfolding str strip
  fraction_of value = numbers.fraction_of_text (strip (str py value))

  abbrev quotient : Option Fraction → Option Fraction → Option Fraction
  quotient none denominator = none
  quotient (some n) none = none
  quotient (some n) (some d) = if is_zero d then none else within_unit (numbers.divided n d)

  -- payout_fraction from the numerator on
  unfoldable pub quoted_fraction : Fields → Option Fraction
  unfolding is_blank fraction_of get_value
  quoted_fraction payout =
      let numerator = get_value payout "numerator" in
      let denominator = get_value payout "denominator" in
      if is_blank numerator || is_blank denominator
      then none
      else quotient (fraction_of numerator) (fraction_of denominator)

  abbrev direct_fraction : Fields → Option Fraction → Option Fraction
  direct_fraction payout (some f) = within_unit f
  direct_fraction payout none = quoted_fraction payout

  -- payout_fraction
  unfoldable pub payout_fraction : Fields → Option Fraction
  unfolding quoted_fraction is_blank fraction_of get_value
  payout_fraction payout =
      let value = get_value payout "payout" in
      if is_blank value then quoted_fraction payout else direct_fraction payout (fraction_of value)

  abbrev add_payout : String → Option Fraction → Payouts → Payouts
  add_payout outcome none p = p
  add_payout outcome (some ratio) p = record {
    by_outcome = if truthy outcome then put outcome ratio p.by_outcome else p.by_outcome;
    indexed = ratio ∷ p.indexed;
  }

  -- the loop of terminal_from_payouts
  unfoldable pub collect_payouts : List Value → Payouts → Payouts
  unfolding payout_fraction outcome_of put truthy
  collect_payouts [] p = p
  collect_payouts (obj payout ∷ payouts) p =
      collect_payouts payouts (add_payout (outcome_of py loads payout) (payout_fraction payout) p)
  collect_payouts (_ ∷ payouts) p = collect_payouts payouts p

  abbrev pub pair_label : Fraction → Fraction → Option String
  pair_label on_yes on_no =
      if not (valid_binary_payout_pair on_yes on_no)
      then none
      else if is_one on_yes && is_zero on_no
      then some "yes"
      else if is_zero on_yes && is_one on_no
      then some "no"
      else if is_one on_yes && is_one on_no
      then some "refund"
      else if not (is_zero on_yes) || not (is_zero on_no)
      then some (exact_payout_label numbers on_yes on_no)
      else none

  abbrev pub binary_label : Payouts → Option Fraction → Option Fraction → Option String
  binary_label p (some on_yes) (some on_no) =
      if same (map (λ e. e.0) p.by_outcome) ("yes" ∷ "no" ∷ []) && length p.indexed == 2
      then pair_label on_yes on_no
      else none
  binary_label p _ _ = none

  -- the label of the collected payouts
  unfoldable pub label_of_payouts : Payouts → Option String
  unfolding get same valid_binary_payout_pair exact_payout_label
  label_of_payouts p = binary_label p (get "yes" p.by_outcome) (get "no" p.by_outcome)

  -- terminal_from_payouts
  unfoldable pub terminal_from_payouts : Value → Option String
  unfolding json_array collect_payouts label_of_payouts
  terminal_from_payouts value =
      label_of_payouts (collect_payouts (json_array py loads value) no_payouts)

  abbrev scalar_of : Option Fraction → Option String
  scalar_of none = none
  scalar_of (some f) = if is_unit f then some (exact_scalar_label numbers f) else none

  -- scalar_terminal_from_value
  unfoldable pub scalar_terminal_from_value : Value → Option String
  unfolding is_blank fraction_of exact_scalar_label
  scalar_terminal_from_value value = if is_blank value then none else scalar_of (fraction_of value)

  -- the only payout of a scalar record
  unfoldable pub scalar_payout : List Value → Option String
  unfolding outcome_of payout_fraction exact_scalar_label
  scalar_payout (obj payout ∷ []) =
      let outcome = outcome_of py loads payout in
      if outcome == "" || outcome == "scalar"
      then (elim (payout_fraction payout) [
        | none ↦ none
        | some ratio ↦ some (exact_scalar_label numbers ratio)
      ])
      else none
  scalar_payout _ = none

  -- terminal_from_scalar_record
  unfoldable pub terminal_from_scalar_record : Fields → Option String
  unfolding str_or strip scalar_terminal_from_value scalar_payout json_array get_value
  terminal_from_scalar_record fs =
      if py.lower (strip (str_or py (get_value fs "result_type") "")) == "scalar"
      then first_label (scalar_terminal_from_value (get_value fs "settlement_value_dollars")) (
          first_label (scalar_terminal_from_value (get_value fs "result"))
            (scalar_payout (json_array py loads (get_value fs "payouts_json"))))
      else none

  abbrev settled : Option Fraction → Option String
  settled none = none
  settled (some f) =
      if is_unit f
      then (if is_one f
          then some "yes"
          else if is_zero f
          then some "no"
          else some (exact_scalar_label numbers f))
      else none

  -- terminal_from_kalshi_settlement
  unfoldable pub terminal_from_kalshi_settlement : Fields → Option String
  unfolding clean_text is_blank fraction_of exact_scalar_label get_value
  terminal_from_kalshi_settlement fs =
      let value = get_value fs "settlement_value_dollars" in
      if is_platform "kalshi" (clean_text py loads (get_value fs "platform"))
        && not (is_blank value)
      then settled (fraction_of value)
      else none
