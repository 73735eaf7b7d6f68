-- ===== src/Tests/Resolution.antt =====
-- The theorems on resolution labels at concrete inputs.
use pmkt_core.Prelude.{
  ◌↔◌, ◌⊎◌, ◌≡◌, refl, true, false, Option, none, some, String, if◌then◌else◌, string_eq, nat_eq,
  ◌==◌,
}
use pmkt_core.Prelude.Int.{ℤ, pos, negsuc}
use pmkt_core.Json.{Value, text, obj, arr, Fields, end, field, nil, cons, Python}
use pmkt_core.Resolution.Rationals.{Fraction, Numbers}
use pmkt_core.Resolution.Records.{json_array}
use pmkt_core.Resolution.Terminal.{no_payouts, collect_payouts, terminal_from_payouts}
use pmkt_core.Resolution.Eligibility.{default_label_policy}
use pmkt_core.Resolution.Eligibility.Settled.{Settles}
use pmkt_core.Resolution.Eligibility.Conditions.{IsEligible}
use pmkt_core.Resolution.Training.Binary.{training_label-binary}
use pmkt_core.Resolution.Training.{resolution_training_label}
use pmkt_core.Resolution.Labels.{WonByYes, terminal_from_payouts-yes}

abbrev python : Python
python = record {
  one = 10000;
  decimal_numbers = true;
  decimal_of_text = λ _. none;
  fits_float = λ _. true;
  is_integer_text = λ _. false;
  str_of = λ _. "";
  float_of_number = λ _. none;
  float_of_text = λ _. none;
  lower = λ s. s;
  upper = λ s. s;
}

abbrev loads : String → Option Value
loads s = none

abbrev half : Fraction
half = record { numerator = pos 1; denominator = 2 }

-- the fractions of the examples
abbrev fraction_of_text : String → Option Fraction
fraction_of_text s =
    if s == "1"
    then some record { numerator = pos 1; denominator = 1 }
    else if s == "0"
    then some record { numerator = pos 0; denominator = 1 }
    else if s == "1/2"
    then some half
    else none

abbrev int_text : ℤ → String
int_text (pos n) = if n == 0 then "0" else if n == 1 then "1" else if n == 2 then "2" else "?"
int_text (negsuc n) = "-"

abbrev numbers : Numbers
numbers = record { fraction_of_text = fraction_of_text; divided = λ a b. a; int_text = int_text }

abbrev payout : String → String → Value
payout outcome ratio = obj (field "outcome" (text outcome) (field "payout" (text ratio) end))

abbrev payouts : Value
payouts = arr (cons (payout "yes" "1") (cons (payout "no" "0") nil))

terminal_from_payouts-yes_example :
    WonByYes (collect_payouts python loads numbers (json_array python loads payouts) no_payouts)
unfolding terminal_from_payouts
terminal_from_payouts-yes_example = terminal_from_payouts-yes python loads numbers payouts refl

abbrev resolved : Fields
resolved = field "platform" (text "polymarket") (
    field "resolution_state" (text "final") (
      field "confidence" (text "canonical") (
        field "canonical_source" (text "polygon_ctf") (
          field "resolver_version" (text "market_resolution_resolver.v3")
            (field "payouts_json" payouts end)))))

-- the record is labelled YES
resolved_label :
    (resolution_training_label python loads numbers resolved default_label_policy).quality
    ≡ "canonical_binary"
unfolding resolution_training_label
resolved_label = refl

training_label-binary_example :
    let label = resolution_training_label python loads numbers resolved default_label_policy in
    let Settled = Settles python loads numbers resolved default_label_policy in
    ((label.quality ≡ "canonical_binary") ↔ (
      IsEligible python loads numbers resolved default_label_policy
      × (Settled "yes" ⊎ Settled "no")))
    × ((label.terminal_label ≡ some "yes") ↔ Settled "yes")
    × ((label.binary_yes ≡ some 1) ↔ Settled "yes")
    × ((label.binary_yes ≡ some 0) ↔ Settled "no")
training_label-binary_example =
    training_label-binary python loads numbers resolved default_label_policy "yes"
