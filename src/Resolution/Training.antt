-- ===== src/Resolution/Training.antt =====
-- The training label of a resolution record, in src/pmkt/resolution/terminal_labels.py.
pub mod Binary
use pmkt_core.Prelude.{◌||◌, String, Option, some, none, ℕ, if◌then◌else◌, [], ◌∷◌, ◌==◌, string_eq}
use pmkt_core.Collections.Sets.{mem}
use pmkt_core.Json.{Value, Fields, Python, get_value}
use pmkt_core.Resolution.Rationals.{Numbers}
use pmkt_core.Resolution.Records.{clean_text}
use pmkt_core.Resolution.Eligibility.{
  ResolutionLabelPolicy, field_text, authoritative_terminal_label, eligibility_error, binary_of,
  is_text,
}

pub record ResolutionTrainingLabel : Type 0 where
  pub terminal_label : Option String
  pub binary_yes : Option ℕ
  pub quality : String
  pub exclusion_reason : Option String
  pub canonical_source : Option String
  pub resolver_version : Option String
  pub result_type : Option String
  pub resolution_state : Option String
  pub confidence : Option String

-- _quality_for_exclusion
unfoldable pub quality_for_exclusion : String → Option String → String
unfolding mem
quality_for_exclusion exclusion state =
    if exclusion == "inconsistent_resolution" || is_text "inconsistent" state
    then "conflict"
    else if exclusion == "resolver_error"
    then "error"
    else if mem exclusion (
        "noncanonical_or_nonfinal_resolution" ∷ "resolver_version_mismatch" ∷ "platform_missing"
        ∷ "platform_not_allowed" ∷ "canonical_source_not_allowed" ∷ [])
    then "noncanonical"
    else "unavailable"

module _ (py : Python) (loads : String → Option Value) (numbers : Numbers) where
  abbrev label_with :
      Fields → Option String → Option ℕ → String → Option String → ResolutionTrainingLabel
  label_with fs terminal binary quality reason = record {
    terminal_label = terminal;
    binary_yes = binary;
    quality = quality;
    exclusion_reason = reason;
    canonical_source = field_text py loads numbers fs "canonical_source";
    resolver_version = field_text py loads numbers fs "resolver_version";
    result_type = field_text py loads numbers fs "result_type";
    resolution_state = field_text py loads numbers fs "resolution_state";
    confidence = field_text py loads numbers fs "confidence";
  }

  abbrev pub training_label_of :
      Fields → Option String → Option ℕ → Option String → ResolutionTrainingLabel
  training_label_of fs terminal binary (some exclusion) =
      label_with fs terminal binary
        (quality_for_exclusion exclusion (field_text py loads numbers fs "resolution_state"))
        (some exclusion)
  training_label_of fs none binary none =
      label_with fs none none "unavailable" (some "terminal_label_unavailable")
  training_label_of fs (some terminal) none none =
      label_with fs (some terminal) none "canonical_nonbinary" (some "nonbinary_terminal_label")
  training_label_of fs (some terminal) (some b) none =
      label_with fs (some terminal) (some b) "canonical_binary" none

  -- resolution_training_label
  unfoldable pub resolution_training_label :
      Fields → ResolutionLabelPolicy → ResolutionTrainingLabel
  unfolding authoritative_terminal_label eligibility_error binary_of quality_for_exclusion
      clean_text get_value
  resolution_training_label fs policy =
      let terminal = authoritative_terminal_label py loads numbers fs policy in
      training_label_of fs terminal (binary_of terminal)
        (eligibility_error py loads numbers fs policy)
