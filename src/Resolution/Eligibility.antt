-- ===== src/Resolution/Eligibility.antt =====
-- Which resolution records may label a market: the policy and the finality of
-- src/pmkt/resolution/terminal_labels.py.
pub mod Conditions
pub mod Settled
use pmkt_core.Prelude.{
  ℕ, Bool, true, false, not, ◌&&◌, ◌||◌, List, [], ◌∷◌, Option, none, some, String, if◌then◌else◌,
  string_eq, ◌==◌, null, any, or_else, is_some,
}
use pmkt_core.Text.{strip}
use pmkt_core.Collections.Dict.{get}
use pmkt_core.Collections.Sets.{mem}
use pmkt_core.Json.{Value, obj, Fields, Python, str, get_value, find}
use pmkt_core.Resolution.Rationals.{Numbers}
use pmkt_core.Resolution.Records.{is_missing, clean_text, json_array, ordered_outcomes}
use pmkt_core.Resolution.Terminal.{
  known_terminal_labels, terminal_from_payouts, terminal_from_scalar_record,
  terminal_from_kalshi_settlement, first_label,
}

pub record ResolutionLabelPolicy : Type 0 where
  pub policy_id : String
  pub allowed_sources : Option (List (String × List String))
  pub allowed_resolver_versions : List String
  pub require_canonical : Bool
  pub allow_platform_confirmed : Bool
  pub allow_market_fallback_for_scoring : Bool
  pub allow_market_fallback_for_fit : Bool
  pub allow_proxy_labels : Bool

abbrev pub default_allowed_sources : List (String × List String)
default_allowed_sources =
    ("polymarket", "polygon_ctf" ∷ [])
    ∷ ("kalshi", "kalshi_rest" ∷ "kalshi_historical_rest" ∷ [])
    ∷ []

-- DEFAULT_LABEL_POLICY
abbrev pub default_label_policy : ResolutionLabelPolicy
default_label_policy = record {
  policy_id = "canonical_final_binary.v1";
  allowed_sources = none;
  allowed_resolver_versions =
      "market_resolution_resolver.v2" ∷ "market_resolution_resolver.v3" ∷ [];
  require_canonical = true;
  allow_platform_confirmed = false;
  allow_market_fallback_for_scoring = true;
  allow_market_fallback_for_fit = false;
  allow_proxy_labels = false;
}

-- self.allowed_sources or DEFAULT_ALLOWED_SOURCES
abbrev pub sources_or_default : Option (List (String × List String)) → List (String × List String)
sources_or_default none = default_allowed_sources
sources_or_default (some sources) = if null sources then default_allowed_sources else sources

abbrev pub is_text : String → Option String → Bool
is_text expected none = false
is_text expected (some t) = t == expected

abbrev pub is_among : List String → Option String → Bool
is_among texts none = false
is_among texts (some t) = mem t texts

-- 1 for "yes", 0 for "no"
unfoldable pub binary_of : Option String → Option ℕ
binary_of terminal =
    if is_text "yes" terminal then some 1 else if is_text "no" terminal then some 0 else none

module _ (py : Python) (loads : String → Option Value) (numbers : Numbers) where
  -- policy.sources_for_platform(platform)
  unfoldable pub sources_for_platform : ResolutionLabelPolicy → String → List String
  unfolding strip get
  sources_for_platform policy platform =
      or_else (get (py.lower (strip platform)) (sources_or_default policy.allowed_sources)) []

  abbrev pub field_text : Fields → String → Option String
  field_text fs key = clean_text py loads (get_value fs key)

  -- _finality_allowed
  unfoldable pub finality_allowed : Fields → Bool → Bool → Bool
  unfolding clean_text get_value
  finality_allowed fs require_canonical allow_platform_confirmed =
      is_text "final" (field_text fs "resolution_state")
      && (is_text "canonical" (field_text fs "confidence")
          || (is_text "platform_confirmed" (field_text fs "confidence")
              && (allow_platform_confirmed || not require_canonical)))

  -- _authoritative_terminal_label_from_resolution
  unfoldable pub authoritative_terminal_label : Fields → ResolutionLabelPolicy → Option String
  unfolding finality_allowed terminal_from_payouts terminal_from_kalshi_settlement clean_text
      get_value
  authoritative_terminal_label fs policy =
      let platform = field_text fs "platform" in
      if not (finality_allowed fs policy.require_canonical policy.allow_platform_confirmed)
      then none
      else if is_text "polymarket" platform
      then terminal_from_payouts py loads numbers (get_value fs "payouts_json")
      else if is_text "kalshi" platform
      then terminal_from_kalshi_settlement py loads numbers fs
      else none

  -- the source of an observation, and the outcomes that it names
  pub record Mapping : Type 0 where
    pub source : Option String
    pub outcomes : List String

  abbrev mapping_of : Fields → Value → Option Mapping
  mapping_of observation (obj evidence) = elim (find evidence "outcome_labels") [
    | none ↦ none
    | some labels ↦ some record {
      source = field_text observation "source";
      outcomes = ordered_outcomes py loads labels;
    }
  ]
  mapping_of observation _ = none

  abbrev more_mappings : Option Mapping → List Mapping → List Mapping
  more_mappings none rest = rest
  more_mappings (some m) rest = m ∷ rest

  unfoldable pub mappings_of : List Value → List Mapping
  unfolding clean_text ordered_outcomes get_value find
  mappings_of [] = []
  mappings_of (obj observation ∷ values) =
      more_mappings (mapping_of observation (get_value observation "evidence")) (mappings_of values)
  mappings_of (_ ∷ values) = mappings_of values

  unfoldable pub texts_beq : List String → List String → Bool
  texts_beq [] [] = true
  texts_beq (s ∷ ss) (t ∷ ts) = s == t && texts_beq ss ts
  texts_beq _ _ = false

  -- _polymarket_outcome_mapping_assumed
  unfoldable pub outcome_mapping_assumed : Fields → Bool
  unfolding mappings_of ordered_outcomes json_array texts_beq clean_text get_value
  outcome_mapping_assumed fs =
      let mappings = mappings_of (json_array py loads (get_value fs "source_observations_json")) in
      let payout_outcomes = ordered_outcomes py loads (get_value fs "payouts_json") in
      is_text "polymarket" (field_text fs "platform")
      && any (λ m. is_text "polymarket_default_binary_labels" m.source) mappings
      && not (
          any
            (λ m.
              not (is_text "polymarket_default_binary_labels" m.source)
              && texts_beq m.outcomes payout_outcomes)
            mappings)

  abbrev pub platform_error : Fields → ResolutionLabelPolicy → Option String → Option String
  platform_error fs policy none = some "platform_missing"
  platform_error fs policy (some platform) =
      let sources = sources_for_platform policy platform in
      if null sources
      then some "platform_not_allowed"
      else if not (is_among sources (field_text fs "canonical_source"))
      then some "canonical_source_not_allowed"
      else if not (is_some (authoritative_terminal_label fs policy))
      then some "terminal_label_unavailable"
      else if outcome_mapping_assumed fs
      then some "outcome_mapping_assumed"
      else none

  -- _eligibility_error
  unfoldable pub eligibility_error : Fields → ResolutionLabelPolicy → Option String
  unfolding finality_allowed sources_for_platform authoritative_terminal_label
      outcome_mapping_assumed clean_text get_value mem
  eligibility_error fs policy =
      if is_text "inconsistent" (field_text fs "resolution_state")
      then some "inconsistent_resolution"
      else if not (finality_allowed fs policy.require_canonical policy.allow_platform_confirmed)
      then some "noncanonical_or_nonfinal_resolution"
      else if is_some (field_text fs "error_type")
      then some "resolver_error"
      else if not (is_among policy.allowed_resolver_versions (field_text fs "resolver_version"))
      then some "resolver_version_mismatch"
      else platform_error fs policy (field_text fs "platform")

  -- is_authoritative_final_resolution
  unfoldable pub is_authoritative_final_resolution : Fields → ResolutionLabelPolicy → Bool
  unfolding eligibility_error
  is_authoritative_final_resolution fs policy = not (is_some (eligibility_error fs policy))

  abbrev known_label : Value → Option String
  known_label value =
      if is_missing value
      then none
      else let normalized = py.lower (strip (str py value)) in
        if mem normalized known_terminal_labels then some normalized else none

  -- terminal_label_from_resolution
  unfoldable pub terminal_label_from_resolution : Fields → Bool → Option String
  unfolding finality_allowed terminal_from_payouts terminal_from_scalar_record
      terminal_from_kalshi_settlement mem str strip get_value
  terminal_label_from_resolution fs require_canonical =
      if not (finality_allowed fs require_canonical false)
      then none
      else first_label (terminal_from_payouts py loads numbers (get_value fs "payouts_json")) (
          first_label (terminal_from_scalar_record py loads numbers fs) (
            first_label (terminal_from_kalshi_settlement py loads numbers fs) (
              first_label (known_label (get_value fs "winner"))
                (known_label (get_value fs "result")))))

  -- binary_yes_outcome_from_resolution
  unfoldable pub binary_yes_outcome_from_resolution : Fields → Bool → Option ℕ
  unfolding terminal_label_from_resolution binary_of
  binary_yes_outcome_from_resolution fs require_canonical =
      binary_of (terminal_label_from_resolution fs require_canonical)
