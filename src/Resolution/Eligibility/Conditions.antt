-- ===== src/Resolution/Eligibility/Conditions.antt =====
-- When a resolution record is eligible under a policy, told without the order of the checks in
-- src/pmkt/resolution/terminal_labels.py.
use pmkt_core.Prelude.{
  ◌≡◌, refl, ◌↔◌, Bool, true, false, not, ◌&&◌, List, [], ◌∷◌, Option, none, some, String,
  if◌then◌else◌, string_eq, any, is_some, arith, inl, inr, Option-cases, null,
}
use pmkt_core.Text.{strip}
use pmkt_core.Collections.Dict.{get}
use pmkt_core.Collections.Sets.{mem}
use pmkt_core.Json.{Value, Fields, Python, get_value}
use pmkt_core.Resolution.Rationals.{Numbers}
use pmkt_core.Resolution.Records.{json_array, ordered_outcomes}
use pmkt_core.Resolution.Eligibility.{
  ResolutionLabelPolicy, is_text, is_among, sources_or_default, sources_for_platform, field_text,
  finality_allowed, Mapping, mappings_of, texts_beq, outcome_mapping_assumed, platform_error,
  eligibility_error, is_authoritative_final_resolution,
}
use pmkt_core.Resolution.Eligibility.Settled.{is_text_iff, Settles, finality_iff, terminal_iff}

module _ (py : Python) (loads : String → Option Value) (numbers : Numbers) where
  abbrev pub is_default : Mapping py loads numbers → Bool
  is_default m = is_text "polymarket_default_binary_labels" m.source

  -- where an observation of a polymarket record names its outcomes by default, another one names those
  -- of the payouts
  abbrev pub IsObserved : Fields → Type 0
  IsObserved fs =
      let mappings =
        mappings_of py loads numbers
          (json_array py loads (get_value fs "source_observations_json")) in
      let outcomes = ordered_outcomes py loads (get_value fs "payouts_json") in
      field_text py loads numbers fs "platform" ≡ some "polymarket"
      → any is_default mappings ≡ true
      → any (λ m. not (is_default m) && texts_beq py loads numbers m.outcomes outcomes) mappings
        ≡ true

  unassumed : (a b c : Bool) → (a && b && not c ≡ false) ↔ (a ≡ true → b ≡ true → c ≡ true)
  unassumed true true c = (λ h _ _. ground arith, λ h. ground (arith, h refl refl))
  unassumed true false c = (λ h _ e. absurd cc, λ h. refl)
  unassumed false b c = (λ h e _. absurd cc, λ h. refl)

  assumed_iff :
      (fs : Fields) → (outcome_mapping_assumed py loads numbers fs ≡ false) ↔ IsObserved fs
  unfolding outcome_mapping_assumed
  assumed_iff fs =
      let platform = is_text_iff "polymarket" (field_text py loads numbers fs "platform") in
      let cases =
        unassumed (is_text "polymarket" (field_text py loads numbers fs "platform")) _ _ in
      (λ h e. cases.0 h (platform.1 e), λ h. cases.1 (λ e. h (platform.0 e)))

  -- no error of the resolver, a version that the policy allows, a source that it lists for the platform,
  -- and outcomes that are observed
  pub record IsEligible (fs : Fields) (policy : ResolutionLabelPolicy) : Type 0 where
    pub resolved : field_text py loads numbers fs "error_type" ≡ none
    pub version : String
    pub versioned : field_text py loads numbers fs "resolver_version" ≡ some version
    pub version_allowed : mem version policy.allowed_resolver_versions ≡ true
    pub platform : String
    pub on_platform : field_text py loads numbers fs "platform" ≡ some platform
    pub sources : List String
    pub listed :
        get (py.lower (strip platform)) (sources_or_default policy.allowed_sources) ≡ some sources
    pub source : String
    pub from_source : field_text py loads numbers fs "canonical_source" ≡ some source
    pub source_allowed : mem source sources ≡ true
    pub observed : IsObserved fs

  is_among_cases :
      (texts : List String) (o : Option String)
      → is_among texts o ≡ true
      → (t : String) × (o ≡ some t) × (mem t texts ≡ true)
  is_among_cases texts none h = absurd cc
  is_among_cases texts (some t) h = (t, refl, h)

  error_free :
      (inconsistent final : Bool) (error : Option String) (version : Bool) (rest : Option String)
      → ((if inconsistent
            then some "inconsistent_resolution"
            else if not final
            then some "noncanonical_or_nonfinal_resolution"
            else if is_some error
            then some "resolver_error"
            else if not version
            then some "resolver_version_mismatch"
            else rest)
          ≡ none)
        ↔ ((inconsistent ≡ false)
            × (final ≡ true)
            × (error ≡ none)
            × (version ≡ true)
            × (rest ≡ none))
  error_free inconsistent final error version rest = (λ h. ground arith, λ h. ground arith)

  platform_free :
      (unlisted source labelled assumed : Bool)
      → (Path
          (Option String)
          (if unlisted
            then some "platform_not_allowed"
            else if not source
            then some "canonical_source_not_allowed"
            else if not labelled
            then some "terminal_label_unavailable"
            else if assumed
            then some "outcome_mapping_assumed"
            else none)
          none)
        ↔ ((unlisted ≡ false) × (source ≡ true) × (labelled ≡ true) × (assumed ≡ false))
  platform_free unlisted source labelled assumed = (λ h. ground arith, λ h. ground arith)

  none_iff : (o : Option String) → (not (is_some o) ≡ true) ↔ (o ≡ none)
  none_iff o = (λ h. ground arith, λ h. ground arith)

  -- no error is found with the record
  checks :
      (fs : Fields) (policy : ResolutionLabelPolicy)
      → (is_authoritative_final_resolution py loads numbers fs policy ≡ true) ↔ (
          (is_text "inconsistent" (field_text py loads numbers fs "resolution_state") ≡ false)
          × (finality_allowed py loads numbers fs policy.require_canonical
                policy.allow_platform_confirmed
              ≡ true)
          × (field_text py loads numbers fs "error_type" ≡ none)
          × (is_among policy.allowed_resolver_versions
                (field_text py loads numbers fs "resolver_version")
              ≡ true)
          × (platform_error py loads numbers fs policy (field_text py loads numbers fs "platform")
              ≡ none))
  unfolding is_authoritative_final_resolution eligibility_error
  checks fs policy =
      let none_found = none_iff (eligibility_error py loads numbers fs policy) in
      let free =
        error_free (is_text "inconsistent" (field_text py loads numbers fs "resolution_state"))
          (finality_allowed py loads numbers fs policy.require_canonical
            policy.allow_platform_confirmed)
          (field_text py loads numbers fs "error_type")
          (is_among policy.allowed_resolver_versions
            (field_text py loads numbers fs "resolver_version"))
          (platform_error py loads numbers fs policy (field_text py loads numbers fs "platform")) in
      (λ h. free.0 (none_found.0 h), λ h. none_found.1 (free.1 h))

  -- the sources of a platform that has any are those that the policy lists
  listed_sources :
      (policy : ResolutionLabelPolicy) (platform source : String)
      → mem source (sources_for_platform py loads numbers policy platform) ≡ true
      → (sources : List String) × (get
            (py.lower (strip platform))
            (sources_or_default policy.allowed_sources)
          ≡ some sources)
        × (mem source sources ≡ true)
  unfolding sources_for_platform mem
  listed_sources policy platform source h =
      elim (Option-cases
        (get (py.lower (strip platform)) (sources_or_default policy.allowed_sources))) [
          | inl e ↦ let gone : false ≡ true = rw e at h in absurd cc
          | inr (sources, e) ↦ (sources, e, rw e at h)
        ]

  sources_listed :
      (policy : ResolutionLabelPolicy) (platform source : String) (sources : List String)
      → get (py.lower (strip platform)) (sources_or_default policy.allowed_sources) ≡ some sources
      → mem source sources ≡ true
      → (null (sources_for_platform py loads numbers policy platform) ≡ false)
        × (mem source (sources_for_platform py loads numbers policy platform) ≡ true)
  unfolding sources_for_platform mem
  sources_listed policy platform source [] e h = absurd cc
  sources_listed policy platform source (s ∷ sources) e h = rw e (refl, h)

  -- a record that a policy takes as authoritative is eligible
  pub authoritative-IsEligible :
      (fs : Fields) (policy : ResolutionLabelPolicy)
      → is_authoritative_final_resolution py loads numbers fs policy ≡ true
      → IsEligible fs policy
  authoritative-IsEligible fs policy h =
      go (field_text py loads numbers fs "platform") refl ((checks fs policy).0 h).4
    where
      go :
          (platform : Option String)
          → field_text py loads numbers fs "platform" ≡ platform
          → platform_error py loads numbers fs policy platform ≡ none
          → IsEligible fs policy
      go none e p = absurd cc
      go (some platform) e p =
          let ok = (checks fs policy).0 h in
          let free = (platform_free _ _ _ _).0 p in
          let version = is_among_cases _ _ ok.3 in
          let source = is_among_cases _ _ free.1 in
          let sources = listed_sources policy platform source.0 source.2 in
          record {
            resolved = ok.2;
            version = version.0;
            versioned = version.1;
            version_allowed = version.2;
            platform = platform;
            on_platform = e;
            sources = sources.0;
            listed = sources.1;
            source = source.0;
            from_source = source.1;
            source_allowed = sources.2;
            observed = (assumed_iff fs).0 free.3;
          }

  -- an eligible record that has a label is authoritative
  pub IsEligible-authoritative :
      (fs : Fields) (policy : ResolutionLabelPolicy) (l : String)
      → IsEligible fs policy
      → Settles py loads numbers fs policy l
      → is_authoritative_final_resolution py loads numbers fs policy ≡ true
  IsEligible-authoritative fs policy l h s =
      let sources = sources_listed policy h.platform h.source h.sources h.listed h.source_allowed in
      let label = (terminal_iff py loads numbers fs policy l).1 s in
      (checks fs policy).1 (
        rw s.0.0 refl,
        (finality_iff py loads numbers fs policy).1 s.0,
        h.resolved,
        rw h.versioned h.version_allowed,
        rw h.on_platform (
            (platform_free _ _ _ _).1 (
              sources.0,
              rw h.from_source sources.1,
              rw label refl,
              (assumed_iff fs).1 h.observed,
            )),
      )
