-- ===== src/Resolution/Training/Binary.antt =====
-- What the training label of src/pmkt/resolution/terminal_labels.py says of the record.
use pmkt_core.Prelude.{
  ◌≡◌, refl, sym, ◌∙◌, ◌↔◌, ◌⊎◌, Bool, true, false, not, ◌&&◌, Option, none, some, String, ℕ,
  if◌then◌else◌, string_eq, ◌==◌, is_some, arith, inl, inr, Option-cases,
}
use pmkt_core.Json.{Value, Fields, Python}
use pmkt_core.Resolution.Rationals.{Numbers}
use pmkt_core.Resolution.Eligibility.{
  ResolutionLabelPolicy, authoritative_terminal_label, eligibility_error, binary_of, is_text,
  is_authoritative_final_resolution,
}
use pmkt_core.Resolution.Eligibility.Settled.{is_text_iff, Settles, terminal_iff}
use pmkt_core.Resolution.Eligibility.Conditions.{
  IsEligible, authoritative-IsEligible, IsEligible-authoritative,
}
use pmkt_core.Resolution.Training.{
  ResolutionTrainingLabel, resolution_training_label, training_label_of, quality_for_exclusion,
}

both_true : (a b : Bool) → a && b ≡ true → (a ≡ true) × (b ≡ true)
both_true a b h = (ground arith, ground arith)

both_hold : (a b : Bool) → a ≡ true → b ≡ true → a && b ≡ true
both_hold a b h k = ground arith

binary_number :
    (won lost : Bool) (x : Option ℕ)
    → x ≡ (if won then some 1 else if lost then some 0 else none)
    → (lost ≡ true → won ≡ false)
    → ((is_some x ≡ true) ↔ ((won ≡ true) ⊎ (lost ≡ true)))
      × ((x ≡ some 1) ↔ (won ≡ true))
      × ((x ≡ some 0) ↔ (lost ≡ true))
binary_number won lost x e d = (
  (λ h. ground arith, λ h. ground arith),
  (λ h. ground arith, λ h. ground arith),
  (λ h. ground arith, λ h. ground arith),
)

-- a label has a number exactly if it is YES or NO
binary_iff :
    (terminal : Option String)
    → ((is_some (binary_of terminal) ≡ true) ↔ ((terminal ≡ some "yes") ⊎ (terminal ≡ some "no")))
      × ((binary_of terminal ≡ some 1) ↔ (terminal ≡ some "yes"))
      × ((binary_of terminal ≡ some 0) ↔ (terminal ≡ some "no"))
unfolding binary_of
binary_iff terminal =
    let won = is_text_iff "yes" terminal in
    let lost = is_text_iff "no" terminal in
    let apart : is_text "no" terminal ≡ true → is_text "yes" terminal ≡ false =
      λ h. let e = lost.0 h in rw e refl in
    let n = binary_number (is_text "yes" terminal) (is_text "no" terminal) _ refl apart in
    (
      (
        λ h. elim (n.0.0 h) [ inl a ↦ inl (won.0 a) | inr b ↦ inr (lost.0 b) ],
        λ h. n.0.1 (elim h [ inl a ↦ inl (won.1 a) | inr b ↦ inr (lost.1 b) ]),
      ),
      (λ h. won.0 (n.1.0 h), λ h. n.1.1 (won.1 h)),
      (λ h. lost.0 (n.2.0 h), λ h. n.2.1 (lost.1 h)),
    )

module _ (py : Python) (loads : String → Option Value) (numbers : Numbers) where
  quality_not_binary :
      (e : String) (state : Option String)
      → (quality_for_exclusion e state == "canonical_binary") ≡ false
  unfolding quality_for_exclusion
  quality_not_binary e state = pick _ _ _
    where
      pick :
          (a b c : Bool)
          → ◌==◌ {A = String}
              (if a
                then "conflict"
                else if b
                then "error"
                else if c
                then "noncanonical"
                else "unavailable")
              "canonical_binary"
            ≡ false
      pick true b c = refl
      pick false true c = refl
      pick false false true = refl
      pick false false false = refl

  -- what is said below of a label
  abbrev IsFair : ResolutionTrainingLabel → Option String → Bool → Type 0
  IsFair label terminal authoritative =
      ((label.quality == "canonical_binary") ≡ (authoritative && is_some (binary_of terminal)))
      × (label.terminal_label ≡ terminal)
      × (label.binary_yes ≡ binary_of terminal)

  IsFair-known :
      (fs : Fields) (t : String)
      → IsFair
          (training_label_of py loads numbers fs (some t) (binary_of (some t)) none)
          (some t)
          true
  IsFair-known fs t = elim (Option-cases (binary_of (some t))) [
    | inl n ↦ rw n (refl, refl, refl)
    | inr (b, e) ↦ rw e (refl, refl, refl)
  ]

  fair :
      (fs : Fields) (terminal : Option String) (error : Option String)
      → IsFair
          (training_label_of py loads numbers fs terminal (binary_of terminal) error)
          terminal
          (not (is_some error))
  unfolding binary_of
  fair fs terminal (some e) = (quality_not_binary e _, refl, refl)
  fair fs none none = (refl, refl, refl)
  fair fs (some t) none = IsFair-known fs t

  -- the same of the training label of a record
  label-IsFair :
      (fs : Fields) (policy : ResolutionLabelPolicy)
      → IsFair
          (resolution_training_label py loads numbers fs policy)
          (authoritative_terminal_label py loads numbers fs policy)
          (is_authoritative_final_resolution py loads numbers fs policy)
  unfolding resolution_training_label is_authoritative_final_resolution
  label-IsFair fs policy =
      fair fs (authoritative_terminal_label py loads numbers fs policy)
        (eligibility_error py loads numbers fs policy)

  -- a training label has quality canonical_binary exactly where the record is eligible under the policy
  -- and settles to YES or NO; its label is the one that the record settles to, and its number is 1
  -- exactly where that is YES and 0 exactly where it is NO
  pub training_label-binary :
      (fs : Fields) (policy : ResolutionLabelPolicy) (l : String)
      → let label = resolution_training_label py loads numbers fs policy in
        ((label.quality ≡ "canonical_binary") ↔ (
          IsEligible py loads numbers fs policy
          × (Settles py loads numbers fs policy "yes" ⊎ Settles py loads numbers fs policy "no")))
        × ((label.terminal_label ≡ some l) ↔ Settles py loads numbers fs policy l)
        × ((label.binary_yes ≡ some 1) ↔ Settles py loads numbers fs policy "yes")
        × ((label.binary_yes ≡ some 0) ↔ Settles py loads numbers fs policy "no")
  training_label-binary fs policy l =
      let f = label-IsFair fs policy in
      let n = binary_iff (authoritative_terminal_label py loads numbers fs policy) in
      let at = terminal_iff py loads numbers fs policy in
      let quality = (resolution_training_label py loads numbers fs policy).quality in
      let is_quality = string_eq.beq_iff quality "canonical_binary" in
      (
        (
          λ h.
              let both = both_true _ _ (sym f.0 ∙ is_quality.1 h) in
              (
                authoritative-IsEligible py loads numbers fs policy both.0,
                elim (n.0.0 both.1) [ inl e ↦ inl ((at "yes").0 e) | inr e ↦ inr ((at "no").0 e) ],
              ),
          λ h. is_quality.0 (
              f.0 ∙ elim h.1 [
                | inl s ↦
                    both_hold _ _ (IsEligible-authoritative py loads numbers fs policy "yes" h.0 s)
                      (n.0.1 (inl ((at "yes").1 s)))
                | inr s ↦
                    both_hold _ _ (IsEligible-authoritative py loads numbers fs policy "no" h.0 s)
                      (n.0.1 (inr ((at "no").1 s)))
              ]),
        ),
        (λ h. (at l).0 (sym f.1 ∙ h), λ h. f.1 ∙ (at l).1 h),
        (λ h. (at "yes").0 (n.1.0 (sym f.2 ∙ h)), λ h. f.2 ∙ n.1.1 ((at "yes").1 h)),
        (λ h. (at "no").0 (n.2.0 (sym f.2 ∙ h)), λ h. f.2 ∙ n.2.1 ((at "no").1 h)),
      )
