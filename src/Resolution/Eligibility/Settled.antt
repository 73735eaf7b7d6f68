-- ===== src/Resolution/Eligibility/Settled.antt =====
-- What a final resolution record settles to, told without the order of the checks in
-- src/pmkt/resolution/terminal_labels.py.
use pmkt_core.Prelude.{
  ◌≡◌, refl, ap, ◌↔◌, ◌⊎◌, Bool, true, false, not, ◌&&◌, ◌||◌, Option, none, some, String,
  if◌then◌else◌, string_eq, arith, inl, inr,
}
use mathlib.Core.Option.{some-injective}
use pmkt_core.Json.{Value, Fields, Python, get_value}
use pmkt_core.Resolution.Rationals.{Numbers}
use pmkt_core.Resolution.Terminal.{terminal_from_payouts, terminal_from_kalshi_settlement}
use pmkt_core.Resolution.Eligibility.{
  ResolutionLabelPolicy, is_text, field_text, finality_allowed, authoritative_terminal_label,
}

pub is_text_iff : (t : String) (o : Option String) → (is_text t o ≡ true) ↔ (o ≡ some t)
is_text_iff t none = (λ h. absurd cc, λ h. absurd cc)
is_text_iff t (some s) = (
  λ h. ap some ((string_eq.beq_iff s t).0 h),
  λ h. (string_eq.beq_iff s t).1 (some-injective s t h),
)

module _ (py : Python) (loads : String → Option Value) (numbers : Numbers) where
  -- a final state, that is canonical or that the platform confirms under a policy that takes it
  abbrev pub IsFinal : Fields → ResolutionLabelPolicy → Type 0
  IsFinal fs policy =
      (field_text py loads numbers fs "resolution_state" ≡ some "final")
      × ((field_text py loads numbers fs "confidence" ≡ some "canonical")
          ⊎ ((field_text py loads numbers fs "confidence" ≡ some "platform_confirmed")
              × ((policy.allow_platform_confirmed ≡ true) ⊎ (policy.require_canonical ≡ false))))

  -- the label that the platform of a final record gives it
  abbrev pub Settles : Fields → ResolutionLabelPolicy → String → Type 0
  Settles fs policy l =
      IsFinal fs policy
      × (((field_text py loads numbers fs "platform" ≡ some "polymarket")
            × (terminal_from_payouts py loads numbers (get_value fs "payouts_json") ≡ some l))
          ⊎ ((field_text py loads numbers fs "platform" ≡ some "kalshi")
              × (terminal_from_kalshi_settlement py loads numbers fs ≡ some l)))

  is_allowed :
      (state canonical confirmed allow require : Bool)
      → (state && (canonical || (confirmed && (allow || not require))) ≡ true) ↔ (
          (state ≡ true)
          × ((canonical ≡ true) ⊎ ((confirmed ≡ true) × ((allow ≡ true) ⊎ (require ≡ false)))))
  is_allowed state c d a r = (λ h. ground arith, λ h. ground arith)

  settled :
      (allowed a b : Bool) (x y : Option String) (l : String)
      → ((if not allowed then none else if a then x else if b then y else none) ≡ some l) ↔ (
          (allowed ≡ true)
          × (((a ≡ true) × (x ≡ some l)) ⊎ ((a ≡ false) × (b ≡ true) × (y ≡ some l))))
  settled allowed a b x y l = (λ h. ground arith, λ h. ground arith)

  pub finality_iff :
      (fs : Fields) (policy : ResolutionLabelPolicy)
      → (finality_allowed py loads numbers fs policy.require_canonical
            policy.allow_platform_confirmed
          ≡ true)
        ↔ IsFinal fs policy
  unfolding finality_allowed
  finality_iff fs policy =
      let state = is_text_iff "final" (field_text py loads numbers fs "resolution_state") in
      let canonical = is_text_iff "canonical" (field_text py loads numbers fs "confidence") in
      let confirmed =
        is_text_iff "platform_confirmed" (field_text py loads numbers fs "confidence") in
      (
        λ h. ground (arith, state.0, canonical.0, confirmed.0),
        λ h. ground (arith, state.1, canonical.1, confirmed.1),
      )

  -- the label of the record is the one that its platform gives it, once it is final
  pub terminal_iff :
      (fs : Fields) (policy : ResolutionLabelPolicy) (l : String)
      → (authoritative_terminal_label py loads numbers fs policy ≡ some l) ↔ Settles fs policy l
  unfolding authoritative_terminal_label
  terminal_iff fs policy l =
      let platform = field_text py loads numbers fs "platform" in
      let polymarket = is_text_iff "polymarket" platform in
      let kalshi = is_text_iff "kalshi" platform in
      let final = finality_iff fs policy in
      let other : (platform ≡ some "kalshi") → is_text "polymarket" platform ≡ false =
        λ e. rw e refl in
      let cases =
        settled
          (finality_allowed py loads numbers fs policy.require_canonical
            policy.allow_platform_confirmed)
          (is_text "polymarket" platform) (is_text "kalshi" platform)
          (terminal_from_payouts py loads numbers (get_value fs "payouts_json"))
          (terminal_from_kalshi_settlement py loads numbers fs) l in
      (
        λ h. (
          final.0 (cases.0 h).0,
          elim (cases.0 h).1 [
            | inl q ↦ inl (polymarket.0 q.0, q.1)
            | inr q ↦ inr (kalshi.0 q.1, q.2)
          ],
        ),
        λ h. cases.1 (
          final.1 h.0,
          elim h.1 [
            | inl q ↦ inl (polymarket.1 q.0, q.1)
            | inr q ↦ inr (other q.0, kalshi.1 q.0, q.1)
          ],
        ),
      )
