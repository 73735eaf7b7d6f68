-- ===== src/Resolution/Labels.antt =====
-- What the labels of resolved markets say of the payouts.
use pmkt_core.Prelude.{
  ◌≡◌, refl, ap, sym, ◌∙◌, true, false, not, ◌&&◌, ◌||◌, [], ◌∷◌, Option, none, some, String,
  if◌then◌else◌, string_eq, nat_eq, ◌==◌, length, map, arith, inl, inr, Bool-cases,
}
use mathlib.Core.Option.{some-injective}
use Prim.Native.Char.{code}
use Prim.Native.String.append
use Prim.Native.String.{[] as end_of_text, ◌∷◌ as cons_text, ◌++◌ as append_text}
use pmkt_core.Collections.Dict.{get}
use pmkt_core.Collections.Sets.{same}
use pmkt_core.Json.{Value, Python}
use pmkt_core.Resolution.Rationals.{
  Fraction, Numbers, is_zero, is_one, valid_binary_payout_pair, exact_payout_label, after_prefix,
}
use pmkt_core.Resolution.Records.{json_array}
use pmkt_core.Resolution.Terminal.{
  Payouts, no_payouts, collect_payouts, label_of_payouts, terminal_from_payouts, pair_label,
  binary_label,
}

pub after_prefix-append : (p t : String) → after_prefix p (append_text p t) ≡ some t
unfolding after_prefix
after_prefix-append end_of_text t = ap some (append.nil t)
after_prefix-append (cons_text c p) t =
    rw (append.cons c p t, after_prefix-append p t, (nat_eq.beq_iff (code c) (code c)).1 refl) refl

-- a label of a fraction is none of the known labels
payout_label_not : (s : String) → append_text "payout:yes=" s ≡ "yes" → ⊥
unfolding after_prefix
payout_label_not s h =
    let gone : some s ≡ none =
      sym (after_prefix-append "payout:yes=" s) ∙ ap (after_prefix "payout:yes=") h in
    absurd cc

other_label : (s : String) → (s == "yes") ≡ false → some s ≡ some "yes" → ⊥
other_label s n h =
    let same = (string_eq.beq_iff s "yes").1 (some-injective s "yes" h) in absurd (ground arith)

-- a binary pair of payouts that settles a market to YES
pub record WonByYes (p : Payouts) : Type 0 where
  pub on_yes : Fraction
  pub on_no : Fraction
  pub named_yes : get "yes" p.by_outcome ≡ some on_yes
  pub named_no : get "no" p.by_outcome ≡ some on_no
  pub one : is_one on_yes ≡ true
  pub zero : is_zero on_no ≡ true
  pub only : same (map (λ e. e.0) p.by_outcome) ("yes" ∷ "no" ∷ []) ≡ true
  pub pair : (length p.indexed == 2) ≡ true

module _ (py : Python) (loads : String → Option Value) (numbers : Numbers) where
  -- the last branches of the label of a pair
  unsettled :
      (y n : Fraction)
      → (if is_zero y && is_one n
          then some "no"
          else if is_one y && is_one n
          then some "refund"
          else if not (is_zero y) || not (is_zero n)
          then some (exact_payout_label numbers y n)
          else none)
        ≡ some "yes"
      → ⊥
  unfolding exact_payout_label
  unsettled y n h = elim (Bool-cases (is_zero y && is_one n)) [
    | inl a ↦ other_label "no" refl (rw a at h)
    | inr a ↦ elim (Bool-cases (is_one y && is_one n)) [
      | inl b ↦ other_label "refund" refl (rw (a, b) at h)
      | inr b ↦ elim (Bool-cases (not (is_zero y) || not (is_zero n))) [
        | inl c ↦
            let same : Path (Option String) (some (exact_payout_label numbers y n)) (some "yes") =
              rw (a, b, c) at h in
            payout_label_not _ (some-injective _ _ same)
        | inr c ↦ let gone : Path (Option String) none (some "yes") = rw (a, b, c) at h in absurd cc
      ]
    ]
  ]

  label-yes : (p : Payouts) → label_of_payouts py loads numbers p ≡ some "yes" → WonByYes p
  unfolding label_of_payouts
  label-yes p h = go (get "yes" p.by_outcome) refl (get "no" p.by_outcome) refl h
    where
      settled :
          (y n : Fraction)
          → pair_label py loads numbers y n ≡ some "yes"
          → (is_one y ≡ true) × (is_zero n ≡ true)
      settled y n h = elim (Bool-cases (not (valid_binary_payout_pair y n))) [
        | inl v ↦ let gone : Path (Option String) none (some "yes") = rw v at h in absurd cc
        | inr v ↦ elim (Bool-cases (is_one y && is_zero n)) [
          | inl w ↦ (ground arith, ground arith)
          | inr w ↦ absurd (unsettled y n (rw (v, w) at h))
        ]
      ]

      go :
          (a : Option Fraction)
          → get "yes" p.by_outcome ≡ a
          → (b : Option Fraction) → get "no" p.by_outcome ≡ b
          → binary_label py loads numbers p a b ≡ some "yes"
          → WonByYes p
      go none e b f h = absurd cc
      go (some y) e none f h = absurd cc
      go (some y) e (some n) f h =
          elim (Bool-cases
            (same (map (λ e. e.0) p.by_outcome) ("yes" ∷ "no" ∷ []) && length p.indexed == 2)) [
              | inr b ↦ let gone : Path (Option String) none (some "yes") = rw b at h in absurd cc
              | inl b ↦
                  let won : (is_one y ≡ true) × (is_zero n ≡ true) = settled y n (rw b at h) in
                  record {
                    on_yes = y;
                    on_no = n;
                    named_yes = e;
                    named_no = f;
                    one = won.0;
                    zero = won.1;
                    only = ground arith;
                    pair = ground arith;
                  }
            ]

  -- a market is labelled YES by its payouts only if exactly two payouts could be read, of the outcomes
  -- yes and no and of no others, and they are 1 for yes and 0 for no
  pub terminal_from_payouts-yes :
      (value : Value)
      → terminal_from_payouts py loads numbers value ≡ some "yes"
      → WonByYes (collect_payouts py loads numbers (json_array py loads value) no_payouts)
  unfolding terminal_from_payouts
  terminal_from_payouts-yes value h =
      label-yes (collect_payouts py loads numbers (json_array py loads value) no_payouts) h
