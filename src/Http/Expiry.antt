-- ===== src/Http/Expiry.antt =====
-- `OperationExpiry` of src/pmkt/runtime.py. The clock is an argument, and times are natural numbers of
-- a unit; a timeout that is no finite positive number is refused.
use pmkt_core.Prelude.{
  ℕ, ◌+◌, ◌-◌, ◌≤◌, ◌≡◌, refl, sym, ap, Bool, true, false, Option, none, some, if◌then◌else◌,
  nat_eq, ◌==◌, min, arith, inl, inr, Bool-cases,
}
use pmkt_core.Prelude.Int.{ℤ, pos, negsuc}

pub data ExpiryError : Type 0 where
  type_error value_error operation_timeout : ExpiryError

pub data Result (A : Type 0) : Type 0 where
  ok : A → Result A
  error : ExpiryError → Result A

-- what is passed as a timeout: None, a number, an infinity or NaN, or another value
pub data Timeout : Type 0 where
  no_timeout : Timeout
  number : ℤ → Timeout
  not_finite : Timeout
  no_number : Timeout

pub record OperationExpiry : Type 0 where
  pub deadline_monotonic : Option ℕ

unfoldable pub positive : Timeout → Result ℕ
positive (number (pos n)) = if n == 0 then error value_error else ok n
positive (number (negsuc _)) = error value_error
positive not_finite = error value_error
positive _ = error type_error

abbrev until : ℕ → Result ℕ → Result OperationExpiry
until clock (ok timeout) = ok record { deadline_monotonic = some (clock + timeout) }
until clock (error e) = error e

-- OperationExpiry.after
unfoldable pub after : ℕ → Timeout → Result OperationExpiry
unfolding positive
after clock no_timeout = ok record { deadline_monotonic = none }
after clock timeout = until clock (positive timeout)

-- OperationExpiry.bounded
unfoldable pub bounded : ℕ → Timeout → Result OperationExpiry
unfolding after
bounded clock no_timeout = error type_error
bounded clock timeout = after clock timeout

unfoldable pub remaining_s : ℕ → OperationExpiry → Option ℕ
remaining_s clock e = elim e.deadline_monotonic [ none ↦ none | some d ↦ some (d - clock) ]

abbrev refuse_spent : Option ℕ → Result Unit
refuse_spent none = ok tt
refuse_spent (some remaining) = if remaining == 0 then error operation_timeout else ok tt

unfoldable pub checkpoint : ℕ → OperationExpiry → Result Unit
unfolding remaining_s
checkpoint clock e = refuse_spent (remaining_s clock e)

abbrev cap : Option ℕ → Result ℕ → Result ℕ
cap none timeout = timeout
cap (some remaining) (error e) = error e
cap (some remaining) (ok timeout) =
    if remaining == 0 then error operation_timeout else ok (min timeout remaining)

unfoldable pub capped_timeout : ℕ → Timeout → OperationExpiry → Result ℕ
unfolding remaining_s positive
capped_timeout clock timeout e = cap (remaining_s clock e) (positive timeout)

-- Whether a capped timeout keeps to its bounds: it is positive, at most the timeout, and does not
-- reach past the deadline; a refusal as timed out comes only at or after the deadline.
abbrev pub IsCapped : ℕ → ℕ → ℕ → Result ℕ → Type 0
IsCapped clock deadline timeout (ok t) = (1 ≤ t) × (t ≤ timeout) × (clock + t ≤ deadline)
IsCapped clock deadline timeout (error e) = deadline ≤ clock

deadline_in : Result OperationExpiry → Option ℕ
deadline_in (ok e) = e.deadline_monotonic
deadline_in (error _) = none

after-deadline :
    (s d : ℕ) (e : OperationExpiry)
    → after s (number (pos d)) ≡ ok e
    → e.deadline_monotonic ≡ some (s + d)
unfolding after positive deadline_in
after-deadline s d e a = go (d == 0) a
  where
    go :
        (b : Bool)
        → until s (if b then error value_error else ok d) ≡ ok e
        → e.deadline_monotonic ≡ some (s + d)
    go true a = absurd cc
    go false a = sym (ap deadline_in a)

capped_timeout-value :
    (now n : ℕ) (e : OperationExpiry) (deadline : ℕ)
    → 1 ≤ n
    → e.deadline_monotonic ≡ some deadline
    → capped_timeout now (number (pos n)) e ≡ cap (some (deadline - now)) (ok n)
unfolding capped_timeout remaining_s positive
capped_timeout-value now n e deadline h d = go e.deadline_monotonic (n == 0) d (ground arith)
  where
    go :
        (o : Option ℕ) (b : Bool)
        → o ≡ some deadline
        → b ≡ false
        → cap
            (elim o [ none ↦ none | some d ↦ some (d - now) ])
            (if b then error value_error else ok n)
          ≡ cap (some (deadline - now)) (ok n)
    go o b x y = rw (x, y) refl

cap-IsCapped :
    (now deadline n : ℕ) → 1 ≤ n → IsCapped now deadline n (cap (some (deadline - now)) (ok n))
cap-IsCapped now deadline n h = elim (Bool-cases ((deadline - now) == 0)) [
  | inl z ↦ rw z (ground arith)
  | inr z ↦ rw z (ground arith, omega arith, ground arith)
]

-- An operation that is started with a positive timeout d at a time s, and at a later time asks for a
-- request's timeout of n > 0, gets a positive time that is at most n and ends by s + d, or is
-- refused, which happens only from s + d on.
pub capped_timeout-IsCapped :
    (s d now n : ℕ) (e : OperationExpiry)
    → 1 ≤ n
    → after s (number (pos d)) ≡ ok e
    → IsCapped now (s + d) n (capped_timeout now (number (pos n)) e)
capped_timeout-IsCapped s d now n e h a =
    rw (capped_timeout-value now n e (s + d) h (after-deadline s d e a))
      (cap-IsCapped now (s + d) n h)
