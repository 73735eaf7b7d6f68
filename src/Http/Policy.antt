-- ===== src/Http/Policy.antt =====
-- `RequestPolicy` and `parse_retry_after` of src/pmkt/runtime.py. Times are natural numbers of some
-- unit of a second, and `forever` is an infinite float.
use pmkt_core.Prelude.{
  ℕ, ◌-◌, ◌*◌, ◌^◌, Bool, true, false, List, [], ◌∷◌, Option, none, some, String, if◌then◌else◌,
  string_eq, nat_eq, ◌==◌, any, leb,
}
use pmkt_core.Prelude.Int.{ℤ, pos, negsuc}
use pmkt_core.Collections.Sets.{mem}
use pmkt_core.Text.{truthy}

pub data Seconds : Type 0 where
  finite : ℤ → Seconds
  plus_infinity minus_infinity not_a_number : Seconds

pub data Delay : Type 0 where
  seconds : ℕ → Delay
  forever : Delay

-- parsedate_to_datetime(text) - now: its TypeError and ValueError, and the OverflowError of a year or a
-- day that is no C integer
pub data Date : Type 0 where
  no_date too_large : Date
  from_now : ℤ → Date

-- a value, or an OverflowError
pub data Fallible (A : Type 0) : Type 0 where
  overflow_error : Fallible A
  done : A → Fallible A

-- What the policy uses of the Python library.
pub record Texts : Type 0 where
  pub upper : String → String
  pub lower : String → String
  -- float(text), `none` where it raises ValueError
  pub float_of : String → Option Seconds
  pub date_difference : String → Date
  -- text.split("?", 1)[0]
  pub before_query : String → String
  -- text.lstrip("/")
  pub without_slashes : String → String
  -- text.startswith("http://") or text.startswith("https://")
  pub is_absolute : String → Bool

pub record Response : Type 0 where
  pub status_code : ℕ
  -- response.headers.get("Retry-After")
  pub retry_after : Option String

pub record RequestPolicy : Type 0 where
  pub max_attempts : ℕ
  pub retry_status_codes : List ℕ
  pub retry_non_idempotent_methods : Bool
  pub idempotent_methods : List String
  pub idempotency_headers : List String
  pub backoff_base_s : ℕ
  pub backoff_max_s : ℕ
  pub max_retry_after_s : Option ℕ
  pub respect_retry_after : Bool

-- RequestPolicy(max_attempts=n) where a second is `second` units; `none` is the ValueError
unfoldable pub new_policy : ℕ → ℕ → Option RequestPolicy
new_policy second n =
    if n == 0
    then none
    else some record {
      max_attempts = n;
      retry_status_codes = 429 ∷ 500 ∷ 502 ∷ 503 ∷ 504 ∷ [];
      retry_non_idempotent_methods = false;
      idempotent_methods = "GET" ∷ "HEAD" ∷ "OPTIONS" ∷ "TRACE" ∷ "PUT" ∷ "DELETE" ∷ [];
      idempotency_headers = "Idempotency-Key" ∷ "X-Idempotency-Key" ∷ [];
      backoff_base_s = second;
      backoff_max_s = 10 * second;
      max_retry_after_s = some (60 * second);
      respect_retry_after = true;
    }

abbrev clip : ℤ → ℕ
clip (pos n) = n
clip (negsuc n) = 0

abbrev earliest : ℕ → Delay → ℕ
earliest limit forever = limit
earliest limit (seconds n) = if leb n limit then n else limit

module _ (t : Texts) where
  abbrev pub from_date : Date → Fallible (Option Delay)
  from_date no_date = done none
  from_date too_large = overflow_error
  from_date (from_now d) = done (some (seconds (clip d)))

  -- seconds if seconds >= 0 else None
  abbrev not_negative : Seconds → Option Delay
  not_negative (finite (pos n)) = some (seconds n)
  not_negative (finite (negsuc n)) = none
  not_negative plus_infinity = some forever
  not_negative minus_infinity = none
  not_negative not_a_number = none

  abbrev pub from_text : Option Seconds → String → Fallible (Option Delay)
  from_text none value = from_date (t.date_difference value)
  from_text (some s) value = done (not_negative s)

  -- parse_retry_after
  unfoldable pub parse_retry_after : Option String → Fallible (Option Delay)
  unfolding truthy
  parse_retry_after none = done none
  parse_retry_after (some value) =
      if truthy value then from_text (t.float_of value) value else done none

  module _ (p : RequestPolicy) where
    unfoldable pub lowered : List String → List String
    lowered [] = []
    lowered (name ∷ names) = t.lower name ∷ lowered names

    unfoldable pub has_idempotency_marker : List String → Bool
    unfolding lowered
    has_idempotency_marker headers =
        any (λ name. mem (t.lower name) (lowered headers)) p.idempotency_headers

    unfoldable pub attempts_for : String → List String → ℕ
    unfolding has_idempotency_marker
    attempts_for method headers =
        if p.retry_non_idempotent_methods
        then p.max_attempts
        else if mem (t.upper method) p.idempotent_methods
        then p.max_attempts
        else if has_idempotency_marker headers
        then p.max_attempts
        else 1

    unfoldable pub should_retry_response : Response → Bool
    should_retry_response response = mem response.status_code p.retry_status_codes

    -- the product of a float and 2 ** 1024, or a larger power, is an OverflowError
    unfoldable pub backoff : ℕ → Fallible Delay
    backoff attempt =
        if leb 1024 (attempt - 1)
        then overflow_error
        else done
            (seconds (earliest p.backoff_max_s (seconds (p.backoff_base_s * 2 ^ (attempt - 1)))))

    abbrev limited : Option ℕ → Delay → Delay
    limited none delay = delay
    limited (some limit) delay = seconds (earliest limit delay)

    unfoldable pub retry_delay : Fallible (Option Delay) → ℕ → Fallible Delay
    unfolding backoff
    retry_delay overflow_error attempt = overflow_error
    retry_delay (done none) attempt = backoff attempt
    retry_delay (done (some delay)) attempt = done (limited p.max_retry_after_s delay)

    -- delay_for
    unfoldable pub delay_for : ℕ → Option Response → Fallible Delay
    unfolding retry_delay parse_retry_after backoff
    delay_for attempt none = backoff attempt
    delay_for attempt (some response) =
        if p.respect_retry_after
        then retry_delay (parse_retry_after response.retry_after) attempt
        else backoff attempt
