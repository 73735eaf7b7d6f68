-- ===== src/Http/Returns.antt =====
-- What a request ends in after attempts that are retried: the response that is not retried, or the
-- OverflowError of a delay.
use pmkt_core.Prelude.{Bool, true, false, Option, none, some, String, string_eq, nat_eq}
use pmkt_core.Http.Policy.{
  Texts, Response, RequestPolicy, Date, too_large, Fallible, overflow_error, done,
}
use pmkt_core.Http.Request.{Sent, responded}

abbrev is_too_large : Date → Bool
is_too_large too_large = true
is_too_large _ = false

abbrev is_done : {A : Type 0} → Fallible A → Bool
is_done overflow_error = false
is_done (done _) = true

module _ (t : Texts) (p : RequestPolicy) where
  abbrev names_too_large : Option String → Bool
  names_too_large none = false
  names_too_large (some value) = is_too_large (t.date_difference value)

  -- a response whose Retry-After names a date that is too large
  abbrev pub asks_too_large : Sent → Bool
  asks_too_large (responded response) = names_too_large response.retry_after
  asks_too_large _ = false

  abbrev asked_too_large : Option Response → Bool
  asked_too_large none = false
  asked_too_large (some response) = asks_too_large (responded response)
