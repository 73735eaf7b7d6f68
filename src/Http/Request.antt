-- ===== src/Http/Request.antt =====
-- `HttpClient._request` of src/pmkt/_http.py: one request with its retries. What the network and the
-- clock do is the record `Network`, asked by the number of the attempt.
use pmkt_core.Prelude.{
  ℕ, ◌+◌, Bool, ◌&&◌, List, [], ◌∷◌, none, some, String, if◌then◌else◌, string_eq, nat_eq, ◌==◌,
  zero, suc,
}
use Prim.Native.String.{◌++◌ as ◌<>◌}
use pmkt_core.Collections.Sets.{mem}
use pmkt_core.Http.Policy.{
  Texts, Response, RequestPolicy, Delay, Fallible, overflow_error, done, attempts_for,
  should_retry_response, delay_for,
}

-- what one attempt ends in: a response, an httpx.RequestError, or another exception
pub data Sent : Type 0 where
  responded : Response → Sent
  request_error other_error : Sent

pub record Network : Type 0 where
  -- expiry.checkpoint() before the attempt does not raise
  pub checkpoint : ℕ → Bool
  pub send : ℕ → Sent
  -- the sleep after the attempt is not cut off by the expiry
  pub sleeps : ℕ → Delay → Bool

-- what `_request` does, in order
pub data Action : Type 0 where
  sent : ℕ → Action
  slept : Delay → Action

-- what `_request` ends in; `failed_unexpectedly` is the RuntimeError after the loop
pub data Reply : Type 0 where
  returned : Response → Reply
  raised_request_error raised_other_error timed_out failed_unexpectedly : Reply

module _ (t : Texts) (p : RequestPolicy) where
  unfoldable pub normalized_path : String → String
  normalized_path request_path = "/" <> t.without_slashes (t.before_query request_path)

  -- _attempts_for
  unfoldable pub client_attempts_for : List String → String → String → List String → ℕ
  unfolding attempts_for normalized_path
  client_attempts_for retryable_post_paths method request_path headers =
      if (t.upper method == "POST") && mem (normalized_path request_path) retryable_post_paths
      then p.max_attempts
      else attempts_for t p method headers

  unfoldable pub request_path_of : String → String
  request_path_of path = if t.is_absolute path then path else t.without_slashes path

  module _ (n : Network) (attempts : ℕ) where
    -- the sleep before the next attempt, and what follows it; the OverflowError of a delay is not caught
    unfoldable pub sleep_then : ℕ → Fallible Delay → Reply × List Action → Reply × List Action
    sleep_then attempt overflow_error rest = (raised_other_error, sent attempt ∷ [])
    sleep_then attempt (done delay) rest =
        if n.sleeps attempt delay
        then (rest.0, sent attempt ∷ slept delay ∷ rest.1)
        else (timed_out, sent attempt ∷ [])

    unfoldable pub after_send : ℕ → Sent → Reply × List Action → Reply × List Action
    unfolding sleep_then should_retry_response delay_for
    after_send attempt (responded response) rest =
        if should_retry_response t p response
        then (if attempt == attempts
            then (returned response, sent attempt ∷ [])
            else sleep_then attempt (delay_for t p attempt (some response)) rest)
        else (returned response, sent attempt ∷ [])
    after_send attempt request_error rest =
        if attempt == attempts
        then (raised_request_error, sent attempt ∷ [])
        else sleep_then attempt (delay_for t p attempt none) rest
    after_send attempt other_error rest = (raised_other_error, sent attempt ∷ [])

    -- the loop from an attempt on, with that many attempts left
    unfoldable pub request_from : ℕ → ℕ → Reply × List Action
    unfolding after_send
    request_from zero attempt = (failed_unexpectedly, [])
    request_from (suc left) attempt =
        let rest = request_from left (attempt + 1) in
        if n.checkpoint attempt then after_send attempt (n.send attempt) rest else (timed_out, [])

  -- _request
  unfoldable pub request :
      Network → List String → String → String → List String → Reply × List Action
  unfolding client_attempts_for request_path_of request_from
  request n retryable_post_paths method path headers =
      let attempts =
        client_attempts_for retryable_post_paths method (request_path_of path) headers in
      request_from n attempts attempts 1
