-- ===== src/Http/Attempts.antt =====
-- How often a request is sent, and what it ends in.
use pmkt_core.Prelude.{
  ℕ, zero, suc, ◌+◌, ◌≤◌, ◌≡◌, Bool, true, false, ◌&&◌, List, [], ◌∷◌, String, string_eq, nat_eq,
  ◌==◌, arith,
}
use pmkt_core.Collections.Sets.{mem}
use pmkt_core.Http.Policy.{
  Texts, RequestPolicy, attempts_for, should_retry_response, has_idempotency_marker,
}
use pmkt_core.Http.Request.{
  Sent, responded, request_error, other_error, Network, Action, sent, slept, Reply, returned,
  raised_request_error, failed_unexpectedly, client_attempts_for, normalized_path, request_path_of,
  sleep_then, after_send, request_from, request,
}

-- how many times the request goes out
abbrev pub sent_count : List Action → ℕ
sent_count [] = 0
sent_count (sent _ ∷ actions) = suc (sent_count actions)
sent_count (slept _ ∷ actions) = sent_count actions

abbrev pub is_unexpected : Reply → Bool
is_unexpected failed_unexpectedly = true
is_unexpected _ = false

module _ (t : Texts) (p : RequestPolicy) where
  -- the reply is one that a further attempt could have mended
  abbrev pub gave_up : Reply → Bool
  gave_up (returned response) = should_retry_response t p response
  gave_up raised_request_error = true
  gave_up _ = false

  -- the attempt ended in a way that is tried again
  abbrev pub is_transient : Sent → Bool
  is_transient (responded response) = should_retry_response t p response
  is_transient request_error = true
  is_transient other_error = false

  module _ (n : Network) (attempts : ℕ) where
    after_send-count :
        (left attempt : ℕ) (s : Sent) (rest : Reply × List Action)
        → sent_count rest.1 ≤ left
        → sent_count (after_send t p n attempts attempt s rest).1 ≤ suc left
    unfolding after_send sleep_then
    after_send-count left attempt (responded r) rest h = ground arith
    after_send-count left attempt request_error rest h = ground arith
    after_send-count left attempt other_error rest h = ground arith

    request_from-count :
        (left attempt : ℕ) → sent_count (request_from t p n attempts left attempt).1 ≤ left
    unfolding request_from
    request_from-count zero attempt = omega arith
    request_from-count (suc left) attempt =
        let rest = request_from t p n attempts left (attempt + 1) in
        ground (
          arith,
          after_send-count left attempt (n.send attempt) rest
              (request_from-count left (attempt + 1)),
        )

    after_send-last :
        (attempt : ℕ) (s : Sent) (rest : Reply × List Action)
        → attempt ≡ attempts
        → is_unexpected (after_send t p n attempts attempt s rest).0 ≡ false
    unfolding after_send sleep_then
    after_send-last attempt (responded r) rest e = ground arith
    after_send-last attempt request_error rest e = ground arith
    after_send-last attempt other_error rest e = ground arith

    after_send-expected :
        (attempt : ℕ) (s : Sent) (rest : Reply × List Action)
        → is_unexpected rest.0 ≡ false
        → is_unexpected (after_send t p n attempts attempt s rest).0 ≡ false
    unfolding after_send sleep_then
    after_send-expected attempt (responded r) rest e = ground arith
    after_send-expected attempt request_error rest e = ground arith
    after_send-expected attempt other_error rest e = ground arith

    request_from-expected :
        (left attempt : ℕ)
        → attempt + left ≡ attempts
        → is_unexpected (request_from t p n attempts (suc left) attempt).0 ≡ false
    unfolding request_from
    request_from-expected zero attempt e =
        ground
          (arith, after_send-last attempt (n.send attempt) (failed_unexpectedly, []) (omega arith))
    request_from-expected (suc left) attempt e = ground (
      arith,
      after_send-expected attempt (n.send attempt)
          (request_from t p n attempts (suc left) (attempt + 1))
          (request_from-expected left (attempt + 1) (omega arith)),
    )

    after_send-gave_up :
        (left attempt : ℕ) (s : Sent) (rest : Reply × List Action)
        → attempt + left ≡ attempts
        → (gave_up rest.0 ≡ true → sent_count rest.1 ≡ left)
        → gave_up (after_send t p n attempts attempt s rest).0 ≡ true
        → sent_count (after_send t p n attempts attempt s rest).1 ≡ suc left
    unfolding after_send sleep_then
    after_send-gave_up left attempt (responded r) rest e h g = ground arith
    after_send-gave_up left attempt request_error rest e h g = ground arith
    after_send-gave_up left attempt other_error rest e h g = absurd (ground arith)

    request_from-gave_up :
        (left attempt : ℕ)
        → attempt + left ≡ attempts + 1
        → gave_up (request_from t p n attempts left attempt).0 ≡ true
        → sent_count (request_from t p n attempts left attempt).1 ≡ left
    unfolding request_from
    request_from-gave_up zero attempt e g = absurd (ground arith)
    request_from-gave_up (suc left) attempt e g =
        let rest = request_from t p n attempts left (attempt + 1) in
        ground (
          arith,
          after_send-gave_up left attempt (n.send attempt) rest (omega arith)
              (request_from-gave_up left (attempt + 1) (omega arith)),
        )

  max_attempts-attempts_for :
      (method : String) (headers : List String)
      → 1 ≤ p.max_attempts
      → (attempts_for t p method headers ≤ p.max_attempts) × (1 ≤ attempts_for t p method headers)
  unfolding attempts_for
  max_attempts-attempts_for method headers h = ground arith

  max_attempts-client :
      (paths : List String) (method path : String) (headers : List String)
      → 1 ≤ p.max_attempts
      → (client_attempts_for t p paths method path headers ≤ p.max_attempts)
        × (1 ≤ client_attempts_for t p paths method path headers)
  unfolding client_attempts_for
  max_attempts-client paths method path headers h =
      let m = max_attempts-attempts_for method headers h in ground (arith, m.0, m.1)

  -- A request under a policy of at least one attempt goes out at most as often as the policy says,
  -- and never ends in the RuntimeError after the loop.
  pub request-attempts :
      (n : Network) (paths : List String) (method path : String) (headers : List String)
      → 1 ≤ p.max_attempts
      → (sent_count (request t p n paths method path headers).1 ≤ p.max_attempts)
        × (is_unexpected (request t p n paths method path headers).0 ≡ false)
  unfolding request
  request-attempts n paths method path headers h =
      let a = client_attempts_for t p paths method (request_path_of t p path) headers in
      let m = max_attempts-client paths method (request_path_of t p path) headers h in
      (omega (arith, m.0, request_from-count n a a 1), expected n a m.1)
    where
      expected : (n : Network) (a : ℕ) → 1 ≤ a → is_unexpected (request_from t p n a a 1).0 ≡ false
      expected n zero h = absurd (omega arith)
      expected n (suc left) h = request_from-expected n (suc left) left 1 (omega arith)

  -- A method that is not idempotent, without a header that marks it and on a path that may not be
  -- posted again, is sent at most once, unless the policy retries such methods.
  pub request-single :
      (n : Network) (paths : List String) (method path : String) (headers : List String)
      → p.retry_non_idempotent_methods ≡ false
      → mem (t.upper method) p.idempotent_methods ≡ false
      → has_idempotency_marker t p headers ≡ false
      → ((t.upper method == "POST") && mem (normalized_path t p (request_path_of t p path)) paths)
        ≡ false
      → sent_count (request t p n paths method path headers).1 ≤ 1
  unfolding request client_attempts_for attempts_for
  request-single n paths method path headers a b c d = rw (d, a, b, c) (request_from-count n 1 1 1)

  -- A request gives up, with a response that asks for a retry or with the error of the last attempt,
  -- only after it has gone out as often as it may.
  pub request-gave_up :
      (n : Network) (paths : List String) (method path : String) (headers : List String)
      → gave_up (request t p n paths method path headers).0 ≡ true
      → sent_count (request t p n paths method path headers).1
        ≡ client_attempts_for t p paths method (request_path_of t p path) headers
  unfolding request
  request-gave_up n paths method path headers g =
      let a = client_attempts_for t p paths method (request_path_of t p path) headers in
      request_from-gave_up n a a 1 (omega arith) g
