-- ===== src/Http/Delays.antt =====
-- How long a request waits between its attempts.
use pmkt_core.Prelude.{
  ℕ, zero, suc, ◌+◌, ◌≤◌, ◌≡◌, refl, Bool, true, false, ◌&&◌, List, [], ◌∷◌, Option, none, some,
  String, string_eq, nat_eq, arith, max, leb,
}
use pmkt_core.Http.Policy.{
  Texts, Response, RequestPolicy, Delay, Fallible, overflow_error, done, seconds, forever,
  delay_for, retry_delay, backoff, parse_retry_after,
}
use pmkt_core.Http.Request.{
  Sent, responded, request_error, other_error, Network, Action, sent, slept, Reply, sleep_then,
  after_send, request_from, request,
}

-- the delay is finite and at most the bound
abbrev pub within : ℕ → Delay → Bool
within bound forever = false
within bound (seconds n) = leb n bound

abbrev pub waits_within : ℕ → List Action → Bool
waits_within bound [] = true
waits_within bound (sent _ ∷ actions) = waits_within bound actions
waits_within bound (slept delay ∷ actions) = within bound delay && waits_within bound actions

-- there is no wait when the delay is an OverflowError
abbrev within_or_raised : ℕ → Fallible Delay → Bool
within_or_raised bound overflow_error = true
within_or_raised bound (done delay) = within bound delay

module _ (t : Texts) (p : RequestPolicy) (limit bound : ℕ) where
  retry_delay-within :
      (asked : Fallible (Option Delay)) (attempt : ℕ)
      → p.max_retry_after_s ≡ some limit
      → limit ≤ bound
      → p.backoff_max_s ≤ bound
      → within_or_raised bound (retry_delay t p asked attempt) ≡ true
  unfolding retry_delay backoff
  retry_delay-within overflow_error attempt e a b = refl
  retry_delay-within (done none) attempt e a b = ground arith
  retry_delay-within (done (some forever)) attempt e a b = rw e (ground arith)
  retry_delay-within (done (some (seconds n))) attempt e a b = rw e (ground arith)

  delay_for-within :
      (attempt : ℕ) (response : Option Response)
      → p.max_retry_after_s ≡ some limit
      → limit ≤ bound
      → p.backoff_max_s ≤ bound
      → within_or_raised bound (delay_for t p attempt response) ≡ true
  unfolding delay_for backoff
  delay_for-within attempt none e a b = ground arith
  delay_for-within attempt (some response) e a b =
      ground (arith, retry_delay-within (parse_retry_after t response.retry_after) attempt e a b)

  sleep_then-within :
      (n : Network) (attempts attempt : ℕ) (delay : Fallible Delay) (rest : Reply × List Action)
      → within_or_raised bound delay ≡ true
      → waits_within bound rest.1 ≡ true
      → waits_within bound (sleep_then t p n attempts attempt delay rest).1 ≡ true
  unfolding sleep_then
  sleep_then-within n attempts attempt overflow_error rest d h = refl
  sleep_then-within n attempts attempt (done delay) rest d h = ground arith

  after_send-within :
      (n : Network) (attempts attempt : ℕ) (s : Sent) (rest : Reply × List Action)
      → p.max_retry_after_s ≡ some limit
      → limit ≤ bound
      → p.backoff_max_s ≤ bound
      → waits_within bound rest.1 ≡ true
      → waits_within bound (after_send t p n attempts attempt s rest).1 ≡ true
  unfolding after_send
  after_send-within n attempts attempt (responded r) rest e a b h =
      let d = delay_for-within attempt (some r) e a b in
      ground (arith, sleep_then-within n attempts attempt (delay_for t p attempt (some r)) rest d h)
  after_send-within n attempts attempt request_error rest e a b h =
      let d = delay_for-within attempt none e a b in
      ground (arith, sleep_then-within n attempts attempt (delay_for t p attempt none) rest d h)
  after_send-within n attempts attempt other_error rest e a b h = refl

  request_from-within :
      (n : Network) (attempts left attempt : ℕ)
      → p.max_retry_after_s ≡ some limit
      → limit ≤ bound
      → p.backoff_max_s ≤ bound
      → waits_within bound (request_from t p n attempts left attempt).1 ≡ true
  unfolding request_from
  request_from-within n attempts zero attempt e a b = refl
  request_from-within n attempts (suc left) attempt e a b =
      let rest = request_from t p n attempts left (attempt + 1) in
      ground (
        arith,
        after_send-within n attempts attempt (n.send attempt) rest e a b
            (request_from-within n attempts left (attempt + 1) e a b),
      )

-- Under a policy with a limit on Retry-After, no wait of a request is longer than the larger of that
-- limit and the largest backoff, whatever the server asks for.
pub request-waits_within :
    (t : Texts) (p : RequestPolicy) (limit : ℕ) (n : Network) (paths : List String)
    (method path : String) (headers : List String)
    → p.max_retry_after_s ≡ some limit
    → waits_within (max limit p.backoff_max_s) (request t p n paths method path headers).1 ≡ true
unfolding request
request-waits_within t p limit n paths method path headers e =
    request_from-within t p limit (max limit p.backoff_max_s) n _ _ 1 e (omega arith) (omega arith)
