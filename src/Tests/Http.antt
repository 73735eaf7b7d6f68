-- ===== src/Tests/Http.antt =====
-- The theorems on requests at concrete inputs.
use pmkt_core.Prelude.{
  ◌≡◌, refl, true, false, [], ◌∷◌, none, some, ◌≤◌, max, if◌then◌else◌, leb, arith, string_eq,
  nat_eq,
}
use pmkt_core.Collections.Sets.{mem}
use pmkt_core.Http.Policy.{
  no_date, too_large, Texts, Response, RequestPolicy, has_idempotency_marker,
}
use pmkt_core.Http.Request.{
  Network, responded, request_error, request, client_attempts_for, request_path_of,
}
use pmkt_core.Http.Attempts.{
  sent_count, is_unexpected, request-attempts, request-single, request-gave_up,
}
use pmkt_core.Prelude.Int.{pos}
use pmkt_core.Http.Expiry.{
  OperationExpiry, IsCapped, after, number, capped_timeout, capped_timeout-IsCapped,
}
use pmkt_core.Http.Delays.{waits_within, request-waits_within}

abbrev texts : Texts
texts = record {
  upper = λ s. s;
  lower = λ s. s;
  float_of = λ _. none;
  date_difference = λ _. no_date;
  before_query = λ s. s;
  without_slashes = λ s. s;
  is_absolute = λ _. false;
}

abbrev policy : RequestPolicy
policy = record {
  max_attempts = 3;
  retry_status_codes = 503 ∷ [];
  retry_non_idempotent_methods = false;
  idempotent_methods = "GET" ∷ [];
  idempotency_headers = "Idempotency-Key" ∷ [];
  backoff_base_s = 1;
  backoff_max_s = 10;
  max_retry_after_s = some 60;
  respect_retry_after = true;
}

abbrev busy : Response
busy = record { status_code = 503; retry_after = none }

abbrev found : Response
found = record { status_code = 200; retry_after = none }

-- the first attempt meets a busy server, the later ones do not
abbrev recovering : Network
recovering = record {
  checkpoint = λ _. true;
  send = λ i. if leb i 1 then responded busy else responded found;
  sleeps = λ _ _. true;
}

abbrev broken : Network
broken = record { checkpoint = λ _. true; send = λ _. request_error; sleeps = λ _ _. true }

request-attempts_example :
    (sent_count (request texts policy broken [] "GET" "markets" []).1 ≤ 3)
    × (is_unexpected (request texts policy broken [] "GET" "markets" []).0 ≡ false)
request-attempts_example = request-attempts texts policy broken [] "GET" "markets" [] (omega arith)

request-single_example : sent_count (request texts policy broken [] "PATCH" "orders" []).1 ≤ 1
unfolding mem has_idempotency_marker
request-single_example =
    request-single texts policy broken [] "PATCH" "orders" [] refl refl refl refl

request-gave_up_example :
    sent_count (request texts policy broken [] "GET" "markets" []).1
    ≡ client_attempts_for texts policy [] "GET" (request_path_of texts policy "markets") []
unfolding request mem
request-gave_up_example = request-gave_up texts policy broken [] "GET" "markets" [] refl

-- the server asks for a wait until a day that no date has
abbrev far_away : Response
far_away = record { status_code = 503; retry_after = some "Mon, 01 Jan 99999999999 00:00:00 GMT" }

abbrev with_dates : Texts
with_dates = record texts { date_difference = λ _. too_large }

abbrev postponing : Network
postponing = record {
  checkpoint = λ _. true;
  send = λ i. if leb i 1 then responded busy else responded far_away;
  sleeps = λ _ _. true;
}

request-waits_within_example :
    waits_within (max 60 10) (request texts policy recovering [] "GET" "markets" []).1 ≡ true
request-waits_within_example =
    request-waits_within texts policy 60 recovering [] "GET" "markets" [] refl

abbrev expiry : OperationExpiry
expiry = record { deadline_monotonic = some 1030 }

capped_timeout-IsCapped_example :
    IsCapped 1025 1030 20 (capped_timeout 1025 (number (pos 20)) expiry)
unfolding after
capped_timeout-IsCapped_example = capped_timeout-IsCapped 1000 30 1025 20 expiry (omega arith) refl
