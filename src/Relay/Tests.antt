-- ===== src/Relay/Tests.antt =====
-- modules/connectors/relay/connector-relay.service.ts: runs at concrete inputs.
use cadena.Prelude.{
  Bool, false, ltb, ◌&&◌, arith, ◌≡◌, refl, true, false, Option, none, some, List, [], ◌∷◌, ◌++◌,
  arith, All,
}
use cadena.Prelude.Text.{Text, codes, text_eq}
use cadena.Relay.{
  Row, pending, completed, Response, claim, lease_row, find_row, queued_for, update_rows,
}
use cadena.Relay.Acknowledge.{
  Ack, no_headers, decide, complete, acknowledge, replay, validate_response_headers, backoff_ms,
  refuse, lease_not_current, carry_out,
}
use cadena.Relay.Request.{Connector, HttpRequest, request, safe_headers, insert_request, find_key}
use cadena.Relay.Queue.{Op, claims, answers, backs_off, enqueues, revives, apply}
use cadena.Relay.Lease.{deliveries, claim-exclusive_lease}
use cadena.Relay.Final.{apply_all, acknowledge-final}
use cadena.Relay.Progress.{claim-progress, is_waiting}
use cadena.Relay.Once.{request-again}
use cadena.Relay.Credentials.{IsCredentialFree, IsAscii, HasAsciiNames, request-IsCredentialFree}

abbrev row : Row
row = record {
  id = "d-1";
  relay_id = "r-1";
  connector_id = "c-1";
  idempotency_key = codes "k-1";
  method = codes "GET";
  url = codes "https://jira.acme.example/rest";
  headers = [];
  body = none;
  status = pending;
  lease_id = none;
  lease_expires_at = none;
  attempts = 0;
  next_attempt_at = none;
  response = none;
  error_message = none;
}

abbrev behind : Row
behind = record row { id = "d-2"; idempotency_key = codes "k-2" }

abbrev queue : List Row
queue = row ∷ behind ∷ []

abbrev ok_response : Response
ok_response = record { status = 200; headers = []; body = codes "done" }

abbrev ok_ack : Ack
ok_ack = record {
  lease_id = some "l-1";
  response = some (record { status = some 200; headers = no_headers; body = some (codes "done") });
  error = none;
}

abbrev stale_ack : Ack
stale_ack = record ok_ack { lease_id = some "l-0" }

claim-exclusive_lease_example :
    deliveries "r-1"
      (claims 20_000 "l-2" "r-1" ∷ enqueues behind ∷ claims 30_999 "l-3" "r-1" ∷ [])
      (claim 1_000 "l-1" "r-1" queue).1
    ≡ 0
unfolding claim
claim-exclusive_lease_example =
    claim-exclusive_lease 1_000 "l-1" "r-1" queue (lease_row 1_000 "l-1" row)
      (claims 20_000 "l-2" "r-1" ∷ enqueues behind ∷ claims 30_999 "l-3" "r-1" ∷ [])
      (refl, (refl, tt)) refl (refl, (refl, (refl, tt)))

leased_again :
    (claim 31_000 "l-2" "r-1" (claim 1_000 "l-1" "r-1" queue).1).0
    ≡ some (record (lease_row 31_000 "l-2" row) { attempts = 2 })
unfolding claim
leased_again = refl

stale_refused :
    decide 40_000 stale_ack "d-1" "r-1" (claim 1_000 "l-1" "r-1" queue).1 ≡ refuse lease_not_current
unfolding decide claim find_row
stale_refused = refl

accepted : decide 2_000 ok_ack "d-1" "r-1" (claim 1_000 "l-1" "r-1" queue).1 ≡ complete ok_response
unfolding decide claim find_row validate_response_headers
accepted = refl

abbrev aftermath : List Op
aftermath =
    claims 50_000 "l-9" "r-1"
    ∷ answers "d-1" "r-1" "l-1" (record ok_response { status = 500 })
    ∷ revives "d-1"
    ∷ []

-- Between the SELECT and the UPDATE of the answer another poll comes, which is handed nothing.
abbrev seen_queue : List Row
seen_queue = (claim 1_000 "l-1" "r-1" queue).1

abbrev met_queue : List Row
met_queue = (claim 1_500 "l-2" "r-1" seen_queue).1

acknowledge-final_example :
    let after = apply_all aftermath (acknowledge 2_000 ok_ack "d-1" "r-1" seen_queue met_queue).1 in
    ((q : Row) × (find_row "d-1" "r-1" after ≡ some q)
      × (q.status ≡ completed)
      × (q.response ≡ some ok_response))
    × (acknowledge 60_000 stale_ack "d-1" "r-1" after queue ≡ (replay, queue))
unfolding claim find_row
acknowledge-final_example =
    acknowledge-final 2_000 60_000 ok_ack stale_ack "d-1" "r-1" "l-1" seen_queue met_queue queue
      (lease_row 1_000 "l-1" row) ok_response aftermath accepted refl refl refl (refl, refl)

-- An attempt that failed waits for its backoff.
abbrev failing : List Op
failing =
    enqueues row
    ∷ enqueues behind
    ∷ claims 1_000 "l-1" "r-1"
    ∷ backs_off "d-1" "r-1" "l-1" (codes "unreachable") 2_000 1
    ∷ []

failing_waits : is_waiting "r-1" (apply_all failing []) ≡ true
unfolding apply claim carry_out insert_request find_key update_rows backoff_ms text_eq
failing_waits = refl

claim-progress_example :
    (before : List Row) × (r : Row) × (rest : List Row) × (apply_all failing []
      ≡ before ++ r ∷ rest)
    × All (λ q. queued_for "r-1" q ≡ false) before
    × (queued_for "r-1" r ≡ true)
    × (claim 32_000 "l-2" "r-1" (apply_all failing [])
        ≡ (some (lease_row 32_000 "l-2" r), before ++ lease_row 32_000 "l-2" r ∷ rest))
claim-progress_example =
    claim-progress failing 2_000 32_000 "l-2" "r-1" (refl, (refl, (refl, (refl, tt)))) (omega arith)
      failing_waits

abbrev connector : Connector
connector = record {
  id = "c-1";
  relay_mode = true;
  relay_id = some "r-1";
  base_url = codes "https://jira";
}

abbrev search : HttpRequest
search = record {
  method = codes "GET";
  headers = (codes "Authorization", codes "secret") ∷ (codes "Accept", codes "json") ∷ [];
  body = none;
}

abbrev same_text : Text → Text
same_text t = t

abbrev whole_url : Text → Option Text
whole_url t = some t

queued_without_secret : safe_headers search.headers ≡ (codes "accept", codes "json") ∷ []
unfolding safe_headers text_eq
queued_without_secret = refl

request-again_example :
    request same_text whole_url "n-2" "op-1" connector
      (codes "https://jira")
      search
      (request same_text whole_url "n-1" "op-1" connector (codes "https://jira") search queue).1
    ≡ request same_text whole_url "n-1" "op-1" connector (codes "https://jira") search queue
request-again_example =
    request-again same_text whole_url "n-1" "n-2" "op-1" connector (codes "https://jira") search
      queue

abbrev are_below : Text → Bool
are_below [] = true
are_below (c ∷ t) = ltb c 128 && are_below t

all_below : (t : Text) → are_below t ≡ true → IsAscii t
all_below [] h = tt
all_below (c ∷ t) h = (ground arith, all_below t (ground arith))

ascii_names : HasAsciiNames search.headers
ascii_names = (all_below (codes "Authorization") refl, (all_below (codes "Accept") refl, tt))

request-IsCredentialFree_example :
    All
      (λ r. IsCredentialFree r.headers)
      (request same_text whole_url "n-1" "op-1" connector (codes "https://jira") search queue).1
request-IsCredentialFree_example =
    request-IsCredentialFree same_text whole_url "n-1" "op-1" connector (codes "https://jira")
      search queue ascii_names (tt, (tt, tt))
