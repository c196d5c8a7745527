-- ===== src/Relay/Request.antt =====
-- modules/connectors/relay/connector-relay.service.ts: `request`, which puts a provider call on the queue, and
-- `waitForResponse`.
use Prim.Native.String.{String}
use text.Mathlib.Text.{◌==◌ as str_eq}
use cadena.Prelude.{
  ℕ, Bool, true, false, Option, none, some, List, [], ◌∷◌, ◌++◌, ◌&&◌, ◌||◌, not, ltb,
  if◌then◌else◌,
}
use cadena.Prelude.Text.{fold_case, to_lower, Text, codes, text_eq, join}
use cadena.Relay.{Row, Status, pending, completed, failed, Headers, Response, update_rows}
use cadena.Relay.Acknowledge.{put_entry}

-- The part of `ConnectorRecord` that is read here.
pub record Connector : Type 0 where
  pub id : String
  pub relay_mode : Bool
  pub relay_id : Option String
  pub base_url : Text

pub record HttpRequest : Type 0 where
  pub method : Text
  pub headers : Headers
  pub body : Option Text

pub data ConfigError : Type 0 where
  not_provisioned outside_origin : ConfigError

-- `SENSITIVE_HEADER`
abbrev pub is_sensitive : Text → Bool
is_sensitive key =
    let k = fold_case key in
    text_eq k (codes "authorization")
    || (text_eq k (codes "cookie")
        || (text_eq k (codes "proxy-authorization") || text_eq k (codes "x-api-key")))

abbrev pub safe_entries : Headers → Headers → Headers
safe_entries out [] = out
safe_entries out (e ∷ es) =
    safe_entries (if is_sensitive e.0 then out else put_entry (to_lower e.0) e.1 out) es

unfoldable pub safe_headers : Headers → Headers
safe_headers = safe_entries []

-- `new URL(...).origin`, which throws on what is no URL.
abbrev same_origin : Option Text → Option Text → Bool
same_origin (some a) (some b) = text_eq a b
same_origin _ _ = false

unfoldable pub assert_target : (origin : Text → Option Text) → Connector → (url : Text) → Bool
assert_target origin c url = same_origin (origin c.base_url) (origin url)

abbrev or_empty : Option Text → Text
or_empty none = []
or_empty (some t) = t

unfoldable pub dedupe_key :
    (digest : Text → Text) → (relay operation : String) → (url : Text) → HttpRequest → Text
dedupe_key digest relay operation url init = digest (
    join (b'\n' ∷ []) (codes relay ∷ codes operation ∷ init.method ∷ url ∷ or_empty init.body ∷ []))

abbrev pub has_key : (relay : String) → (key : Text) → Row → Bool
has_key relay key r = str_eq r.relay_id relay && text_eq r.idempotency_key key

unfoldable pub find_key : (relay : String) → (key : Text) → List Row → Option Row
find_key relay key [] = none
find_key relay key (r ∷ rs) = if has_key relay key r then some r else find_key relay key rs

-- `INSERT ... ON CONFLICT (relay_id, idempotency_key) DO NOTHING`
unfoldable pub insert_request : Row → List Row → List Row
insert_request q rows = elim (find_key q.relay_id q.idempotency_key rows) [
  | some r ↦ rows
  | none ↦ rows ++ q ∷ []
]

abbrev pub is_failed : Status → Bool
is_failed failed = true
is_failed _ = false

-- `UPDATE ... WHERE id = $1 AND status = 'failed'`
unfoldable pub revive : (id : String) → List Row → List Row
revive id rows =
    update_rows (λ r. str_eq r.id id && is_failed r.status)
      (λ r. record r { status = pending; error_message = none }) rows

abbrev pub revive_failed : Option Row → List Row → List Row
revive_failed none rows = rows
revive_failed (some r) rows = if is_failed r.status then revive r.id rows else rows

abbrev pub enqueue : Row → List Row → List Row
enqueue q rows =
    let after = insert_request q rows in
    revive_failed (find_key q.relay_id q.idempotency_key after) after

module _ (digest : Text → Text) (origin : Text → Option Text) where
  abbrev pub new_row : (id relay operation : String) → Connector → (url : Text) → HttpRequest → Row
  new_row id relay operation c url init = record {
    id = id;
    relay_id = relay;
    connector_id = c.id;
    idempotency_key = dedupe_key digest relay operation url init;
    method = init.method;
    url = url;
    headers = safe_headers init.headers;
    body = init.body;
    status = pending;
    lease_id = none;
    lease_expires_at = none;
    attempts = 0;
    next_attempt_at = none;
    response = none;
    error_message = none;
  }

  -- Up to the wait for the response; `id` is the new random id.
  unfoldable pub request :
      (id operation : String)
      → Connector
      → (url : Text) → HttpRequest
      → List Row
      → Option ConfigError × List Row
  request id operation c url init rows = elim c.relay_id [
    | none ↦ (some not_provisioned, rows)
    | some relay ↦
        if not c.relay_mode || str_eq relay ""
        then (some not_provisioned, rows)
        else if not (assert_target origin c url)
        then (some outside_origin, rows)
        else (none, enqueue (new_row id relay operation c url init) rows)
  ]

-- One round of the loop of `waitForResponse`: the clock, the caller's signal, and the row.
pub record Look : Type 0 where
  pub now : ℕ
  pub aborted : Bool
  pub row : Option Row

pub data Waited : Type 0 where
  answered : Option Response → Waited
  not_reached : (error : Option Text) → Waited
  aborted disappeared timed_out : Waited

-- The rounds that the loop makes, of which the last one ends it.
unfoldable pub wait_for_response : (deadline : ℕ) → List Look → Waited
wait_for_response deadline [] = timed_out
wait_for_response deadline (l ∷ ls) =
    let rest = wait_for_response deadline ls in
    if ltb deadline l.now then timed_out else if l.aborted then Waited.aborted else elim l.row [
      | none ↦ disappeared
      | some r ↦ elim r.status [
        | completed ↦ answered r.response
        | failed ↦ not_reached r.error_message
        | _ ↦ rest
      ]
    ]
