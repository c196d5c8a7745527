-- ===== src/Relay.antt =====
-- modules/connectors/relay/connector-relay.service.ts: the queue of provider requests that a relay behind the
-- customer's firewall works off. Rows stand in the order of `queue_position`; the clock's readings
-- and the random ids are arguments, and so are the SHA-256 digest and the parser of a URL's origin.
pub mod Request
pub mod Acknowledge
pub mod Queue
pub mod Lease
pub mod Final
pub mod Progress
pub mod Once
pub mod Credentials
mod Tests
use Prim.Native.String.{String}
use text.Mathlib.Text.{◌==◌ as str_eq}
use cadena.Prelude.{
  ℕ, ◌+◌, Bool, true, false, Option, none, some, List, [], ◌∷◌, ◌++◌, ◌&&◌, leb, if◌then◌else◌,
}
use cadena.Prelude.Text.{Text}

abbrev pub relay_lease_ms : ℕ
relay_lease_ms = 30_000

pub data Status : Type 0 where
  pending leased completed failed : Status

abbrev pub Headers : Type 0
Headers = List (Text × Text)

pub record Response : Type 0 where
  pub status : ℕ
  pub headers : Headers
  pub body : Text

-- A row of `integration_relay_requests`.
pub record Row : Type 0 where
  pub id : String
  pub relay_id : String
  pub connector_id : String
  pub idempotency_key : Text
  pub method : Text
  pub url : Text
  pub headers : Headers
  pub body : Option Text
  pub status : Status
  pub lease_id : Option String
  pub lease_expires_at : Option ℕ
  pub attempts : ℕ
  pub next_attempt_at : Option ℕ
  pub response : Option Response
  pub error_message : Option Text

abbrev pub is_open : Status → Bool
is_open pending = true
is_open leased = true
is_open _ = false

abbrev pub is_pending : Status → Bool
is_pending pending = true
is_pending _ = false

-- `field IS NULL OR field <= CURRENT_TIMESTAMP`
abbrev pub passed : Option ℕ → (now : ℕ) → Bool
passed none now = true
passed (some t) now = leb t now

-- The subquery's rows, and the conditions on the head.
abbrev pub queued_for : (relay : String) → Row → Bool
queued_for relay r = str_eq r.relay_id relay && is_open r.status

abbrev pub may_claim : (now : ℕ) → Row → Bool
may_claim now r =
    passed r.next_attempt_at now
    && (if is_pending r.status then true else passed r.lease_expires_at now)

abbrev pub lease_row : (now : ℕ) → (lease : String) → Row → Row
lease_row now lease r = record r {
  status = leased;
  lease_id = some lease;
  lease_expires_at = some (now + relay_lease_ms);
  attempts = r.attempts + 1;
}

-- The UPDATE of `poll`: the head of the relay's queue, if it may be claimed.
unfoldable pub claim : (now : ℕ) → (lease relay : String) → List Row → Option Row × List Row
claim now lease relay [] = (none, [])
claim now lease relay (r ∷ rs) =
    let (found, rest) = claim now lease relay rs in
    if queued_for relay r
    then if may_claim now r
      then (some (lease_row now lease r), lease_row now lease r ∷ rs)
      else (none, r ∷ rs)
    else (found, r ∷ rest)

-- `WHERE id = $1 AND relay_id = $2`
abbrev pub is_row : (id relay : String) → Row → Bool
is_row id relay r = str_eq r.id id && str_eq r.relay_id relay

unfoldable pub find_row : (id relay : String) → List Row → Option Row
find_row id relay [] = none
find_row id relay (r ∷ rs) = if is_row id relay r then some r else find_row id relay rs

-- An UPDATE: `change` is applied to the rows that `test` selects.
unfoldable pub update_rows : (test : Row → Bool) → (change : Row → Row) → List Row → List Row
update_rows test change [] = []
update_rows test change (r ∷ rs) =
    let rest = update_rows test change rs in if test r then change r ∷ rest else r ∷ rest

abbrev pub holds_lease : (lease : String) → Option String → Bool
holds_lease lease none = false
holds_lease lease (some l) = str_eq l lease
