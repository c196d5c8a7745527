-- ===== src/Relay/Acknowledge.antt =====
-- modules/connectors/relay/connector-relay.service.ts: `acknowledge`, from its arguments to its UPDATE.
use Prim.Native.String.{String}
use cadena.Prelude.{
  ℕ, zero, suc, ◌+◌, ◌-◌, ◌*◌, ◌^◌, min, Bool, true, false, Option, none, some, List, [], ◌∷◌, ◌&&◌,
  ◌||◌, not, ltb, leb, if◌then◌else◌, length,
}
use cadena.Prelude.Text.{to_lower, Text, text_eq}
use cadena.Relay.{
  Row, pending, leased, completed, Headers, Response, holds_lease, find_row, is_row, update_rows,
}

-- Text of at most `n` characters: `slice(0, n)`.
abbrev pub slice : ℕ → Text → Text
slice zero t = []
slice (suc n) [] = []
slice (suc n) (c ∷ t) = c ∷ slice n t

-- `response.headers` as it arrives.
pub data RawHeaders : Type 0 where
  no_headers not_an_object : RawHeaders
  entries : Headers → RawHeaders

pub record RawResponse : Type 0 where
  -- none: not a whole number
  pub status : Option ℕ
  pub headers : RawHeaders
  pub body : Option Text

pub record Ack : Type 0 where
  pub lease_id : Option String
  pub response : Option RawResponse
  pub error : Option Text

pub data Refusal : Type 0 where
  lease_required exactly_one not_found lease_not_current : Refusal
  bad_status headers_not_object too_many_headers : Refusal

-- What `acknowledge` decides before its UPDATE.
pub data Decision : Type 0 where
  refuse : Refusal → Decision
  replay : Decision
  back_off : (error : Text) → (until : ℕ) → Decision
  complete : Response → Decision

abbrev response_header_limit : ℕ
response_header_limit = 50

-- `Object.fromEntries`: a later entry takes the place of an earlier one with its key.
abbrev pub put_entry : Text → Text → Headers → Headers
put_entry k v [] = (k, v) ∷ []
put_entry k v (e ∷ es) =
    let rest = put_entry k v es in if text_eq e.0 k then (k, v) ∷ es else e ∷ rest

abbrev from_entries_onto : Headers → Headers → Headers
from_entries_onto out [] = out
from_entries_onto out (e ∷ es) =
    from_entries_onto (put_entry (slice 100 (to_lower e.0)) (slice 1000 e.1) out) es

unfoldable pub validate_response_headers : RawHeaders → Option Refusal × Headers
validate_response_headers no_headers = (none, [])
validate_response_headers not_an_object = (some headers_not_object, [])
validate_response_headers (entries es) =
    if ltb response_header_limit (length es)
    then (some too_many_headers, [])
    else (none, from_entries_onto [] es)

-- `Boolean` of a string.
abbrev pub has_text : Option Text → Bool
has_text none = false
has_text (some []) = false
has_text (some (c ∷ t)) = true

abbrev pub has_response : Option RawResponse → Bool
has_response none = false
has_response (some r) = true

unfoldable pub backoff_ms : (attempts : ℕ) → ℕ
backoff_ms attempts = min (1_000 * 2 ^ (attempts - 1)) 30_000

abbrev pub is_http_status : Option ℕ → Bool
is_http_status none = false
is_http_status (some s) = leb 100 s && leb s 599

abbrev finish_response : RawResponse → Decision
finish_response r = elim r.status [
  | none ↦ refuse bad_status
  | some s ↦
      if leb 100 s && leb s 599
      then elim (validate_response_headers r.headers).0 [
        | some why ↦ refuse why
        | none ↦ complete (record {
          status = s;
          headers = (validate_response_headers r.headers).1;
          body = elim r.body [ none ↦ [] | some b ↦ b ];
        })
      ]
      else refuse bad_status
]

abbrev settle : (now : ℕ) → Row → Ack → Decision
settle now row ack = elim ack.error [
  | some (c ∷ t) ↦ back_off (slice 500 (c ∷ t)) (now + backoff_ms row.attempts)
  | _ ↦ elim ack.response [ none ↦ refuse exactly_one | some r ↦ finish_response r ]
]

abbrev decide_on : (now : ℕ) → (lease : String) → Ack → Option Row → Decision
decide_on now lease ack none = refuse not_found
decide_on now lease ack (some row) = elim row.status [
  | completed ↦ replay
  | leased ↦ if holds_lease lease row.lease_id then settle now row ack else refuse lease_not_current
  | _ ↦ refuse lease_not_current
]

abbrev pub is_empty_id : String → Bool
is_empty_id String.[] = true
is_empty_id (String.◌∷◌ c s) = false

-- The guards, and the row that the SELECT reads.
unfoldable pub decide : (now : ℕ) → Ack → (id relay : String) → List Row → Decision
decide now ack id relay rows = elim ack.lease_id [
  | none ↦ refuse lease_required
  | some lease ↦
      if is_empty_id lease
      then refuse lease_required
      else if (has_response ack.response && has_text ack.error)
          || not (has_response ack.response || has_text ack.error)
      then refuse exactly_one
      else decide_on now lease ack (find_row id relay rows)
]

abbrev pub complete_row : Response → Row → Row
complete_row res r = record r {
  status = completed;
  response = some res;
  error_message = none;
  lease_id = none;
  lease_expires_at = none;
  next_attempt_at = none;
}

abbrev pub back_off_row : (error : Text) → (until : ℕ) → Row → Row
back_off_row error until r = record r {
  status = pending;
  error_message = some error;
  lease_id = none;
  lease_expires_at = none;
  next_attempt_at = some until;
}

-- `WHERE id = $1 AND relay_id = $2 AND lease_id = $3`
abbrev pub is_leased_row : (id relay lease : String) → Row → Bool
is_leased_row id relay lease r = is_row id relay r && holds_lease lease r.lease_id

-- The UPDATE of a decision.
unfoldable pub carry_out : Decision → (id relay lease : String) → List Row → List Row
carry_out (refuse why) id relay lease rows = rows
carry_out replay id relay lease rows = rows
carry_out (back_off error until) id relay lease rows =
    update_rows (is_leased_row id relay lease) (back_off_row error until) rows
carry_out (complete res) id relay lease rows =
    update_rows (is_leased_row id relay lease) (complete_row res) rows

-- The whole call: the queue `seen` by its SELECT, and the one that its UPDATE meets. It does not ask
-- whether the UPDATE found its row.
unfoldable pub acknowledge :
    (now : ℕ) → Ack → (id relay : String) → (seen rows : List Row) → Decision × List Row
acknowledge now ack id relay seen rows =
    let decision = decide now ack id relay seen in
    (
      decision,
      elim ack.lease_id [ none ↦ rows | some lease ↦ carry_out decision id relay lease rows ],
    )
