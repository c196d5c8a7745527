-- ===== src/Audit.antt =====
-- modules/audit/audit-integrity.ts: the hash chain over a tenant's audit events. The SHA-256 digest is an
-- argument, from the text that is hashed to its hexadecimal digits. The rows of
-- `audit_integrity_entries` stand in the order of their sequence.
pub mod Canonical
pub mod Chain
pub mod Head
pub mod Retry
pub mod Once
mod Tests
use cadena.Prelude.{
  ℕ, ◌+◌, Bool, true, false, Option, none, some, List, [], ◌∷◌, ◌++◌, ◌&&◌, ◌||◌, not, ◌==◌,
  if◌then◌else◌, length, ◌-◌, suc, zero,
}
use cadena.Prelude.Text.{Text, codes, text_eq}
use cadena.Audit.Canonical.{
  Json, null, number, string, object, Fields, empty, field, stable_stringify,
}
use mathlib.Core.List.{foldl}

abbrev pub audit_proof_version : ℕ
audit_proof_version = 1

pub data Source : Type 0 where
  domain_events audit_events : Source

abbrev pub same_source : Source → Source → Bool
same_source domain_events domain_events = true
same_source audit_events audit_events = true
same_source _ _ = false

-- `IntegrityEventInput`: the payload as JSONB stores it, the time as `toISOString` writes it.
pub record Input : Type 0 where
  pub source : Source
  pub event_id : Text
  pub org_id : Text
  pub work_item_id : Option Text
  pub event_type : Text
  pub actor_type : Text
  pub actor_id : Text
  pub payload : Json
  pub occurred_at : Text

abbrev source_name : Source → Text
source_name domain_events = codes "domain_events"
source_name audit_events = codes "audit_events"

abbrev text_or_null : Option Text → Json
text_or_null none = null
text_or_null (some t) = string t

unfoldable pub canonical_audit_event : Input → Json
canonical_audit_event i = object (
    field (codes "proof_version") (number (codes "1")) (
      field (codes "source") (string (source_name i.source)) (
        field (codes "event_id") (string i.event_id) (
          field (codes "org_id") (string i.org_id) (
            field (codes "work_item_id") (text_or_null i.work_item_id) (
              field (codes "event_type") (string i.event_type) (
                field (codes "actor")
                  (object (
                    field (codes "type") (string i.actor_type)
                      (field (codes "id") (string i.actor_id) empty)))
                  (field (codes "occurred_at") (string i.occurred_at)
                    (field (codes "payload") i.payload empty)))))))))

abbrev pub previous_or_genesis : Option Text → Text
previous_or_genesis none = codes "GENESIS"
previous_or_genesis (some h) = h

-- The three updates of the digest.
abbrev pub hashed : Option Text → Json → Text
hashed previous canonical = previous_or_genesis previous ++ b'\n' ∷ stable_stringify canonical

-- A row of `audit_integrity_entries`.
pub record Entry : Type 0 where
  pub org_id : Text
  pub source : Source
  pub event_id : Text
  pub previous_hash : Option Text
  pub event_hash : Text
  pub canonical_event : Json
  pub proof_version : ℕ

abbrev pub same_hash : Option Text → Option Text → Bool
same_hash none none = true
same_hash (some a) (some b) = text_eq a b
same_hash _ _ = false

-- `WHERE org_id = $1 ORDER BY sequence DESC LIMIT 1`
abbrev pub next_head : (org : Text) → Option Text → Entry → Option Text
next_head org head r = if text_eq r.org_id org then some r.event_hash else head

unfoldable pub head_of : (org : Text) → List Entry → Option Text
head_of org = foldl (next_head org) none

unfoldable pub exists_in : (Entry → Bool) → List Entry → Bool
exists_in test [] = false
exists_in test (r ∷ rs) = if test r then true else exists_in test rs

-- The unique indexes on the table.
abbrev pub has_event : Source → (event_id : Text) → Entry → Bool
has_event s e r = same_source r.source s && text_eq r.event_id e

abbrev pub has_hash : (org hash : Text) → Entry → Bool
has_hash org hash r = text_eq r.org_id org && text_eq r.event_hash hash

abbrev pub has_link : (org : Text) → (previous : Option Text) → Entry → Bool
has_link org previous r = text_eq r.org_id org && same_hash r.previous_hash previous

pub data Inserted : Type 0 where
  inserted ignored hash_taken chain_taken : Inserted

-- `INSERT ... ON CONFLICT (source, event_id) DO NOTHING`
unfoldable pub insert_row : Entry → List Entry → Inserted × List Entry
insert_row r t =
    if exists_in (has_event r.source r.event_id) t
    then (ignored, t)
    else if exists_in (has_hash r.org_id r.event_hash) t
    then (hash_taken, t)
    else if exists_in (has_link r.org_id r.previous_hash) t
    then (chain_taken, t)
    else (inserted, t ++ r ∷ [])

module _ (digest : Text → Text) where
  unfoldable pub calculate_audit_hash : (previous : Option Text) → Json → Text
  calculate_audit_hash previous canonical = digest (hashed previous canonical)

  -- The values of the INSERT.
  unfoldable pub row_of : Input → (previous : Option Text) → Entry
  row_of i previous = record {
    org_id = i.org_id;
    source = i.source;
    event_id = i.event_id;
    previous_hash = previous;
    event_hash = calculate_audit_hash previous (canonical_audit_event i);
    canonical_event = canonical_audit_event i;
    proof_version = audit_proof_version;
  }

  -- The field `verified` of `verifyAuditEntry`.
  unfoldable pub verify_audit_entry : Entry → (current : Input) → Bool
  verify_audit_entry r i =
      r.proof_version == audit_proof_version
      && text_eq (calculate_audit_hash r.previous_hash (canonical_audit_event i)) r.event_hash

  abbrev pub sound_row : (current : Option Input) → Entry → Bool
  sound_row none r = false
  sound_row (some i) r =
      text_eq (calculate_audit_hash r.previous_hash (canonical_audit_event i)) r.event_hash

  -- What the loop of `verifyTenantAuditChain` carries, and its body. `current` is the event that the
  -- row's `LEFT JOIN` finds.
  unfoldable pub verify_row :
      (current : Source → Text → Option Input) → Option Text × Bool → Entry → Option Text × Bool
  verify_row current (previous, valid) r =
      let linked = same_hash r.previous_hash previous in
      let hash_matches =
        text_eq (calculate_audit_hash r.previous_hash r.canonical_event) r.event_hash in
      let source_matches = sound_row (current r.source r.event_id) r in
      (
        some r.event_hash,
        if not linked
              || (not hash_matches
                  || (not source_matches || not (r.proof_version == audit_proof_version)))
            then false
            else valid,
      )

abbrev pub of_tenant : (org : Text) → List Entry → List Entry
of_tenant org [] = []
of_tenant org (r ∷ rs) = if text_eq r.org_id org then r ∷ of_tenant org rs else of_tenant org rs

pub record Verdict : Type 0 where
  pub chain_length : ℕ
  pub chain_head : Option Text
  pub chain_verified : Bool

unfoldable pub verify_rows :
    (digest : Text → Text)
    → (current : Source → Text → Option Input) → List Entry
    → Option Text × Bool
verify_rows digest current = foldl (verify_row digest current) (none, true)

unfoldable pub verify_tenant_audit_chain :
    (digest : Text → Text)
    → (current : Source → Text → Option Input) → (org : Text) → List Entry
    → Verdict
verify_tenant_audit_chain digest current org t =
    let rows = of_tenant org t in
    let (head, valid) = verify_rows digest current rows in
    record { chain_length = length rows; chain_head = head; chain_verified = valid }

-- The attempts after the first.
abbrev pub last_attempt : ℕ
last_attempt = 7

-- What `appendAuditIntegrityEntry` comes to: it returns, or it throws the unique violation, or the error
-- that PostgreSQL answers with once a statement of the transaction has failed.
pub data Appended : Type 0 where
  appended hash_error chain_error transaction_aborted : Appended

-- The rows that other writers insert between two statements of a writer.
unfoldable pub rivals_insert : List Entry → List Entry → List Entry
rivals_insert [] t = t
rivals_insert (r ∷ rs) t = rivals_insert rs (insert_row r t).1

abbrev next_rivals : List (List Entry) → List Entry
next_rivals [] = []
next_rivals (rs ∷ rest) = rs

abbrev later_rivals : List (List Entry) → List (List Entry)
later_rivals [] = []
later_rivals (rs ∷ rest) = rest

module _ (digest : Text → Text) where
  -- One round of the loop: the `rivals` insert between its read of the head and its INSERT.
  unfoldable pub attempt : (rivals : List Entry) → Input → List Entry → Inserted × List Entry
  attempt rivals i t = insert_row (row_of digest i (head_of i.org_id t)) (rivals_insert rivals t)

  -- The loop, with the attempts that are left after the first. A transaction of the caller does not
  -- outlive the violation, so that the next SELECT in it fails.
  unfoldable pub append_attempts :
      (in_transaction : Bool)
      → (left : ℕ) → (rivals : List (List Entry)) → Input
      → List Entry
      → Appended × List Entry
  append_attempts in_transaction zero rivals i t =
      let (result, u) = attempt (next_rivals rivals) i t in
      elim result [
        | inserted ↦ (appended, u)
        | ignored ↦ (appended, u)
        | hash_taken ↦ (hash_error, u)
        | chain_taken ↦ (chain_error, u)
      ]
  append_attempts in_transaction (suc left) rivals i t =
      let (result, u) = attempt (next_rivals rivals) i t in
      let retried = append_attempts in_transaction left (later_rivals rivals) i u in
      elim result [
        | inserted ↦ (appended, u)
        | ignored ↦ (appended, u)
        | hash_taken ↦ (hash_error, u)
        | chain_taken ↦ if in_transaction then (transaction_aborted, u) else retried
      ]

  unfoldable pub append_audit_integrity_entry :
      (in_transaction : Bool)
      → (rivals : List (List Entry)) → Input
      → List Entry
      → Appended × List Entry
  append_audit_integrity_entry in_transaction rivals i t =
      if exists_in (has_event i.source i.event_id) t
      then (appended, t)
      else append_attempts in_transaction last_attempt rivals i t
