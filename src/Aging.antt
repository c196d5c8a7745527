-- ===== src/Aging.antt =====
-- modules/sla/aging-engine.service.ts: one tick of the aging engine, which recomputes every item's
-- clock, score and bucket and emits warnings, breaches and escalations. The tables that it reads and
-- writes are lists; the row counts that the source returns are kept in the sink. A percentage is in
-- hundredths, as in Sla. `key` of a policy joins its parts by a colon; they are compared one by one.
pub mod Holds
pub mod Once
mod Tests
use Prim.Native.String.{String}
use text.Mathlib.Text.{◌==◌ as str_eq}
use cadena.Prelude.{
  ℕ, suc, ◌+◌, ◌*◌, Bool, true, false, Option, none, some, List, [], ◌∷◌, ◌&&◌, ◌||◌, not, ltb, leb,
  if◌then◌else◌, or_else, ◌==◌,
}
use cadena.Sla.{
  SlaCalendar, AgingBucket, green, amber, red, calculate_elapsed_minutes,
  compute_aging_from_elapsed,
}

pub record SlaPolicy : Type 0 where
  pub org_id : String
  pub item_type : String
  pub state : String
  pub threshold_minutes : ℕ
  pub calendar : SlaCalendar
  pub suspend_sla : Bool

pub record WorkItem : Type 0 where
  pub id : String
  pub org_id : String
  pub item_type : String
  pub status : String
  pub created_at : ℕ
  pub entered_state_at : Option ℕ
  pub owner_id : Option String
  pub team_id : Option String
  pub aging_bucket : AgingBucket
  pub aging_score : ℕ
  pub sla_elapsed_minutes : ℕ
  pub sla_clock_started_at : Option ℕ
  pub sla_suspended : Bool

pub data Kind : Type 0 where
  warning breach escalation : Kind

-- A row of `sla_emissions`.
pub record Emission : Type 0 where
  pub work_item_id : String
  pub state : String
  pub entered_state_at : ℕ
  pub kind : Kind

-- A published event: the claim that it rests on, the score, and who is addressed.
pub record SlaEvent : Type 0 where
  pub claim : Emission
  pub aging_score : ℕ
  pub recipients : List String

-- The tables that a tick only reads.
pub record Tables : Type 0 where
  pub policies : List SlaPolicy
  pub escalation_percent : String → Option ℕ
  pub team_lead : String → Option String
  pub escalation_person : Option String → String → Option String

-- What a tick writes and counts. The newest emission and event come first.
pub record Sink : Type 0 where
  pub emissions : List Emission
  pub published : List SlaEvent
  pub processed_count : ℕ
  pub updated_count : ℕ
  pub warning_count : ℕ
  pub breach_count : ℕ
  pub escalation_count : ℕ

abbrev kind_eq : Kind → Kind → Bool
kind_eq warning warning = true
kind_eq breach breach = true
kind_eq escalation escalation = true
kind_eq _ _ = false

abbrev emission_eq : Emission → Emission → Bool
emission_eq a b =
    str_eq a.work_item_id b.work_item_id
    && (str_eq a.state b.state
        && (a.entered_state_at == b.entered_state_at && kind_eq a.kind b.kind))

abbrev pub claimed : Emission → List Emission → Bool
claimed e [] = false
claimed e (x ∷ xs) = emission_eq e x || claimed e xs

abbrev count : Kind → Sink → Sink
count warning s = record s { warning_count = suc s.warning_count }
count breach s = record s { breach_count = suc s.breach_count }
count escalation s = record s { escalation_count = suc s.escalation_count }

-- `if (test && await this.claimEmission(...)) { count++; publish }`. The insert of the claim does
-- nothing on a conflict, and then returns no row.
unfoldable pub emit_if : Bool → SlaEvent → Sink → Sink
emit_if test event s =
    if test && not (claimed event.claim s.emissions)
    then count event.claim.kind
        (record s { emissions = event.claim ∷ s.emissions; published = event ∷ s.published })
    else s

-- The policy map: of several policies with one key the last wins.
abbrev policy_key_eq : SlaPolicy → WorkItem → Bool
policy_key_eq p item =
    str_eq p.org_id item.org_id && (str_eq p.item_type item.item_type && str_eq p.state item.status)

unfoldable pub find_policy : List SlaPolicy → WorkItem → Option SlaPolicy
find_policy [] item = none
find_policy (p ∷ ps) item = elim (find_policy ps item) [
  | some q ↦ some q
  | none ↦ if policy_key_eq p item then some p else none
]

-- The item's SLA clock, as the loop's variables hold it.
pub record Clock : Type 0 where
  pub elapsed_base : ℕ
  pub suspended : Bool
  pub clock_started_at : Option ℕ

abbrev pub entered_at : WorkItem → ℕ
entered_at item = or_else item.entered_state_at item.created_at

abbrev pub clock_of : WorkItem → Clock
clock_of item = record {
  elapsed_base = item.sla_elapsed_minutes;
  suspended = item.sla_suspended;
  clock_started_at = item.sla_clock_started_at;
}

abbrev pub running_minutes : SlaPolicy → (entered now : ℕ) → Clock → ℕ
running_minutes p entered now c =
    calculate_elapsed_minutes (or_else c.clock_started_at entered) now p.calendar

-- The switch between a running and a suspended clock, where the policy calls for one.
unfoldable pub switch_clock : SlaPolicy → (entered now : ℕ) → Clock → Clock
switch_clock p entered now c =
    if p.suspend_sla && not c.suspended
    then record {
      elapsed_base = c.elapsed_base + running_minutes p entered now c;
      suspended = true;
      clock_started_at = none;
    }
    else if not p.suspend_sla && c.suspended
    then record c { suspended = false; clock_started_at = some now }
    else c

unfoldable pub total_minutes : SlaPolicy → (entered now : ℕ) → Clock → ℕ
total_minutes p entered now c =
    c.elapsed_base + (if c.suspended then 0 else running_minutes p entered now c)

-- The item after the recomputation of its clock, score and bucket.
unfoldable pub recompute : Option SlaPolicy → (now : ℕ) → WorkItem → WorkItem
recompute none now item = record item { aging_score = 0; aging_bucket = green }
recompute (some p) now item =
    let c = switch_clock p (entered_at item) now (clock_of item) in
    let r =
      compute_aging_from_elapsed (total_minutes p (entered_at item) now c) p.threshold_minutes in
    record item {
      aging_score = r.score_hundredths;
      aging_bucket = r.bucket;
      sla_elapsed_minutes = c.elapsed_base;
      sla_suspended = c.suspended;
      sla_clock_started_at = c.clock_started_at;
    }

abbrev claim_of : WorkItem → Kind → Emission
claim_of item kind = record {
  work_item_id = item.id;
  state = item.status;
  entered_state_at = entered_at item;
  kind = kind;
}

-- `[a, b].filter(Boolean)` without repeats.
abbrev recipients_of : Option String → Option String → List String
recipients_of none none = []
recipients_of (some a) none = a ∷ []
recipients_of none (some b) = b ∷ []
recipients_of (some a) (some b) = if str_eq a b then a ∷ [] else a ∷ b ∷ []

abbrev lead_of : Tables → Option String → Option String
lead_of t none = none
lead_of t (some team) = t.team_lead team

abbrev pub is_set : Option SlaPolicy → Bool
is_set none = false
is_set (some p) = true

-- The three tests of the loop, on the new score; `item` is the item after `recompute`.
unfoldable pub emit : Tables → Option SlaPolicy → WorkItem → Sink → Sink
emit t policy item s =
    let event = λ (kind : Kind) (recipients : List String).
      let e : SlaEvent = record {
        claim = claim_of item kind;
        aging_score = item.aging_score;
        recipients = recipients;
      } in
      e in
    let percent = or_else (t.escalation_percent item.org_id) 150 in
    let s1 =
      emit_if (leb 7_500 item.aging_score) (event warning (recipients_of item.owner_id none)) s in
    let s2 =
      emit_if (ltb 10_000 item.aging_score)
        (event breach (recipients_of item.owner_id (lead_of t item.team_id))) s1 in
    emit_if (is_set policy && leb (percent * 100) item.aging_score)
      (event escalation (recipients_of (t.escalation_person item.team_id item.org_id) none)) s2

abbrev bucket_eq : AgingBucket → AgingBucket → Bool
bucket_eq green green = true
bucket_eq amber amber = true
bucket_eq red red = true
bucket_eq _ _ = false

abbrev bool_eq : Bool → Bool → Bool
bool_eq true b = b
bool_eq false b = not b

abbrev clock_eq : Option ℕ → Option ℕ → Bool
clock_eq none none = true
clock_eq (some a) (some b) = a == b
clock_eq _ _ = false

-- The test before the `UPDATE`: some column has changed.
abbrev has_changed : WorkItem → WorkItem → Bool
has_changed old new = not (
    bucket_eq old.aging_bucket new.aging_bucket
    && (old.aging_score == new.aging_score
        && (old.sla_elapsed_minutes == new.sla_elapsed_minutes
            && (bool_eq old.sla_suspended new.sla_suspended
                && clock_eq old.sla_clock_started_at new.sla_clock_started_at))))

-- The `UPDATE` of the row, and its count.
unfoldable pub store_changed : WorkItem → WorkItem → Sink → WorkItem × Sink
store_changed old new s =
    if has_changed old new
    then (new, record s { updated_count = suc s.updated_count })
    else (old, s)

-- One round of the loop over the items.
unfoldable pub tick_item : Tables → (now : ℕ) → WorkItem → Sink → WorkItem × Sink
tick_item t now item s =
    let policy = find_policy t.policies item in
    let item' = recompute policy now item in
    store_changed item item'
      (emit t policy item' (record s { processed_count = suc s.processed_count }))

-- `recomputeAgingForOrg` over the rows of the organisation.
unfoldable pub tick : Tables → (now : ℕ) → List WorkItem → Sink → List WorkItem × Sink
tick t now [] s = ([], s)
tick t now (item ∷ items) s =
    let (item', s') = tick_item t now item s in
    let (items', s'') = tick t now items s' in (item' ∷ items', s'')
