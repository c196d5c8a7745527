-- ===== src/Flow.antt =====
-- modules/flow/flow-profile.ts: the flow profile of a work item, computed from its recorded state
-- changes. A `Date` is its count of milliseconds since the epoch; a `Set` of states is a list.
pub mod Risk
pub mod Cost
pub mod Business
pub mod Timeline
pub mod Clip
pub mod Totals
mod Tests
use Prim.Native.String.{String}
use text.Mathlib.Text.{◌==◌ as str_eq}
use cadena.Prelude.{
  ℕ, zero, suc, ◌+◌, ◌-◌, ◌*◌, ◌/◌, min, max, Bool, true, false, Option, none, some, List, [], ◌∷◌,
  ◌++◌, ◌&&◌, ◌||◌, not, ltb, leb, if◌then◌else◌, or_else, round_div,
}
use cadena.Sla.{SlaCalendar, business_hours, always, day_ms, hour_ms, utc_day}
use cadena.Prelude.{◌==◌}

pub data WaitReasonCategory : Type 0 where
  customer third_party dependency approval capacity other : WaitReasonCategory

pub record WaitReason : Type 0 where
  pub category : WaitReasonCategory
  pub note : Option String

pub record StateChange : Type 0 where
  pub at : ℕ
  pub from : Option String
  pub to : String
  pub reason : Option WaitReason

pub record StateInterval : Type 0 where
  pub state : String
  pub start : ℕ
  pub end : ℕ
  pub is_open : Bool
  pub reason : Option WaitReason

pub record BuiltHistory : Type 0 where
  pub intervals : List StateInterval
  pub anomalies : ℕ

-- `Array.prototype.includes`, and `Set.prototype.has`.
abbrev pub includes : List String → String → Bool
includes [] s = false
includes (x ∷ xs) s = str_eq x s || includes xs s

-- The order of the source's `sort`: by time, and by position among equals.
abbrev insert_event : StateChange → List StateChange → List StateChange
insert_event e [] = e ∷ []
insert_event e (x ∷ xs) = if leb e.at x.at then e ∷ x ∷ xs else x ∷ insert_event e xs

unfoldable pub sort_events : List StateChange → List StateChange
sort_events [] = []
sort_events (e ∷ es) = insert_event e (sort_events es)

-- The variables of the loop of `buildIntervals`.
pub record Builder : Type 0 where
  pub cursor : ℕ
  pub state : String
  pub entry_reason : Option WaitReason
  pub anomalies : ℕ
  pub intervals : List StateInterval

-- The local function `close`.
abbrev close : List String → ℕ → Bool → Builder → Builder
close terminal end is_open b =
    if ltb b.cursor end && not (includes terminal b.state)
    then record b {
      intervals =
          b.intervals
          ++ record {
            state = b.state;
            start = b.cursor;
            end = end;
            is_open = is_open;
            reason = b.entry_reason;
          }
            ∷ [];
    }
    else b

-- `event.from !== null && event.from !== state`
abbrev contradicts : Option String → String → Bool
contradicts none state = false
contradicts (some from) state = not (str_eq from state)

abbrev count_if : Bool → ℕ → ℕ
count_if b n = if b then suc n else n

-- One round of the loop over the events.
on_event : List String → StateChange → Builder → Builder
on_event terminal event b =
    let b = record b { anomalies = count_if (contradicts event.from b.state) b.anomalies } in
    if ltb event.at b.cursor
    then record b { anomalies = suc b.anomalies; state = event.to; entry_reason = event.reason }
    else record (close terminal event.at false b) {
      cursor = event.at;
      state = event.to;
      entry_reason = event.reason;
    }

on_events : List String → List StateChange → Builder → Builder
on_events terminal [] b = b
on_events terminal (e ∷ es) b = on_events terminal es (on_event terminal e b)

-- `events[0]?.from ?? input.currentState`
abbrev first_state : List StateChange → String → String
first_state [] current = current
first_state (e ∷ es) current = or_else e.from current

unfoldable pub build_intervals :
    (created_at : ℕ)
    → (current_state : String) → List StateChange
    → (now : ℕ) → (terminal : List String) → BuiltHistory
unfolding on_events on_event sort_events
build_intervals created_at current_state input now terminal =
    let events = sort_events input in
    let start : Builder = record {
      cursor = created_at;
      state = first_state events current_state;
      entry_reason = none;
      anomalies = 0;
      intervals = [];
    } in
    let b = close terminal now true (on_events terminal events start) in
    record { intervals = b.intervals; anomalies = b.anomalies }

-- One round of the loop of `clipIntervals`: what is left of an interval in `[from, to)`, if anything.
abbrev clip_one : Option ℕ → Option ℕ → StateInterval → Option StateInterval
clip_one from to i =
    let start = max (or_else from i.start) i.start in
    let clipped_end = ltb (or_else to i.end) i.end in
    let end = if clipped_end then or_else to i.end else i.end in
    if ltb start end
    then some (record i { start = start; end = end; is_open = i.is_open && not clipped_end })
    else none

unfoldable pub clip_intervals : List StateInterval → (from to : Option ℕ) → List StateInterval
clip_intervals [] from to = []
clip_intervals (i ∷ is) from to = elim (clip_one from to i) [
  | none ↦ clip_intervals is from to
  | some c ↦ c ∷ clip_intervals is from to
]

-- One round of the loop of `businessMs`, for the day that begins at `day`.
add_day : (day from to total : ℕ) → ℕ
add_day day from to total =
    let weekday = utc_day (day / day_ms) in
    let opens = max (day + 9 * hour_ms) from in
    let closes = min (day + 17 * hour_ms) to in
    if weekday == 0 || weekday == 6
    then total
    else if ltb opens closes
    then total + (closes - opens)
    else total

-- The loop on fuel; `none` means that the fuel ran out.
unfoldable pub business_days : (fuel day from to total : ℕ) → Option ℕ
unfolding add_day
business_days zero day from to total = none
business_days (suc fuel) day from to total =
    let rest = business_days fuel (day + day_ms) from to (add_day day from to total) in
    if ltb day to then rest else some total

unfoldable pub business_ms : (start end : ℕ) → SlaCalendar → ℕ
unfolding business_days
business_ms start end always = if leb end start then 0 else end - start
business_ms start end business_hours =
    if leb end start
    then 0
    else or_else
        (business_days (suc (suc (end / day_ms - start / day_ms))) (start / day_ms * day_ms) start
          end 0)
        0

-- `BucketMs`, a total of milliseconds for each flow class.
pub record BucketMs : Type 0 where
  pub active : ℕ
  pub waiting : ℕ
  pub blocked : ℕ
  pub unclassified : ℕ

-- Minutes in hundredths; shares in ten-thousandths, `none` where nothing has elapsed.
pub record FlowTotals : Type 0 where
  pub active_minutes : ℕ
  pub waiting_minutes : ℕ
  pub blocked_minutes : ℕ
  pub unclassified_minutes : ℕ
  pub elapsed_minutes : ℕ
  pub flow_efficiency : Option ℕ
  pub unclassified_share : Option ℕ

abbrev minutes : ℕ → ℕ
minutes ms = round_div (ms * 100) 60_000

abbrev ratio : ℕ → ℕ → Option ℕ
ratio part whole = if ltb 0 whole then some (round_div (part * 10_000) whole) else none

abbrev pub elapsed_of : BucketMs → ℕ
elapsed_of ms = ms.active + ms.waiting + ms.blocked + ms.unclassified

unfoldable pub totals_from : BucketMs → FlowTotals
unfolding round_div
totals_from ms = record {
  active_minutes = minutes ms.active;
  waiting_minutes = minutes ms.waiting;
  blocked_minutes = minutes ms.blocked;
  unclassified_minutes = minutes ms.unclassified;
  elapsed_minutes = minutes (elapsed_of ms);
  flow_efficiency = ratio ms.active (elapsed_of ms);
  unclassified_share = ratio ms.unclassified (elapsed_of ms);
}

unfoldable pub add_bucket_ms : BucketMs → BucketMs → BucketMs
add_bucket_ms target source = record {
  active = target.active + source.active;
  waiting = target.waiting + source.waiting;
  blocked = target.blocked + source.blocked;
  unclassified = target.unclassified + source.unclassified;
}
