-- ===== src/Aging/Holds.antt =====
-- A clock that a policy holds, and how it goes on when the policy releases it.
use cadena.Sla.{SlaCalendar, business_hours, always, calculate_elapsed_minutes}
use cadena.Aging.{SlaPolicy, Clock, switch_clock, total_minutes, none, some}
use cadena.Prelude.{ℕ, ◌+◌, ◌≡◌, refl, Bool, true, false, List, [], ◌∷◌, arith}

no_time : (t : ℕ) (calendar : SlaCalendar) → calculate_elapsed_minutes t t calendar ≡ 0
unfolding calculate_elapsed_minutes
no_time t always = ground arith
no_time t business_hours = ground arith

-- The same policy, with its suspension set or cleared.
abbrev pub holding_by : Bool → SlaPolicy → SlaPolicy
holding_by b p = record p { suspend_sla = b }

-- Ticks at the given instants, under a policy that suspends.
abbrev pub hold : SlaPolicy → (entered : ℕ) → List ℕ → Clock → Clock
hold p entered [] c = c
hold p entered (t ∷ ts) c = hold p entered ts (switch_clock (holding_by true p) entered t c)

held_stays :
    (p : SlaPolicy) (entered t : ℕ) (c : Clock)
    → c.suspended ≡ true
    → switch_clock (holding_by true p) entered t c ≡ c
unfolding switch_clock
held_stays p entered t c h = ground arith

hold_still :
    (p : SlaPolicy) (entered : ℕ) (ts : List ℕ) (c : Clock)
    → c.suspended ≡ true
    → hold p entered ts c ≡ c
hold_still p entered [] c h = refl
hold_still p entered (t ∷ ts) c h = rw (held_stays p entered t c h) (hold_still p entered ts c h)

-- The tick that suspends a running clock keeps the minutes that it has run.
switch_on :
    (p : SlaPolicy) (entered t : ℕ) (c : Clock)
    → c.suspended ≡ false
    → switch_clock (holding_by true p) entered t c ≡ record {
      elapsed_base = total_minutes (holding_by false p) entered t c;
      suspended = true;
      clock_started_at = none;
    }
unfolding switch_clock total_minutes
switch_on p entered t c h = ground arith

-- A clock that stands at `n` minutes, and one that runs from `t` with `n` minutes before it.
abbrev stopped : ℕ → Clock
stopped n = record { elapsed_base = n; suspended = true; clock_started_at = none }

abbrev running : ℕ → ℕ → Clock
running n t = record { elapsed_base = n; suspended = false; clock_started_at = some t }

switch_off :
    (p : SlaPolicy) (entered t n : ℕ)
    → switch_clock (holding_by false p) entered t (stopped n) ≡ running n t
unfolding switch_clock
switch_off p entered t n = refl

running_stays :
    (p : SlaPolicy) (entered s t n : ℕ)
    → switch_clock (holding_by false p) entered s (running n t) ≡ running n t
unfolding switch_clock
running_stays p entered s t n = refl

running_total :
    (p : SlaPolicy) (entered s t n : ℕ)
    → total_minutes (holding_by false p) entered s (running n t)
      ≡ n + calculate_elapsed_minutes t s p.calendar
unfolding total_minutes
running_total p entered s t n = refl

-- Holding a clock loses no time and adds none: when a policy suspends a running clock at `t1`, the
-- engine ticks any number of times while it is held, and the policy is released at `t2`, then at the
-- tick of any later `t3` the item has the minutes that it had at `t1` and those from `t2` to `t3`.
pub hold_release :
    (p : SlaPolicy) (entered t1 t2 t3 : ℕ) (ts : List ℕ) (c : Clock)
    → c.suspended ≡ false
    → let free = holding_by false p in
      let held = hold p entered (t1 ∷ ts) c in
      let released = switch_clock free entered t2 held in
      (total_minutes free entered t2 released ≡ total_minutes free entered t1 c)
      × (total_minutes free entered t3 (switch_clock free entered t3 released)
          ≡ total_minutes free entered t1 c + calculate_elapsed_minutes t2 t3 p.calendar)
hold_release p entered t1 t2 t3 ts c h =
    let n = total_minutes (holding_by false p) entered t1 c in
    rw
      (
        switch_on p entered t1 c h,
        hold_still p entered ts (stopped n) refl,
        switch_off p entered t2 n,
        running_stays p entered t3 t2 n,
        running_total p entered t2 t2 n,
        running_total p entered t3 t2 n,
        no_time t2 p.calendar,
      )
      (omega arith, refl)
