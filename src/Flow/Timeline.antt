-- ===== src/Flow/Timeline.antt =====
-- What `buildIntervals` says of each instant, and that its intervals are disjoint.
use Prim.Native.String.{String}
use cadena.Flow.{
  StateChange, StateInterval, Builder, includes, insert_event, sort_events, close, on_event,
  on_events, first_state, build_intervals,
}
use cadena.Prelude.{
  ℕ, ◌≤◌, ◌<◌, ◌≡◌, refl, Bool, true, false, Option, none, some, List, [], ◌∷◌, ◌++◌, ◌&&◌, ltb,
  leb, if◌then◌else◌, arith, lt→ltb, not_lt→ltb,
}
use native.Mathlib.Decide.{dec_lt}

-- The state of the first interval that holds an instant.
abbrev pub find_at : ℕ → List StateInterval → Option String
find_at t [] = none
find_at t (i ∷ is) = if leb i.start t && ltb t i.end then some i.state else find_at t is

-- The state that a work item was in: the one that the last change up to the instant led to.
abbrev pub state_at : ℕ → String → List StateChange → String
state_at t s [] = s
state_at t s (e ∷ es) = state_at t (if leb e.at t then e.to else s) es

-- Time in a terminal state is dropped.
abbrev pub live : List String → String → Option String
live terminal s = if includes terminal s then none else some s

abbrev first_some : Option String → Option String → Option String
first_some none o = o
first_some (some s) o = some s

abbrev IsFrom : ℕ → List StateChange → Type 0
IsFrom lo [] = Unit
IsFrom lo (e ∷ es) = (lo ≤ e.at) × IsFrom e.at es

insert_event-IsFrom :
    (lo : ℕ) (e : StateChange) (es : List StateChange)
    → lo ≤ e.at
    → IsFrom lo es
    → IsFrom lo (insert_event e es)
insert_event-IsFrom lo e [] h k = (h, tt)
insert_event-IsFrom lo e (x ∷ xs) h (k, ks) = ground (arith, insert_event-IsFrom x.at e xs, ks)

sort_events-IsFrom : (es : List StateChange) → IsFrom 0 (sort_events es)
unfolding sort_events
sort_events-IsFrom [] = tt
sort_events-IsFrom (e ∷ es) =
    insert_event-IsFrom 0 e (sort_events es) (omega arith) (sort_events-IsFrom es)

state_at-before :
    (t lo : ℕ) (s : String) (es : List StateChange) → t < lo → IsFrom lo es → state_at t s es ≡ s
state_at-before t lo s [] h k = refl
state_at-before t lo s (e ∷ es) h (k, ks) =
    ground (arith, state_at-before t e.at s es (omega arith) ks)

find_at-append :
    (t : ℕ) (xs ys : List StateInterval)
    → find_at t (xs ++ ys) ≡ first_some (find_at t xs) (find_at t ys)
find_at-append t [] ys = refl
find_at-append t (x ∷ xs) ys = ground (arith, find_at-append t xs ys)

-- An interval that does not hold `t` does not matter to it, and one that does is found.
find_at-close :
    (terminal : List String) (end : ℕ) (is_open : Bool) (b : Builder) (t : ℕ)
    → find_at t (close terminal end is_open b).intervals
      ≡ first_some
          (find_at t b.intervals)
          (if leb b.cursor t && ltb t end then live terminal b.state else none)
find_at-close terminal end is_open b t =
    let i : StateInterval = record {
      state = b.state;
      start = b.cursor;
      end = end;
      is_open = is_open;
      reason = b.entry_reason;
    } in
    ground (arith, find_at-append t b.intervals (i ∷ []))

-- A change that predates the cursor, and one that does not.
on_event-early :
    (terminal : List String) (e : StateChange) (b : Builder)
    → e.at < b.cursor
    → ((on_event terminal e b).cursor ≡ b.cursor)
      × ((on_event terminal e b).state ≡ e.to)
      × ((on_event terminal e b).intervals ≡ b.intervals)
unfolding on_event
on_event-early terminal e b h = rw (lt→ltb _ _ h) (refl, refl, refl)

on_event-late :
    (terminal : List String) (e : StateChange) (b : Builder) (t : ℕ)
    → ¬ (e.at < b.cursor)
    → ((on_event terminal e b).cursor ≡ e.at)
      × ((on_event terminal e b).state ≡ e.to)
      × (find_at t (on_event terminal e b).intervals
          ≡ first_some
              (find_at t b.intervals)
              (if leb b.cursor t && ltb t e.at then live terminal b.state else none))
unfolding on_event
on_event-late terminal e b t h =
    rw (not_lt→ltb _ _ h) (refl, refl, find_at-close terminal e.at false _ t)

-- The intervals of a history, from the point that its loop has reached.
finish : List String → ℕ → List StateChange → Builder → List StateInterval
unfolding on_events
finish terminal now es b = (close terminal now true (on_events terminal es b)).intervals

module _ (terminal : List String) (now t : ℕ) where
  finish-step :
      (e : StateChange) (es : List StateChange) (b : Builder)
      → finish terminal now (e ∷ es) b ≡ finish terminal now es (on_event terminal e b)
  unfolding finish
  finish-step e es b = refl

  -- Once the cursor is past `t`, nothing more is found at it.
  finish-past :
      (es : List StateChange) (b : Builder)
      → t < b.cursor
      → find_at t (finish terminal now es b) ≡ find_at t b.intervals
  finish-past [] b h = unfold finish in ground (arith, find_at-close terminal now true b t)
  finish-past (e ∷ es) b h =
      let next = finish-past es (on_event terminal e b) in
      rw (finish-step e es b) (elim (dec_lt e.at b.cursor) [
        | yes early ↦ ground (arith, on_event-early terminal e b early, next)
        | no late ↦ ground (arith, on_event-late terminal e b t late, next)
      ])

  -- Until then, what is found at `t` is what the changes to come say of it.
  finish-at :
      (es : List StateChange) (lo : ℕ) (b : Builder)
      → t < now
      → b.cursor ≤ t
      → find_at t b.intervals ≡ none
      → IsFrom lo es
      → find_at t (finish terminal now es b) ≡ live terminal (state_at t b.state es)
  finish-at [] lo b h k l f = unfold finish in ground (arith, find_at-close terminal now true b t)
  finish-at (e ∷ es) lo b h k l (f, fs) =
      let b' = on_event terminal e b in
      let next = finish-at es e.at b' h in
      let over = finish-past es b' in
      rw (finish-step e es b) (elim (dec_lt e.at b.cursor) [
        | yes early ↦ ground (arith, on_event-early terminal e b early, next)
        | no late ↦ ground (
          arith,
          on_event-late terminal e b t late,
          next,
          over,
          state_at-before t e.at b.state es,
        )
      ])

-- For every instant from the creation of an item up to now, an interval of its history holds it
-- exactly where the item was not in a terminal state, and that interval has the state to which the
-- last change up to then had led (the changes being taken by time, equals in their order): whatever
-- the order in which they are given, and also where they contradict each other.
pub build_intervals-find_at :
    (created_at : ℕ) (current : String) (input : List StateChange) (now : ℕ)
    (terminal : List String) (t : ℕ)
    → created_at ≤ t
    → t < now
    → let events = sort_events input in
      find_at t (build_intervals created_at current input now terminal).intervals
      ≡ live terminal (state_at t (first_state events current) events)
unfolding build_intervals
build_intervals-find_at created_at current input now terminal t h k =
    unfold finish in
    finish-at terminal now t (sort_events input) 0 _ k h refl (sort_events-IsFrom input)
