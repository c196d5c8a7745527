-- ===== src/Workflow/Commits.antt =====
-- What a committed change is, which of two concurrent changes wins, and what happens to the SLA clock.
use text.Mathlib.Text.{◌==◌ as str_eq}
use cadena.Sla.{calculate_elapsed_minutes}
use cadena.Workflow.Transition.{
  WorkItem, StatePolicy, StateChanged, Db, Change, changed_before_commit,
}
use cadena.Workflow.Commit.{
  Clock, suspends, clock_start, next_clock, clock_for, changed, update_items, is_hit, failed,
  committed, commit_state_change,
}
use cadena.Prelude.{
  ℕ, ◌+◌, ◌≡◌, Bool, if◌then◌else◌, ◌⊎◌, refl, true, false, Bool-cases, Option, some, List, [], ◌∷◌,
  ◌&&◌, inl, inr, arith,
}

-- After an update to another state, no row answers to a change that was made from the old one.
is_hit-update_items :
    (c c' : Change) (k : Clock) (xs : List WorkItem)
    → c'.item.id ≡ c.item.id
    → c'.item.org_id ≡ c.item.org_id
    → c'.item.status ≡ c.item.status
    → str_eq c.item.status c.to_state ≡ false
    → is_hit c' (update_items c k xs) ≡ false
unfolding is_hit update_items
is_hit-update_items c c' k [] i o s h = refl
is_hit-update_items c c' k (x ∷ xs) i o s h =
    ground (arith, i, o, s, h, is_hit-update_items c c' k xs i o s h)

-- Of two changes that were checked against the same state of an item, at most one is committed: once
-- the first has moved the item to another state, the second is refused and changes no table.
pub commit_state_change-once :
    (c c' : Change) (db : Db) (e : StateChanged)
    → c'.item.id ≡ c.item.id
    → c'.item.org_id ≡ c.item.org_id
    → c'.item.status ≡ c.item.status
    → str_eq c.item.status c.to_state ≡ false
    → (commit_state_change c db).1 ≡ committed e
    → let left = (commit_state_change c db).0 in
      commit_state_change c' left ≡ (left, failed changed_before_commit)
unfolding commit_state_change
commit_state_change-once c c' db e i o s h k = elim (Bool-cases (is_hit c db.work_items)) [
  | inl t ↦
      ground (arith, t, is_hit-update_items c c' (clock_for c db.policies) db.work_items i o s h)
  | inr f ↦ ground (arith, f, k)
]

-- A row that still is as it was checked.
abbrev pub is_as_checked : Change → WorkItem → Bool
is_as_checked c x =
    (str_eq x.id c.item.id && str_eq x.org_id c.item.org_id) && str_eq x.status c.item.status

abbrev pub some_as_checked : Change → List WorkItem → Bool
some_as_checked c [] = false
some_as_checked c (x ∷ xs) = if is_as_checked c x then true else some_as_checked c xs

-- The row `y` is the row `x` after the change.
pub record IsMoved (c : Change) (k : Clock) (x y : WorkItem) : Type 0 where
  pub id : y.id ≡ x.id
  pub org_id : y.org_id ≡ x.org_id
  pub item_type : y.item_type ≡ x.item_type
  pub from_connector : y.from_connector ≡ x.from_connector
  pub status : y.status ≡ c.to_state
  pub entered_state_at : y.entered_state_at ≡ some c.at
  pub custom_fields : y.custom_fields ≡ c.merged
  pub elapsed : y.sla_elapsed_minutes ≡ k.elapsed
  pub suspended : y.sla_suspended ≡ k.suspended

-- Each row that was as checked is moved, and each other row stays.
abbrev pub AreMoved : Change → Clock → List WorkItem → List WorkItem → Type 0
AreMoved c k [] [] = Unit
AreMoved c k (x ∷ xs) (y ∷ ys) =
    (((is_as_checked c x ≡ true) × IsMoved c k x y) ⊎ ((is_as_checked c x ≡ false) × (y ≡ x)))
    × AreMoved c k xs ys
AreMoved c k [] (y ∷ ys) = ⊥
AreMoved c k (x ∷ xs) [] = ⊥

-- Time on hold is not counted: an item whose clock runs, and that enters a hold state at `t1` and
-- leaves it at any later `t2` for a state that does not suspend, has the minutes that it had at `t1`.
pub next_clock-hold :
    (t1 t2 : ℕ) (p : StatePolicy) (hold from target : Option StatePolicy) (c c' : Change)
    (i : WorkItem)
    → i.sla_suspended ≡ false
    → suspends hold ≡ true
    → suspends target ≡ false
    → let held = changed c (next_clock t1 (some p) hold i) i in
      let left = changed c' (next_clock t2 from target held) held in
      (left.sla_elapsed_minutes
        ≡ i.sla_elapsed_minutes + calculate_elapsed_minutes (clock_start i) t1 p.calendar)
      × (left.sla_suspended ≡ false)
unfolding next_clock
next_clock-hold t1 t2 p hold from target c c' i h k l = ground (arith, h, k, l)
