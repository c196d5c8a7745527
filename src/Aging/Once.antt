-- ===== src/Aging/Once.antt =====
-- Each SLA event is emitted once for one entry into a state, over any number of ticks.
use cadena.Aging.{
  store_changed, has_changed, WorkItem, Kind, warning, breach, escalation, Emission, SlaEvent,
  Tables, Sink, claimed, emission_eq, emit_if, emit, tick_item, tick, find_policy, recompute,
  SlaPolicy, leb, claim_of, ltb, is_set, or_else,
}
use text.Mathlib.TextEquality.{eq_iff}
use text.Mathlib.TextPositions.{eq_refl}
use cadena.Prelude.{
  ◌||◌, Bool-cases, inl, inr, ℕ, suc, ◌≡◌, refl, Bool, true, false, List, [], ◌∷◌, map, arith,
  Option, ◌&&◌, ◌++◌, ◌*◌,
}

-- No claim occurs twice.
abbrev pub IsDistinct : List Emission → Type 0
IsDistinct [] = Unit
IsDistinct (e ∷ es) = (claimed e es ≡ false) × IsDistinct es

abbrev pub claims : List SlaEvent → List Emission
claims = map λ e. e.claim

-- The stored claims are those of the published events, in front of the ones that were stored before,
-- and no two are equal.
pub record IsLogged (old : List Emission) (s : Sink) : Type 0 where
  pub logged : s.emissions ≡ claims s.published ++ old
  pub distinct : IsDistinct s.emissions

emit_if-IsLogged :
    (old : List Emission) (b : Bool) (e : SlaEvent) (s : Sink)
    → IsLogged old s
    → IsLogged old (emit_if b e s)
unfolding emit_if
emit_if-IsLogged old b record_e s h = record {
  logged = ground (arith, h.logged);
  distinct = ground (arith, h.distinct);
}

emit-IsLogged :
    (old : List Emission) (t : Tables) (p : Option SlaPolicy) (i : WorkItem) (s : Sink)
    → IsLogged old s
    → IsLogged old (emit t p i s)
unfolding emit
emit-IsLogged old t p i s h =
    emit_if-IsLogged old _ _ _ (emit_if-IsLogged old _ _ _ (emit_if-IsLogged old _ _ s h))

store_changed-IsLogged :
    (old : List Emission) (i i' : WorkItem) (s : Sink)
    → IsLogged old s
    → IsLogged old (store_changed i i' s).1
unfolding store_changed
store_changed-IsLogged old i i' s h = elim (Bool-cases (has_changed i i')) [
  | inl e ↦ rw (e, store_changed) (record { logged = h.logged; distinct = h.distinct })
  | inr e ↦ rw (e, store_changed) h
]

tick_item-IsLogged :
    (old : List Emission) (t : Tables) (now : ℕ) (i : WorkItem) (s : Sink)
    → IsLogged old s
    → IsLogged old (tick_item t now i s).1
unfolding tick_item
tick_item-IsLogged old t now i s h =
    let p = find_policy t.policies i in
    let i' = recompute p now i in
    store_changed-IsLogged old i i' _ (
      emit-IsLogged old t p i' (record s { processed_count = suc s.processed_count })
        (record { logged = h.logged; distinct = h.distinct }))

tick-IsLogged :
    (old : List Emission) (t : Tables) (now : ℕ) (is : List WorkItem) (s : Sink)
    → IsLogged old s
    → IsLogged old (tick t now is s).1
unfolding tick
tick-IsLogged old t now [] s h = h
tick-IsLogged old t now (i ∷ is) s h =
    tick-IsLogged old t now is (tick_item t now i s).1 (tick_item-IsLogged old t now i s h)

-- Any number of ticks; the tables, the clock reading and the items at each are what the rest of the
-- program has made of them.
abbrev pub ticks : List (Tables × ℕ × List WorkItem) → Sink → Sink
ticks [] s = s
ticks ((t, now, items) ∷ more) s = ticks more (tick t now items s).1

ticks_from-IsLogged :
    (old : List Emission) (ts : List (Tables × ℕ × List WorkItem)) (s : Sink)
    → IsLogged old s
    → IsLogged old (ticks ts s)
ticks_from-IsLogged old [] s h = h
ticks_from-IsLogged old ((t, now, items) ∷ more) s h =
    ticks_from-IsLogged old more (tick t now items s).1 (tick-IsLogged old t now items s h)

-- What a tick counts from, with the claims that the table already holds.
abbrev pub idle : List Emission → Sink
idle old = record {
  emissions = old;
  published = [];
  processed_count = 0;
  updated_count = 0;
  warning_count = 0;
  breach_count = 0;
  escalation_count = 0;
}

-- Over any number of ticks, also across restarts, at most one warning, one breach and one escalation
-- is published for one entry of an item into a state: the claims of the published events are the
-- rows that the ticks have added, and no two rows are equal.
pub ticks-IsLogged :
    (old : List Emission) (ts : List (Tables × ℕ × List WorkItem))
    → IsDistinct old
    → IsLogged old (ticks ts (idle old))
ticks-IsLogged old ts h =
    ticks_from-IsLogged old ts (idle old) (record { logged = refl; distinct = h })

emission_eq_sound : (a b : Emission) → emission_eq a b ≡ true → a ≡ b
emission_eq_sound a b h =
    ground (arith, eq_iff a.work_item_id b.work_item_id, eq_iff a.state b.state)

emit_if-claimed :
    (b : Bool) (event : SlaEvent) (s : Sink) (e : Emission)
    → claimed e (emit_if b event s).emissions
      ≡ (claimed e s.emissions || (b && emission_eq e event.claim))
unfolding emit_if
emit_if-claimed b event s e = ground (arith, emission_eq_sound e event.claim)

-- The test of each kind, on the recomputed item.
abbrev pub crosses : Tables → Option SlaPolicy → WorkItem → Kind → Bool
crosses t p i warning = leb 7_500 i.aging_score
crosses t p i breach = ltb 10_000 i.aging_score
crosses t p i escalation =
    is_set p && leb (or_else (t.escalation_percent i.org_id) 150 * 100) i.aging_score

emit-claimed :
    (t : Tables) (p : Option SlaPolicy) (i : WorkItem) (s : Sink) (k : Kind)
    → claimed (claim_of i k) (emit t p i s).emissions
      ≡ (claimed (claim_of i k) s.emissions || crosses t p i k)
unfolding emit
emit-claimed t p i s warning = simp (emit_if-claimed, eq_refl) (ground arith)
emit-claimed t p i s breach = simp (emit_if-claimed, eq_refl) (ground arith)
emit-claimed t p i s escalation = simp (emit_if-claimed, eq_refl) (ground arith)

store_changed-emissions :
    (i i' : WorkItem) (s : Sink) → (store_changed i i' s).1.emissions ≡ s.emissions
unfolding store_changed
store_changed-emissions i i' s = ground arith

-- A tick stores the claim of each kind exactly where it was stored before or the new score crosses
-- the line of that kind: 75 percent for a warning, above 100 for a breach, the organisation's
-- percentage (150 if it has none) for an escalation, which also needs a policy.
pub tick_item-claimed :
    (t : Tables) (now : ℕ) (i : WorkItem) (s : Sink) (k : Kind)
    → let p = find_policy t.policies i in
      let i' = recompute p now i in
      claimed (claim_of i' k) (tick_item t now i s).1.emissions
      ≡ (claimed (claim_of i' k) s.emissions || crosses t p i' k)
unfolding tick_item
tick_item-claimed t now i s k =
    let p = find_policy t.policies i in
    let i' = recompute p now i in rw (store_changed-emissions i i' _) (emit-claimed t p i' _ k)
