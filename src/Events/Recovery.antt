-- ===== src/Events/Recovery.antt =====
-- An event that was committed is delivered, also after a stop between the commit and its publication.
use Prim.Native.String.{String}
use text.Mathlib.Text.{◌==◌ as str_eq}
use text.Mathlib.TextEquality.{eq_iff}
use cadena.Events.Envelope.{Envelope}
use cadena.Events.Outbox.{
  OutboxStatus, pending, dispatched, OutboxRow, OutboxEventInput, Tables, envelope_of, enqueue,
  update_row, find_event, pending_events, take, dispatch_event, dispatch_all, recover_pending,
}
use cadena.Prelude.{
  ℕ, zero, suc, ◌≤◌, ◌≡◌, ◌⊎◌, refl, sym, ◌||◌, min, max, ap, Bool, true, false, Bool-cases, Option,
  none, some, Option-cases, List, [], ◌∷◌, ◌++◌, inl, inr, if◌then◌else◌, arith, All, length,
  is_some,
}

abbrev pub is_pending : OutboxStatus → Bool
is_pending pending = true
is_pending dispatched = false

-- Rows of an event that are still pending.
unfoldable pub awaits : (event_id : String) → List OutboxRow → Bool
awaits e [] = false
awaits e (x ∷ xs) = if str_eq e x.event_id then is_pending x.status else awaits e xs

abbrev named : (event_id : String) → List Envelope → Bool
named e [] = false
named e (x ∷ xs) = str_eq e x.event_id || named e xs

str_eq-same : (a b c : String) → str_eq a b ≡ true → str_eq a c ≡ str_eq b c
str_eq-same a b c h = let e = (eq_iff a b).0 h in rw (e) refl

str_eq-sym : (a b : String) → str_eq a b ≡ true → str_eq b a ≡ true
str_eq-sym a b h = let e = (eq_iff a b).0 h in (eq_iff b a).1 (sym e)

-- A dispatched event does not wait any more, and no other event starts to wait.
update_row-settles :
    (e e' : String) (err : Option String) (rows : List OutboxRow)
    → str_eq e e' ≡ true ⊎ (awaits e rows ≡ false)
    → awaits e (update_row e' dispatched err rows) ≡ false
unfolding awaits update_row
update_row-settles e e' err [] h = refl
update_row-settles e e' err (x ∷ xs) h = elim (Bool-cases (str_eq e x.event_id)) [
  | inl k ↦ ground (arith, k, h, str_eq-same e e' x.event_id)
  | inr k ↦ ground (arith, k, h, update_row-settles e e' err xs)
]

find_event-named :
    (e : String) (x : Envelope) (events : List (String × Envelope))
    → find_event e events ≡ some x
    → str_eq e x.event_id ≡ true
unfolding find_event
find_event-named e x [] h = cc
find_event-named e x ((org, y) ∷ ys) h = elim (Bool-cases (str_eq e y.event_id)) [
  | inl k ↦ ground (arith, h, k)
  | inr k ↦ find_event-named e x ys (ground (arith, h, k))
]

-- Every waiting row has its event.
abbrev pub IsStored : Tables → Type 0
IsStored t = All (λ x. is_some (find_event x.event_id t.domain_events) ≡ true) t.event_outbox

pending_events-named :
    (e : String) (rows : List OutboxRow) (events : List (String × Envelope))
    → All (λ x. is_some (find_event x.event_id events) ≡ true) rows
    → awaits e rows ≡ true
    → named e (pending_events rows events) ≡ true
unfolding awaits pending_events
pending_events-named e [] events hs h = cc
pending_events-named e (x ∷ xs) events (k, hs) h =
    elim (Option-cases (find_event x.event_id events)) [
      | inl n ↦ ground (arith, n, k)
      | inr (y, n) ↦ ground (
        arith,
        n,
        find_event-named x.event_id y events n,
        str_eq-same e x.event_id y.event_id,
        pending_events-named e xs events hs,
      )
    ]

module _ {ℓ} {W : Type ℓ} (publish : Envelope → W → W × Option String)
    (quiet : (e : Envelope) (w : W) → (publish e w).1 ≡ none) where
  dispatch_event-quiet :
      (e : Envelope) (w : W) (rows : List OutboxRow)
      → dispatch_event publish e (w, rows)
        ≡ (((publish e w).0, update_row e.event_id dispatched none rows), true)
  unfolding dispatch_event
  dispatch_event-quiet e w rows = rw (dispatch_event, quiet e w) refl

  dispatch_all-settles :
      (e : String) (es : List Envelope) (w : W) (rows : List OutboxRow)
      → named e es ≡ true ⊎ (awaits e rows ≡ false)
      → (awaits e (dispatch_all publish es (w, rows)).0.1 ≡ false)
        × ((dispatch_all publish es (w, rows)).1 ≡ length es)
  unfolding dispatch_all
  dispatch_all-settles e [] w rows h = (elim h [ inl k ↦ cc | inr k ↦ k ], refl)
  dispatch_all-settles e (x ∷ xs) w rows h =
      let settled : named e xs ≡ true
          ⊎ (awaits e (update_row x.event_id dispatched none rows) ≡ false) =
        elim (Bool-cases (named e xs)) [
          | inl k ↦ inl k
          | inr k ↦ inr (
              update_row-settles e x.event_id none rows
                (elim h [ inl n ↦ inl (ground (arith, n, k)) | inr a ↦ inr a ]))
        ] in
      let (quieted, count) = dispatch_all-settles e xs (publish x w).0 _ settled in
      rw (dispatch_event-quiet x w rows) (quieted, ap suc count)

  take-all : (n : ℕ) (es : List Envelope) → length es ≤ n → take n es ≡ es
  take-all zero [] h = refl
  take-all zero (x ∷ xs) h = ground arith
  take-all (suc n) [] h = refl
  take-all (suc n) (x ∷ xs) h = rw (take-all n xs (omega arith)) refl

  -- Nothing that was committed is left behind: when the bus accepts every event and all that wait fit
  -- the limit, a recovery reports as many deliveries as there were waiting events, and no event waits
  -- any more.
  pub recover_pending-drains :
      (limit : ℕ) (w : W) (t : Tables) (e : String)
      → IsStored t
      → length (pending_events t.event_outbox t.domain_events) ≤ min (max limit 1) 10_000
      → let r = recover_pending publish limit (w, t) in
        (awaits e r.0.1.event_outbox ≡ false)
        × (r.1 ≡ length (pending_events t.event_outbox t.domain_events))
  unfolding recover_pending
  recover_pending-drains limit w t e stored fits =
      rw (take-all (min (max limit 1) 10_000) (pending_events t.event_outbox t.domain_events) fits)
        (dispatch_all-settles e (pending_events t.event_outbox t.domain_events) w t.event_outbox
          (elim (Bool-cases (awaits e t.event_outbox)) [
            | inl a ↦ inl (pending_events-named e t.event_outbox t.domain_events stored a)
            | inr a ↦ inr a
          ]))

find_event-append :
    (e : String) (events : List (String × Envelope)) (org : String) (x : Envelope)
    → (is_some (find_event e events) ≡ true) ⊎ (str_eq e x.event_id ≡ true)
    → is_some (find_event e (events ++ ((org, x) ∷ []))) ≡ true
unfolding find_event
find_event-append e [] org x h = ground arith
find_event-append e ((o, y) ∷ ys) org x h = ground (arith, find_event-append e ys org x)

stored-append :
    (rows : List OutboxRow) (events : List (String × Envelope)) (org : String) (x : Envelope)
    → All (λ r. is_some (find_event r.event_id events) ≡ true) rows
    → All
        (λ r. is_some (find_event r.event_id (events ++ ((org, x) ∷ []))) ≡ true)
        (rows
          ++ (record { event_id = x.event_id; status = pending; attempts = 0; last_error = none }
              ∷ []))
stored-append [] events org x h =
    (find_event-append x.event_id events org x (inr ((eq_iff x.event_id x.event_id).1 refl)), tt)
stored-append (r ∷ rs) events org x (h, hs) =
    (find_event-append r.event_id events org x (inl h), stored-append rs events org x hs)

-- A row of the event is in the outbox.
unfoldable pub has_row : (event_id : String) → List OutboxRow → Bool
has_row e [] = false
has_row e (x ∷ xs) = str_eq e x.event_id || has_row e xs

awaits-append :
    (x : Envelope) (rows : List OutboxRow)
    → has_row x.event_id rows ≡ false
    → awaits x.event_id (
        rows
        ++ (record { event_id = x.event_id; status = pending; attempts = 0; last_error = none }
            ∷ []))
      ≡ true
unfolding awaits has_row
awaits-append x [] h = rw ((eq_iff x.event_id x.event_id).1 refl) refl
awaits-append x (r ∷ rs) h = ground (arith, awaits-append x rs)

-- An event that is enqueued under a new id waits in the outbox from then on, and can be recovered:
-- every waiting row still has its event.
pub enqueue-awaits :
    (fresh : String) (now : ℕ) (input : OutboxEventInput) (t : Tables)
    → IsStored t
    → has_row (envelope_of fresh now input).event_id t.event_outbox ≡ false
    → let r = enqueue fresh now input t in
      IsStored r.0 × (awaits r.1.event_id r.0.event_outbox ≡ true)
unfolding enqueue
enqueue-awaits fresh now input t stored new = (
  stored-append t.event_outbox t.domain_events input.org_id (envelope_of fresh now input) stored,
  awaits-append (envelope_of fresh now input) t.event_outbox new,
)
