-- ===== src/Intake/Final.antt =====
-- modules/integrations/inbound-webhook-queue.service.ts: a delivery that is completed stays completed.
use Prim.Native.String.{String}
use text.Mathlib.Text.{◌==◌ as str_eq}
use text.Mathlib.TextEquality.{eq_iff}
use cadena.Prelude.{
  ℕ, ◌≡◌, ◌∙◌, ap, refl, Bool, false, Bool-cases, Option-cases, Option, none, some, List, [], ◌∷◌,
  ◌++◌, inl, inr, arith, All,
}
use cadena.Intake.{
  Delivery, Tables, completed, find_by_id, update_by_id, find_delivery, new_delivery, is_claimable,
  is_processing, take, claim_delivery, keep_body, complete, fail, put_back, requeue, recover,
  Handling, process_event,
}
use cadena.Intake.Once.{
  Op, enqueues, claims, keeps, finishes, gives_up, puts_back, starts, apply, apply_all,
  claim-changes, enqueue-new, enqueue-known, SameDelivery, take-same, keep_body-same, complete-same,
  fail-same, put_back-same, requeue-same,
}
use cadena.Intake.Attempts.{find_by_id-update, find_by_id-here}

-- The statements that record an error for a row.
abbrev pub records_error : (id : String) → Op → Bool
records_error id (gives_up now j message) = str_eq j id
records_error id (puts_back now attempts j message) = str_eq j id
records_error id _ = false

abbrev pub IsCompleted : (id : String) → List Delivery → Type 0
IsCompleted id rows = (r : Delivery) × (find_by_id id rows ≡ some r) × (r.status ≡ completed)

find_by_id-other :
    (id j : String) (f : Delivery → Delivery) (rows : List Delivery)
    → ((r : Delivery) → SameDelivery r (f r))
    → str_eq j id ≡ false
    → find_by_id id (update_by_id j f rows) ≡ find_by_id id rows
unfolding find_by_id update_by_id
find_by_id-other id j f [] s h = refl
find_by_id-other id j f (r ∷ rows) s h =
    let same_id = (s r).id in
    ground (
      arith,
      find_by_id-other id j f rows s h,
      eq_iff r.id j,
      eq_iff r.id id,
      eq_iff (f r).id id,
      eq_iff j id,
      same_id,
    )

find_by_id-append :
    (id : String) (rows qs : List Delivery) (r : Delivery)
    → find_by_id id rows ≡ some r
    → find_by_id id (rows ++ qs) ≡ some r
unfolding find_by_id
find_by_id-append id [] qs r h = cc
find_by_id-append id (x ∷ rows) qs r h = ground (arith, find_by_id-append id rows qs r, h)

requeue-completed : (r : Delivery) → r.status ≡ completed → requeue r ≡ r
requeue-completed r c = rw (ap is_processing c) refl

find_by_id-recover :
    (id : String) (rows : List Delivery) → IsCompleted id rows → IsCompleted id (recover rows)
unfolding find_by_id recover
find_by_id-recover id [] (r, e, c) = cc
find_by_id-recover id (x ∷ rows) (r, e, c) = elim (Bool-cases (str_eq x.id id)) [
  | inl y ↦
      let z : x ≡ r = ground (arith, y, e) in
      let done = ap (λ q. q.status) z ∙ c in
      (
        x,
        find_by_id-here id (requeue x) (recover rows)
              (ap (λ i. str_eq i id) (requeue-same x).id ∙ y)
            ∙ ap some (requeue-completed x done),
        done,
      )
  | inr n ↦
      let (q, f, d) = find_by_id-recover id rows (r, rw n at e, c) in
      (q, ground (arith, f, n, (requeue-same x).id), d)
]

updated :
    (id j : String) (f : Delivery → Delivery) (rows : List Delivery)
    → ((r : Delivery) → SameDelivery r (f r))
    → ((r : Delivery) → r.status ≡ completed → (f r).status ≡ completed)
    → IsCompleted id rows
    → IsCompleted id (update_by_id j f rows)
updated id j f rows s k (r, e, c) = elim (Bool-cases (str_eq j id)) [
  | inl y ↦ (
    f r,
    ap (λ i. find_by_id id (update_by_id i f rows)) ((eq_iff j id).0 y)
        ∙ find_by_id-update id f rows r (λ q. (s q).id) e,
    k r c,
  )
  | inr n ↦ (r, find_by_id-other id j f rows s n ∙ e, c)
]

claim-completed :
    (now : ℕ) (id : String) (rows : List Delivery)
    → IsCompleted id rows
    → claim_delivery now id rows ≡ (none, rows)
unfolding claim_delivery
claim-completed now id rows (r, e, c) = rw (claim_delivery, e, ap is_claimable c) refl

apply-IsCompleted :
    (id : String) (op : Op) (t : Tables)
    → records_error id op ≡ false
    → IsCompleted id t.deliveries
    → IsCompleted id (apply op t).deliveries
unfolding apply
apply-IsCompleted id (enqueues record_id i) t h (r, e, c) =
    elim (Option-cases (find_delivery i.org_id i.provider i.delivery_id t.deliveries)) [
      | inl n ↦ (
        r,
        ap (λ x. find_by_id id x.1.deliveries) (enqueue-new record_id i t n)
            ∙ find_by_id-append id t.deliveries (new_delivery record_id i ∷ []) r e,
        c,
      )
      | inr (q, known) ↦
          (r, ap (λ x. find_by_id id x.1.deliveries) (enqueue-known record_id i t q known) ∙ e, c)
    ]
apply-IsCompleted id (claims now j) t h (r, e, c) = elim (Bool-cases (str_eq j id)) [
  | inl y ↦ (
    r,
    ap (λ i. find_by_id id (claim_delivery now i t.deliveries).1) ((eq_iff j id).0 y)
        ∙ (ap (λ x. find_by_id id x.1) (claim-completed now id t.deliveries (r, e, c)) ∙ e),
    c,
  )
  | inr n ↦ elim (claim-changes now j t.deliveries) [
    | inl kept ↦ (r, ap (find_by_id id) kept ∙ e, c)
    | inr taken ↦ (
      r,
      ap (find_by_id id) taken
          ∙ (find_by_id-other id j (take now) t.deliveries (take-same now) n ∙ e),
      c,
    )
  ]
]
apply-IsCompleted id (keeps j body) t h d =
    updated id j (keep_body (some body)) t.deliveries (keep_body-same body) (λ r c. c) d
apply-IsCompleted id (finishes now j res) t h d =
    updated id j (complete now res) t.deliveries (complete-same now res) (λ r c. refl) d
apply-IsCompleted id (gives_up now j message) t h (r, e, c) =
    (r, find_by_id-other id j (fail now message) t.deliveries (fail-same now message) h ∙ e, c)
apply-IsCompleted id (puts_back now attempts j message) t h (r, e, c) = (
  r,
  find_by_id-other id j (put_back now attempts message) t.deliveries
        (put_back-same now attempts message) h
      ∙ e,
  c,
)
apply-IsCompleted id starts t h d = find_by_id-recover id t.deliveries d

apply_all-IsCompleted :
    (id : String) (ops : List Op) (t : Tables)
    → All (λ op. records_error id op ≡ false) ops
    → IsCompleted id t.deliveries
    → IsCompleted id (apply_all ops t).deliveries
unfolding apply_all
apply_all-IsCompleted id [] t hs d = d
apply_all-IsCompleted id (op ∷ ops) t (h, hs) d =
    apply_all-IsCompleted id ops (apply op t) hs (apply-IsCompleted id op t h d)

-- A completed delivery stays completed whatever statements follow, those of a new start included, as long
-- as none of them records an error for it; an event of it that is delivered again is then not
-- handled: nothing is thrown and no row changes.
pub process_event-again :
    (now : ℕ) (id : String) (body : Option String) (h : Handling) (ops : List Op) (t : Tables)
    → str_eq id "" ≡ false
    → IsCompleted id t.deliveries
    → All (λ op. records_error id op ≡ false) ops
    → IsCompleted id (apply_all ops t).deliveries
      × (process_event now id body h (apply_all ops t).deliveries
          ≡ (none, (apply_all ops t).deliveries))
unfolding process_event
process_event-again now id body h ops t named d hs =
    let later = apply_all-IsCompleted id ops t hs d in
    (
      later,
      rw (process_event, named, claim-completed now id (apply_all ops t).deliveries later) refl,
    )
