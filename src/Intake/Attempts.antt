-- ===== src/Intake/Attempts.antt =====
-- modules/integrations/inbound-webhook-queue.service.ts: how the attempts of the consumer at one delivery end.
use Prim.Native.String.{String}
use text.Mathlib.Text.{◌==◌ as str_eq}
use cadena.Prelude.{
  ℕ, ◌+◌, ◌≡◌, ◌∙◌, sym, ap, refl, true, false, Bool-cases, Option, none, some, List, [], ◌∷◌, inl,
  inr, arith, Option-cases, leb, length, if◌then◌else◌,
}
use cadena.Intake.{
  Delivery, DeliveryStatus, queued, completed, failed, find_by_id, update_by_id, is_claimable, take,
  claim_delivery, keep_body, Handling, throws, completes_and_throws, succeeds, handle, thrown,
  process_event, max_processing_attempts,
}

-- The attempts of the consumer: the next follows where one throws.
unfoldable pub attempt_all :
    (now : ℕ)
    → (id : String) → (body : Option String) → List Handling
    → List Delivery
    → List Delivery
attempt_all now id body [] rows = rows
attempt_all now id body (h ∷ hs) rows =
    let next = (process_event now id body h rows).1 in
    let retried = attempt_all now id body hs next in
    elim (process_event now id body h rows).0 [ none ↦ next | some message ↦ retried ]

abbrev pub end_status : List Handling → DeliveryStatus
end_status [] = failed
end_status (throws m ∷ hs) = end_status hs
end_status (completes_and_throws res m ∷ hs) = end_status hs
end_status (succeeds res ∷ hs) = completed

-- The message of the last attempt, where none succeeds.
abbrev pub end_error : (before : Option String) → List Handling → Option String
end_error before [] = before
end_error before (throws m ∷ hs) = end_error (some m) hs
end_error before (completes_and_throws res m ∷ hs) = end_error (some m) hs
end_error before (succeeds res ∷ hs) = none

abbrev pub end_result : (before : Option String) → List Handling → Option String
end_result before [] = before
end_result before (throws m ∷ hs) = end_result before hs
end_result before (completes_and_throws res m ∷ hs) = end_result (some res) hs
end_result before (succeeds res ∷ hs) = some res

-- One attempt, on the row.
abbrev attempt : (now : ℕ) → (body : Option String) → Handling → Delivery → Delivery
attempt now body h r = handle now (r.attempts + 1) h (keep_body body (take now r))

pub find_by_id-here :
    (id : String) (r : Delivery) (rows : List Delivery)
    → str_eq r.id id ≡ true
    → find_by_id id (r ∷ rows) ≡ some r
unfolding find_by_id
find_by_id-here id r rows h = rw (find_by_id, h) refl

pub find_by_id-update :
    (id : String) (f : Delivery → Delivery) (rows : List Delivery) (r : Delivery)
    → ((q : Delivery) → (f q).id ≡ q.id)
    → find_by_id id rows ≡ some r
    → find_by_id id (update_by_id id f rows) ≡ some (f r)
unfolding find_by_id update_by_id
find_by_id-update id f [] r h e = cc
find_by_id-update id f (x ∷ rows) r h e = elim (Bool-cases (str_eq x.id id)) [
  | inl y ↦
      let z : x ≡ r = ground (arith, y, e) in
      rw y (find_by_id-here id (f x) (update_by_id id f rows) (ap (λ i. str_eq i id) (h x) ∙ y))
      ∙ ap (λ q. some (f q)) z
  | inr n ↦ rw (n, n) (find_by_id-update id f rows r h (rw n at e))
]

handle-id : (now attempts : ℕ) (h : Handling) (r : Delivery) → (handle now attempts h r).id ≡ r.id
handle-id now attempts (throws m) r = ground arith
handle-id now attempts (completes_and_throws res m) r = ground arith
handle-id now attempts (succeeds res) r = refl

keep_body-id : (body : Option String) (r : Delivery) → (keep_body body r).id ≡ r.id
keep_body-id none r = refl
keep_body-id (some b) r = refl

claim_delivery-takes :
    (now : ℕ) (id : String) (rows : List Delivery) (r : Delivery)
    → find_by_id id rows ≡ some r
    → is_claimable r.status ≡ true
    → claim_delivery now id rows ≡ (some (take now r), update_by_id id (take now) rows)
unfolding claim_delivery
claim_delivery-takes now id rows r e c = rw (claim_delivery, e, c) refl

process_event-claimed :
    (now : ℕ) (id : String) (body : Option String) (h : Handling) (rows : List Delivery)
    (r : Delivery)
    → str_eq id "" ≡ false
    → (claim_delivery now id rows).0 ≡ some r
    → process_event now id body h rows ≡ (
      thrown h,
      update_by_id id
          (handle now r.attempts h)
          (update_by_id id (keep_body body) (claim_delivery now id rows).1),
    )
unfolding process_event
process_event-claimed now id body h rows r named e = rw (process_event, named, e) refl

process_event-row :
    (now : ℕ) (id : String) (body : Option String) (h : Handling) (rows : List Delivery)
    (r : Delivery)
    → str_eq id "" ≡ false
    → find_by_id id rows ≡ some r
    → is_claimable r.status ≡ true
    → ((process_event now id body h rows).0 ≡ thrown h)
      × (find_by_id id (process_event now id body h rows).1 ≡ some (attempt now body h r))
process_event-row now id body h rows r named e c =
    let taken = claim_delivery-takes now id rows r e c in
    let done = process_event-claimed now id body h rows (take now r) named (ap (λ x. x.0) taken) in
    let f = handle now (r.attempts + 1) h in
    let first = update_by_id id (take now) rows in
    let there =
      find_by_id-update id f (update_by_id id (keep_body body) first) (keep_body body (take now r))
        (handle-id now (r.attempts + 1) h)
        (find_by_id-update id (keep_body body) first (take now r) (keep_body-id body)
          (find_by_id-update id (take now) rows r (λ q. refl) e)) in
    (
      ap (λ x. x.0) done,
      ap (λ x. find_by_id id x.1) done
          ∙ (ap (λ x. find_by_id id (update_by_id id f (update_by_id id (keep_body body) x.1)))
                taken
              ∙ there),
    )

-- The row after an attempt that throws.
abbrev IsThrown : (before q : Delivery) → Handling → Type 0
IsThrown r q h =
    (q.attempts ≡ r.attempts + 1)
    × (q.status ≡ (if leb max_processing_attempts (r.attempts + 1) then failed else queued))
    × (q.error ≡ end_error r.error (h ∷ []))
    × (q.result ≡ end_result r.result (h ∷ []))

keep_body-attempts :
    (body : Option String) (r : Delivery) → (keep_body body r).attempts ≡ r.attempts
keep_body-attempts none r = refl
keep_body-attempts (some b) r = refl

keep_body-result : (body : Option String) (r : Delivery) → (keep_body body r).result ≡ r.result
keep_body-result none r = refl
keep_body-result (some b) r = refl

attempt-thrown :
    (now : ℕ) (body : Option String) (h : Handling) (r : Delivery) (m : String)
    → thrown h ≡ some m
    → IsThrown r (attempt now body h r) h
attempt-thrown now body (throws m) r n t =
    let a = keep_body-attempts body (take now r) in
    let b = keep_body-result body (take now r) in
    elim (Bool-cases (leb max_processing_attempts (r.attempts + 1))) [
      | inl y ↦ rw y (a, refl, refl, b)
      | inr y ↦ rw y (a, refl, refl, b)
    ]
attempt-thrown now body (completes_and_throws res m) r n t =
    let a = keep_body-attempts body (take now r) in
    elim (Bool-cases (leb max_processing_attempts (r.attempts + 1))) [
      | inl y ↦ rw y (a, refl, refl, refl)
      | inr y ↦ rw y (a, refl, refl, refl)
    ]
attempt-thrown now body (succeeds res) r n t = cc

-- What an attempt that throws leaves to the ones after it.
end-step :
    (h : Handling) (hs : List Handling) (m : String) (error result : Option String)
    → thrown h ≡ some m
    → (end_status (h ∷ hs) ≡ end_status hs)
      × (end_error error (h ∷ hs) ≡ end_error (end_error error (h ∷ [])) hs)
      × (end_result result (h ∷ hs) ≡ end_result (end_result result (h ∷ [])) hs)
end-step (throws m) hs n error result t = (refl, refl, refl)
end-step (completes_and_throws res m) hs n error result t = (refl, refl, refl)
end-step (succeeds res) hs n error result t = cc

attempt_all-thrown :
    (now : ℕ) (id : String) (body : Option String) (h : Handling) (hs : List Handling)
    (rows : List Delivery) (m : String)
    → (process_event now id body h rows).0 ≡ some m
    → attempt_all now id body (h ∷ hs) rows
      ≡ attempt_all now id body hs (process_event now id body h rows).1
unfolding attempt_all
attempt_all-thrown now id body h hs rows m e = rw (attempt_all, e) refl

attempt_all-done :
    (now : ℕ) (id : String) (body : Option String) (h : Handling) (hs : List Handling)
    (rows : List Delivery)
    → (process_event now id body h rows).0 ≡ none
    → attempt_all now id body (h ∷ hs) rows ≡ (process_event now id body h rows).1
unfolding attempt_all
attempt_all-done now id body h hs rows e = rw (attempt_all, e) refl

-- How a delivery ends that was as `r` before the attempts.
abbrev pub HasEnded : (id : String) → List Handling → (r : Delivery) → List Delivery → Type 0
HasEnded id hs r rows =
    (q : Delivery) × (find_by_id id rows ≡ some q)
    × (q.status ≡ end_status hs)
    × (q.error ≡ end_error r.error hs)
    × (q.result ≡ end_result r.result hs)

ends_done :
    (now : ℕ) (id : String) (body : Option String) (h : Handling) (hs : List Handling)
    (rows : List Delivery) (r : Delivery)
    → thrown h ≡ none
    → ((process_event now id body h rows).0 ≡ thrown h)
      × (find_by_id id (process_event now id body h rows).1 ≡ some (attempt now body h r))
    → HasEnded id (h ∷ hs) r (attempt_all now id body (h ∷ hs) rows)
ends_done now id body (throws m) hs rows r y p = cc
ends_done now id body (completes_and_throws res m) hs rows r y p = cc
ends_done now id body (succeeds res) hs rows r y (t, f) = (
  attempt now body (succeeds res) r,
  ap (find_by_id id) (attempt_all-done now id body (succeeds res) hs rows t) ∙ f,
  refl,
  refl,
  refl,
)

-- A delivery with attempts left, as many as there are, ends completed if one of them succeeds, with the
-- result of the first that does and no error; otherwise it ends failed, with the message of the last.
-- An attempt whose result was stored before it threw counts as one that threw.
pub attempt_all-HasEnded :
    (now : ℕ) (id : String) (body : Option String) (h : Handling) (hs : List Handling)
    (rows : List Delivery) (r : Delivery)
    → str_eq id "" ≡ false
    → find_by_id id rows ≡ some r
    → is_claimable r.status ≡ true
    → r.attempts + length (h ∷ hs) ≡ max_processing_attempts
    → HasEnded id (h ∷ hs) r (attempt_all now id body (h ∷ hs) rows)
unfolding attempt_all
attempt_all-HasEnded now id body h [] rows r named e c n =
    let (t, f) = process_event-row now id body h rows r named e c in
    elim (Option-cases (thrown h)) [
      | inl y ↦ ends_done now id body h [] rows r y (t, f)
      | inr (m, y) ↦
          let (_, status, error, result) = attempt-thrown now body h r m y in
          let (s, _, _) = end-step h [] m none none y in
          let last : leb max_processing_attempts (r.attempts + 1) ≡ true = ground arith in
          (
            attempt now body h r,
            ap (find_by_id id) (attempt_all-thrown now id body h [] rows m (t ∙ y)) ∙ f,
            status ∙ (ap (λ b. if b then failed else queued) last ∙ sym s),
            error,
            result,
          )
    ]
attempt_all-HasEnded now id body h (k ∷ ks) rows r named e c n =
    let (t, f) = process_event-row now id body h rows r named e c in
    elim (Option-cases (thrown h)) [
      | inl y ↦ ends_done now id body h (k ∷ ks) rows r y (t, f)
      | inr (m, y) ↦
          let (count, status, error, result) = attempt-thrown now body h r m y in
          let (s, u, v) = end-step h (k ∷ ks) m r.error r.result y in
          let next = (process_event now id body h rows).1 in
          let early : leb max_processing_attempts (r.attempts + 1) ≡ false = ground arith in
          let (q, found, ended, with_error, with_result) =
            attempt_all-HasEnded now id body k ks next (attempt now body h r) named f
              (ap is_claimable (status ∙ ap (λ b. if b then failed else queued) early))
              (omega (arith, count, n)) in
          (
            q,
            ap (find_by_id id) (attempt_all-thrown now id body h (k ∷ ks) rows m (t ∙ y)) ∙ found,
            ended ∙ sym s,
            with_error ∙ (ap (λ x. end_error x (k ∷ ks)) error ∙ sym u),
            with_result ∙ (ap (λ x. end_result x (k ∷ ks)) result ∙ sym v),
          )
    ]
