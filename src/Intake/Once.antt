-- ===== src/Intake/Once.antt =====
-- modules/integrations/inbound-webhook-queue.service.ts: the statements of any number of requests and workers,
-- and what a delivery that is sent again does.
use Prim.Native.String.{String}
use text.Mathlib.Text.{◌==◌ as str_eq}
use text.Mathlib.TextEquality.{eq_iff}
use cadena.Prelude.{
  ℕ, ◌≡◌, ◌⊎◌, ◌∙◌, sym, ap, leb, Option-cases, refl, true, false, Bool-cases, Option, none, some,
  List, [], ◌∷◌, ◌++◌, inl, inr, arith,
}
use cadena.Intake.{
  max_processing_attempts, Delivery, EnqueueInput, Tables, is_key, find_delivery, new_delivery,
  enqueue, find_by_id, update_by_id, is_claimable, take, claim_delivery, keep_body, complete, fail,
  put_back, requeue, recover, queued, is_processing,
}

-- A statement: a request, a worker's claim and its later UPDATEs, or the start of the service.
pub data Op : Type 0 where
  enqueues : (record_id : String) → EnqueueInput → Op
  claims : (now : ℕ) → (id : String) → Op
  keeps : (id body : String) → Op
  finishes : (now : ℕ) → (id result : String) → Op
  gives_up : (now : ℕ) → (id message : String) → Op
  puts_back : (now attempts : ℕ) → (id message : String) → Op
  starts : Op

abbrev on_deliveries : (List Delivery → List Delivery) → Tables → Tables
on_deliveries f t = record t { deliveries = f t.deliveries }

unfoldable pub apply : Op → Tables → Tables
apply (enqueues record_id i) t = (enqueue record_id i t).1
apply (claims now id) t = on_deliveries (λ rows. (claim_delivery now id rows).1) t
apply (keeps id body) t = on_deliveries (update_by_id id (keep_body (some body))) t
apply (finishes now id res) t = on_deliveries (update_by_id id (complete now res)) t
apply (gives_up now id message) t = on_deliveries (update_by_id id (fail now message)) t
apply (puts_back now attempts id message) t =
    on_deliveries (update_by_id id (put_back now attempts message)) t
apply starts t = on_deliveries recover t

unfoldable pub apply_all : List Op → Tables → Tables
apply_all [] t = t
apply_all (op ∷ ops) t = apply_all ops (apply op t)

-- What is kept of a row: its key and its id.
pub record SameDelivery (r q : Delivery) : Type 0 where
  pub id : q.id ≡ r.id
  pub org_id : q.org_id ≡ r.org_id
  pub provider : q.provider ≡ r.provider
  pub delivery_id : q.delivery_id ≡ r.delivery_id

same : (r : Delivery) → SameDelivery r r
same r = record { id = refl; org_id = refl; provider = refl; delivery_id = refl }

str_eq_refl : (s : String) → str_eq s s ≡ true
str_eq_refl s = (eq_iff s s).1 refl

pub enqueue-new :
    (record_id : String) (i : EnqueueInput) (t : Tables)
    → find_delivery i.org_id i.provider i.delivery_id t.deliveries ≡ none
    → enqueue record_id i t ≡ (
      record { duplicate = false; status = queued },
      record {
        deliveries = t.deliveries ++ new_delivery record_id i ∷ [];
        events = t.events ++ (record_id, i.body) ∷ [];
      },
    )
unfolding enqueue
enqueue-new record_id i t e = rw (enqueue, e) refl

pub enqueue-known :
    (record_id : String) (i : EnqueueInput) (t : Tables) (r : Delivery)
    → find_delivery i.org_id i.provider i.delivery_id t.deliveries ≡ some r
    → enqueue record_id i t ≡ (record { duplicate = true; status = r.status }, t)
unfolding enqueue
enqueue-known record_id i t r e = rw (enqueue, e) refl

-- A claim changes the rows of its id, or none.
pub claim-changes :
    (now : ℕ) (id : String) (rows : List Delivery)
    → ((claim_delivery now id rows).1 ≡ rows)
      ⊎ ((claim_delivery now id rows).1 ≡ update_by_id id (take now) rows)
unfolding claim_delivery
claim-changes now id rows = elim (Option-cases (find_by_id id rows)) [
  | inl n ↦ inl (rw (claim_delivery, n) refl)
  | inr (r, e) ↦ elim (Bool-cases (is_claimable r.status)) [
    | inl y ↦ inr (rw (claim_delivery, e, y) refl)
    | inr n ↦ inl (rw (claim_delivery, e, n) refl)
  ]
]

pub take-same : (now : ℕ) (r : Delivery) → SameDelivery r (take now r)
take-same now r = record { id = refl; org_id = refl; provider = refl; delivery_id = refl }

pub keep_body-same : (body : String) (r : Delivery) → SameDelivery r (keep_body (some body) r)
keep_body-same body r = record { id = refl; org_id = refl; provider = refl; delivery_id = refl }

pub complete-same : (now : ℕ) (res : String) (r : Delivery) → SameDelivery r (complete now res r)
complete-same now res r = record { id = refl; org_id = refl; provider = refl; delivery_id = refl }

pub fail-same : (now : ℕ) (message : String) (r : Delivery) → SameDelivery r (fail now message r)
fail-same now message r = record { id = refl; org_id = refl; provider = refl; delivery_id = refl }

pub put_back-same :
    (now attempts : ℕ) (message : String) (r : Delivery)
    → SameDelivery r (put_back now attempts message r)
put_back-same now attempts message r = elim (Bool-cases (leb max_processing_attempts attempts)) [
  | inl y ↦ rw y (record { id = refl; org_id = refl; provider = refl; delivery_id = refl })
  | inr n ↦ rw n (record { id = refl; org_id = refl; provider = refl; delivery_id = refl })
]

pub requeue-same : (r : Delivery) → SameDelivery r (requeue r)
requeue-same r = elim (Bool-cases (is_processing r.status)) [
  | inl y ↦ rw y (record { id = refl; org_id = refl; provider = refl; delivery_id = refl })
  | inr n ↦ rw n (record { id = refl; org_id = refl; provider = refl; delivery_id = refl })
]

module _ (org provider delivery : String) where
  -- The id of the row that a key stands for.
  abbrev pub found_id : List Delivery → Option String
  found_id rows = elim (find_delivery org provider delivery rows) [
    | none ↦ none
    | some r ↦ some r.id
  ]

  found_id-here :
      (r : Delivery) (rs : List Delivery)
      → is_key org provider delivery r ≡ true
      → found_id (r ∷ rs) ≡ some r.id
  unfolding find_delivery
  found_id-here r rs h = rw (found_id, h) refl

  found_id-there :
      (r : Delivery) (rs : List Delivery)
      → is_key org provider delivery r ≡ false
      → found_id (r ∷ rs) ≡ found_id rs
  unfolding find_delivery
  found_id-there r rs h = rw (found_id, h) refl

  is_key-same :
      (r q : Delivery)
      → SameDelivery r q
      → is_key org provider delivery q ≡ is_key org provider delivery r
  is_key-same r q s = let a = s.org_id in let b = s.provider in let c = s.delivery_id in cc

  found_id-cons :
      (r q : Delivery) (rs qs : List Delivery)
      → SameDelivery r q
      → found_id qs ≡ found_id rs
      → found_id (q ∷ qs) ≡ found_id (r ∷ rs)
  found_id-cons r q rs qs s h = elim (Bool-cases (is_key org provider delivery r)) [
    | inl y ↦
        found_id-here q qs (is_key-same r q s ∙ y) ∙ (ap some s.id ∙ sym (found_id-here r rs y))
    | inr n ↦ found_id-there q qs (is_key-same r q s ∙ n) ∙ (h ∙ sym (found_id-there r rs n))
  ]

  found_id-update :
      (id : String) (f : Delivery → Delivery) (rows : List Delivery)
      → ((r : Delivery) → SameDelivery r (f r))
      → found_id (update_by_id id f rows) ≡ found_id rows
  unfolding update_by_id
  found_id-update id f [] h = refl
  found_id-update id f (r ∷ rs) h = elim (Bool-cases (str_eq r.id id)) [
    | inl y ↦
        rw y (found_id-cons r (f r) rs (update_by_id id f rs) (h r) (found_id-update id f rs h))
    | inr n ↦
        rw n (found_id-cons r r rs (update_by_id id f rs) (same r) (found_id-update id f rs h))
  ]

  found_id-recover : (rows : List Delivery) → found_id (recover rows) ≡ found_id rows
  unfolding recover
  found_id-recover [] = refl
  found_id-recover (r ∷ rs) =
      found_id-cons r (requeue r) rs (recover rs) (requeue-same r) (found_id-recover rs)

  found_id-append :
      (rows qs : List Delivery) (i : String)
      → found_id rows ≡ some i
      → found_id (rows ++ qs) ≡ some i
  unfolding find_delivery
  found_id-append [] qs i h = cc
  found_id-append (r ∷ rs) qs i h = elim (Bool-cases (is_key org provider delivery r)) [
    | inl y ↦ found_id-here r (rs ++ qs) y ∙ (sym (found_id-here r rs y) ∙ h)
    | inr n ↦
        found_id-there r (rs ++ qs) n ∙ found_id-append rs qs i (sym (found_id-there r rs n) ∙ h)
  ]

  found_id-claim :
      (now : ℕ) (id : String) (rows : List Delivery)
      → found_id (claim_delivery now id rows).1 ≡ found_id rows
  found_id-claim now id rows = elim (claim-changes now id rows) [
    | inl e ↦ ap found_id e
    | inr e ↦ ap found_id e ∙ found_id-update id (take now) rows (take-same now)
  ]

  found_id-apply :
      (op : Op) (t : Tables) (i : String)
      → found_id t.deliveries ≡ some i
      → found_id (apply op t).deliveries ≡ some i
  unfolding apply
  found_id-apply (enqueues record_id x) t i h =
      elim (Option-cases (find_delivery x.org_id x.provider x.delivery_id t.deliveries)) [
        | inl n ↦
            ap (λ x. found_id x.1.deliveries) (enqueue-new record_id x t n)
            ∙ found_id-append t.deliveries (new_delivery record_id x ∷ []) i h
        | inr (r, e) ↦ ap (λ x. found_id x.1.deliveries) (enqueue-known record_id x t r e) ∙ h
      ]
  found_id-apply (claims now id) t i h = found_id-claim now id t.deliveries ∙ h
  found_id-apply (keeps id body) t i h =
      found_id-update id (keep_body (some body)) t.deliveries (keep_body-same body) ∙ h
  found_id-apply (finishes now id res) t i h =
      found_id-update id (complete now res) t.deliveries (complete-same now res) ∙ h
  found_id-apply (gives_up now id message) t i h =
      found_id-update id (fail now message) t.deliveries (fail-same now message) ∙ h
  found_id-apply (puts_back now attempts id message) t i h =
      found_id-update id (put_back now attempts message) t.deliveries
        (put_back-same now attempts message)
      ∙ h
  found_id-apply starts t i h = found_id-recover t.deliveries ∙ h

  found_id-apply_all :
      (ops : List Op) (t : Tables) (i : String)
      → found_id t.deliveries ≡ some i
      → found_id (apply_all ops t).deliveries ≡ some i
  unfolding apply_all
  found_id-apply_all [] t i h = h
  found_id-apply_all (op ∷ ops) t i h =
      found_id-apply_all ops (apply op t) i (found_id-apply op t i h)

abbrev pub id_of : EnqueueInput → List Delivery → Option String
id_of i = found_id i.org_id i.provider i.delivery_id

new_is_key :
    (record_id : String) (i : EnqueueInput)
    → is_key i.org_id i.provider i.delivery_id (new_delivery record_id i) ≡ true
new_is_key record_id i =
    rw (str_eq_refl i.org_id, str_eq_refl i.provider, str_eq_refl i.delivery_id) refl

id_of-new :
    (record_id : String) (i : EnqueueInput) (rows : List Delivery)
    → find_delivery i.org_id i.provider i.delivery_id rows ≡ none
    → id_of i (rows ++ new_delivery record_id i ∷ []) ≡ some record_id
unfolding find_delivery
id_of-new record_id i [] h =
    found_id-here i.org_id i.provider i.delivery_id (new_delivery record_id i) []
      (new_is_key record_id i)
id_of-new record_id i (r ∷ rs) h = elim (Bool-cases (is_key i.org_id i.provider i.delivery_id r)) [
  | inl y ↦ ground (arith, y)
  | inr n ↦
      found_id-there i.org_id i.provider i.delivery_id r (rs ++ new_delivery record_id i ∷ []) n
      ∙ id_of-new record_id i rs (rw n at h)
]

known :
    (second first body : String) (i : EnqueueInput) (t : Tables)
    → id_of i t.deliveries ≡ some first
    → (r : Delivery) × (find_delivery i.org_id i.provider i.delivery_id t.deliveries ≡ some r)
      × (r.id ≡ first)
      × (enqueue second (record i { body = body }) t
          ≡ (record { duplicate = true; status = r.status }, t))
known second first body i t h =
    elim (Option-cases (find_delivery i.org_id i.provider i.delivery_id t.deliveries)) [
      | inl n ↦ cc
      | inr (r, e) ↦
          (r, e, ground (arith, h, e), enqueue-known second (record i { body = body }) t r e)
    ]

-- Once a delivery that was not known is accepted, then whatever statements follow, the same delivery
-- that is sent again, with whatever body, is told that it is a duplicate and the status of the
-- one row, which still has its id, and it changes neither table.
pub enqueue-again :
    (first second body : String) (i : EnqueueInput) (t : Tables) (ops : List Op)
    → (enqueue first i t).0.duplicate ≡ false
    → let later = apply_all ops (enqueue first i t).1 in
      (r : Delivery) × (find_delivery i.org_id i.provider i.delivery_id later.deliveries ≡ some r)
      × (r.id ≡ first)
      × (enqueue second (record i { body = body }) later
          ≡ (record { duplicate = true; status = r.status }, later))
enqueue-again first second body i t ops h =
    elim (Option-cases (find_delivery i.org_id i.provider i.delivery_id t.deliveries)) [
      | inl n ↦ known second first body i (apply_all ops (enqueue first i t).1) (
          found_id-apply_all i.org_id i.provider i.delivery_id ops (enqueue first i t).1 first (
            ap (λ x. id_of i x.1.deliveries) (enqueue-new first i t n)
            ∙ id_of-new first i t.deliveries n))
      | inr (r, e) ↦
          let wrong : true ≡ false =
            sym (ap (λ x. x.0.duplicate) (enqueue-known first i t r e)) ∙ h in
          cc
    ]
