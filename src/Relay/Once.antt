-- ===== src/Relay/Once.antt =====
-- modules/connectors/relay/connector-relay.service.ts: what `request` puts on the queue.
use Prim.Native.String.{String}
use text.Mathlib.Text.{◌==◌ as str_eq}
use text.Mathlib.TextEquality.{eq_iff}
use cadena.Prelude.{
  ◌≡◌, ◌⊎◌, refl, true, false, not, Option, none, some, List, [], ◌∷◌, ◌++◌, ◌&&◌, if◌then◌else◌,
  arith, Bool-cases, Option-cases, inl, inr, ◌||◌,
}
use cadena.Prelude.Text.{Text, text_eq_refl}
use cadena.Relay.{Row, pending, update_rows}
use cadena.Relay.Request.{
  ConfigError, not_provisioned, outside_origin, request, insert_request, revive, find_key, has_key,
  Connector, HttpRequest, enqueue, assert_target, revive_failed, is_failed, new_row, ConfigError,
  not_provisioned, outside_origin,
}

find_key-insert :
    (q : Row) (rows : List Row)
    → find_key q.relay_id q.idempotency_key rows ≡ none
    → find_key q.relay_id q.idempotency_key (rows ++ q ∷ []) ≡ some q
unfolding find_key
find_key-insert q [] e =
    ground (arith, eq_iff q.relay_id q.relay_id, text_eq_refl q.idempotency_key)
find_key-insert q (x ∷ rows) e = ground (arith, find_key-insert q rows)

-- The row of a key is there after an insert, and a second insert finds it.
insert_request-found :
    (q : Row) (rows : List Row)
    → (r : Row) × (find_key q.relay_id q.idempotency_key (insert_request q rows) ≡ some r)
unfolding insert_request
insert_request-found q rows = elim (Option-cases (find_key q.relay_id q.idempotency_key rows)) [
  | inl e ↦ (q, rw (insert_request, e) (find_key-insert q rows e))
  | inr (r, e) ↦ (r, rw (insert_request, e) e)
]

insert_request-again :
    (q : Row) (rows : List Row) (r : Row)
    → find_key q.relay_id q.idempotency_key rows ≡ some r
    → insert_request q rows ≡ rows
unfolding insert_request
insert_request-again q rows r e = rw (insert_request, e) refl

abbrev revived : (id : String) → Row → Row
revived id r =
    if str_eq r.id id && is_failed r.status
    then record r { status = pending; error_message = none }
    else r

revived_first :
    (id relay : String) (key : Text) (x r : Row) (rest : List Row)
    → has_key relay key x ≡ true
    → x ≡ r
    → find_key relay key (
        if str_eq x.id id && is_failed x.status
        then record x { status = pending; error_message = none } ∷ rest
        else x ∷ rest)
      ≡ some (revived id r)
unfolding find_key
revived_first id relay key x r rest h e = elim (Bool-cases (str_eq x.id id && is_failed x.status)) [
  | inl t ↦ rw (← e) (rw (t, h) refl)
  | inr t ↦ rw (← e) (rw (t, h) refl)
]

find_key-revive :
    (id relay : String) (key : Text) (rows : List Row) (r : Row)
    → find_key relay key rows ≡ some r
    → find_key relay key (revive id rows) ≡ some (revived id r)
unfolding find_key revive update_rows
find_key-revive id relay key [] r e = cc
find_key-revive id relay key (x ∷ rows) r e = elim (Bool-cases (has_key relay key x)) [
  | inl h ↦ let found : x ≡ r = ground arith in revived_first id relay key x r _ h found
  | inr h ↦ elim (Bool-cases (str_eq x.id id && is_failed x.status)) [
    | inl t ↦ rw (t, h) (find_key-revive id relay key rows r (rw h at e))
    | inr t ↦ rw (t, h) (find_key-revive id relay key rows r (rw h at e))
  ]
]

revived-not_failed : (r : Row) → is_failed (revived r.id r).status ≡ false
revived-not_failed r = ground (arith, eq_iff r.id r.id)

-- After the call the row of the key is there, and it has not failed.
revive_failed-found :
    (relay : String) (key : Text) (rows : List Row) (r : Row)
    → find_key relay key rows ≡ some r
    → (q : Row) × (find_key relay key (revive_failed (some r) rows) ≡ some q)
      × (is_failed q.status ≡ false)
revive_failed-found relay key rows r e = elim (Bool-cases (is_failed r.status)) [
  | inr f ↦ (r, rw f e, f)
  | inl f ↦ (
    revived r.id r,
    rw f (rw f at (find_key-revive r.id relay key rows r e)),
    revived-not_failed r,
  )
]

revive_failed-none :
    (r : Row) (rows : List Row) → is_failed r.status ≡ false → revive_failed (some r) rows ≡ rows
revive_failed-none r rows f = rw f refl

-- What an enqueued row leaves is left alone by enqueueing a row with its key.
enqueue-again :
    (q p : Row) (rows : List Row)
    → p.relay_id ≡ q.relay_id
    → p.idempotency_key ≡ q.idempotency_key
    → enqueue p (enqueue q rows) ≡ enqueue q rows
enqueue-again q p rows e k =
    let (r, found) = insert_request-found q rows in
    let (s, there, ok) =
      revive_failed-found q.relay_id q.idempotency_key (insert_request q rows) r found in
    let once : enqueue q rows ≡ revive_failed (some r) (insert_request q rows) = rw found refl in
    let same : find_key p.relay_id p.idempotency_key
          (revive_failed (some r) (insert_request q rows))
        ≡ some s =
      rw (e, k) there in
    let kept = insert_request-again p (revive_failed (some r) (insert_request q rows)) s same in
    rw once (rw (kept, same) (revive_failed-none s _ ok))

module _ (digest : Text → Text) (origin : Text → Option Text) where
  -- A call ends in an error that does not depend on the queue, or it enqueues its row.
  pub request-cases :
      (operation : String) (c : Connector) (url : Text) (init : HttpRequest)
      → ((why : ConfigError) × ((id : String) (rows : List Row)
            → request digest origin id operation c url init rows ≡ (some why, rows)))
        ⊎ ((relay : String) × ((id : String) (rows : List Row)
              → request digest origin id operation c url init rows
                ≡ (none, enqueue (new_row digest origin id relay operation c url init) rows)))
  unfolding request
  request-cases operation c url init = elim (Option-cases c.relay_id) [
    | inl n ↦ inl (not_provisioned, λ id rows. ground arith)
    | inr (relay, e) ↦ elim (Bool-cases (not c.relay_mode || str_eq relay "")) [
      | inl off ↦ inl (not_provisioned, λ id rows. ground arith)
      | inr on ↦ elim (Bool-cases (assert_target origin c url)) [
        | inr out ↦ inl (outside_origin, λ id rows. ground arith)
        | inl inside ↦ inr (relay, λ id rows. ground arith)
      ]
    ]
  ]

  -- A call is queued once: to make it again, with the same operation and whatever new random id,
  -- leaves the queue as the first call left it, and ends in the same error where it ends in one.
  pub request-again :
      (id other operation : String) (c : Connector) (url : Text) (init : HttpRequest)
      (rows : List Row)
      → request digest origin other operation c url init
          (request digest origin id operation c url init rows).1
        ≡ request digest origin id operation c url init rows
  request-again id other operation c url init rows = elim (request-cases operation c url init) [
    | inl (why, e) ↦ rw (e id rows, e other rows) refl
    | inr (relay, e) ↦
        let same =
          enqueue-again (new_row digest origin id relay operation c url init)
            (new_row digest origin other relay operation c url init) rows refl refl in
        rw
          (
            e id rows,
            e other (enqueue (new_row digest origin id relay operation c url init) rows),
            same,
          )
          refl
  ]
