-- ===== src/Relay/Final.antt =====
-- modules/connectors/relay/connector-relay.service.ts: an answer is recorded once, and stays.
use Prim.Native.String.{String}
use cadena.Prelude.{
  ℕ, ◌+◌, ◌≡◌, refl, Bool, true, false, none, some, List, [], ◌∷◌, ◌++◌, not, arith, Bool-cases,
  Option-cases, inl, inr,
}
use cadena.Relay.{Row, completed, Response, claim, update_rows, find_row, is_row}
use cadena.Relay.Acknowledge.{
  carry_out, complete, replay, Ack, decide, acknowledge, backoff_ms, is_leased_row, back_off_row,
  complete_row, is_empty_id, has_response, has_text,
}
use cadena.Relay.Request.{revive}
use cadena.Relay.Queue.{
  Op, claims, answers, backs_off, enqueues, revives, apply, fresh_row, insert_request-cases,
}

-- A row that is answered.
abbrev pub is_final : Row → Bool
is_final r = elim r.status [
  | completed ↦ elim r.lease_id [ none ↦ true | some l ↦ false ]
  | _ ↦ false
]

find_row-claim :
    (now : ℕ) (l p id relay : String) (rows : List Row) (r : Row)
    → is_final r ≡ true
    → find_row id relay rows ≡ some r
    → find_row id relay (claim now l p rows).1 ≡ some r
unfolding find_row claim
find_row-claim now l p id relay [] r f e = cc
find_row-claim now l p id relay (x ∷ rows) r f e =
    ground (arith, find_row-claim now l p id relay rows r f)

not_leased : (i p l : String) (x : Row) → is_final x ≡ true → is_leased_row i p l x ≡ false
not_leased i p l x f = ground arith

find_row-update :
    (i p l id relay : String) (change : Row → Row) (rows : List Row) (r : Row)
    → is_final r ≡ true
    → find_row id relay rows ≡ some r
    → ((q : Row) → ((change q).id ≡ q.id) × ((change q).relay_id ≡ q.relay_id))
    → find_row id relay (update_rows (is_leased_row i p l) change rows) ≡ some r
unfolding find_row update_rows
find_row-update i p l id relay change [] r f e keeps = cc
find_row-update i p l id relay change (x ∷ rows) r f e keeps =
    let rest = find_row-update i p l id relay change rows r f in
    elim (Bool-cases (is_row id relay x)) [
      | inl h ↦
          let found : x ≡ r = ground arith in
          let free = not_leased i p l x (rw found f) in rw (free, h, found) refl
      | inr h ↦
          let behind : find_row id relay rows ≡ some r = rw h at e in
          elim (Bool-cases (is_leased_row i p l x)) [
            | inl t ↦ rw (t, (keeps x).0, (keeps x).1, h) (rest behind keeps)
            | inr t ↦ rw (t, h) (rest behind keeps)
          ]
    ]

find_row-revive :
    (i id relay : String) (rows : List Row) (r : Row)
    → is_final r ≡ true
    → find_row id relay rows ≡ some r
    → find_row id relay (revive i rows) ≡ some r
unfolding find_row revive update_rows
find_row-revive i id relay [] r f e = cc
find_row-revive i id relay (x ∷ rows) r f e = ground (arith, find_row-revive i id relay rows r f)

find_row-append :
    (id relay : String) (rows : List Row) (q r : Row)
    → find_row id relay rows ≡ some r
    → find_row id relay (rows ++ q ∷ []) ≡ some r
unfolding find_row
find_row-append id relay [] q r e = cc
find_row-append id relay (x ∷ rows) q r e = ground (arith, find_row-append id relay rows q r)

-- Every statement leaves an answered row as it is.
find_row-apply :
    (op : Op) (id relay : String) (rows : List Row) (r : Row)
    → is_final r ≡ true
    → find_row id relay rows ≡ some r
    → find_row id relay (apply op rows) ≡ some r
unfolding apply carry_out
find_row-apply (claims now l p) id relay rows r f e = find_row-claim now l p id relay rows r f e
find_row-apply (answers i p l res) id relay rows r f e =
    find_row-update i p l id relay (complete_row res) rows r f e (λ q. (refl, refl))
find_row-apply (backs_off i p l error now attempts) id relay rows r f e =
    find_row-update i p l id relay (back_off_row error (now + backoff_ms attempts)) rows r f e
      (λ q. (refl, refl))
find_row-apply (enqueues q) id relay rows r f e = elim (insert_request-cases (fresh_row q) rows) [
  | inl s ↦ rw s e
  | inr s ↦ rw s (find_row-append id relay rows (fresh_row q) r e)
]
find_row-apply (revives i) id relay rows r f e = find_row-revive i id relay rows r f e

abbrev pub apply_all : List Op → List Row → List Row
apply_all [] rows = rows
apply_all (op ∷ ops) rows = apply_all ops (apply op rows)

find_row-apply_all :
    (ops : List Op) (id relay : String) (rows : List Row) (r : Row)
    → is_final r ≡ true
    → find_row id relay rows ≡ some r
    → find_row id relay (apply_all ops rows) ≡ some r
find_row-apply_all [] id relay rows r f e = e
find_row-apply_all (op ∷ ops) id relay rows r f e =
    find_row-apply_all ops id relay (apply op rows) r f (find_row-apply op id relay rows r f e)

find_row-update_same :
    (id relay l : String) (change : Row → Row) (rows : List Row) (r : Row)
    → find_row id relay rows ≡ some r
    → is_leased_row id relay l r ≡ true
    → ((q : Row) → ((change q).id ≡ q.id) × ((change q).relay_id ≡ q.relay_id))
    → find_row id relay (update_rows (is_leased_row id relay l) change rows) ≡ some (change r)
unfolding find_row update_rows
find_row-update_same id relay l change [] r e t keeps = cc
find_row-update_same id relay l change (x ∷ rows) r e t keeps =
    elim (Bool-cases (is_row id relay x)) [
      | inl h ↦
          let found : x ≡ r = ground arith in
          let leased_here : is_leased_row id relay l x ≡ true = rw found t in
          let kept : is_row id relay (change x) ≡ true = rw ((keeps x).0, (keeps x).1) h in
          rw (leased_here, kept, found) refl
      | inr h ↦
          let other : is_leased_row id relay l x ≡ false = ground arith in
          rw (other, h) (find_row-update_same id relay l change rows r (rw h at e) t keeps)
    ]

-- A lease is named, and there is a response or an error but not both.
abbrev pub IsOneOutcome : Ack → Type 0
IsOneOutcome ack =
    (elim ack.lease_id [ none ↦ false | some l ↦ not (is_empty_id l) ] ≡ true)
    × (has_response ack.response ≡ not (has_text ack.error))

acknowledge-complete :
    (now : ℕ) (ack : Ack) (id relay : String) (seen rows : List Row) (res : Response)
    (lease : String)
    → decide now ack id relay seen ≡ complete res
    → ack.lease_id ≡ some lease
    → (acknowledge now ack id relay seen rows).1
      ≡ update_rows (is_leased_row id relay lease) (complete_row res) rows
unfolding acknowledge carry_out
acknowledge-complete now ack id relay seen rows res lease d l = rw (l, d) refl

acknowledge-replay :
    (now : ℕ) (ack : Ack) (id relay : String) (seen rows : List Row) (r : Row)
    → is_final r ≡ true
    → find_row id relay seen ≡ some r
    → IsOneOutcome ack
    → acknowledge now ack id relay seen rows ≡ (replay, rows)
unfolding acknowledge decide carry_out
acknowledge-replay now ack id relay seen rows r f e o = elim (Option-cases ack.lease_id) [
  | inl n ↦ ground arith
  | inr (lease, l) ↦ ground arith
]

-- An answer is recorded once and stays. An acknowledgement with a response is accepted by its SELECT, and
-- its UPDATE, which may come after any other statements, still finds the row under the same lease. Then the
-- row is completed with that response; it stays that row whatever statements follow, of late
-- acknowledgements, timed-out leases, repeated requests and polls, in any order; and every later
-- acknowledgement of it with one outcome, under that lease or any other, is told that it repeats one and
-- changes nothing, whatever queue its own UPDATE would meet.
pub acknowledge-final :
    (now later : ℕ) (ack again : Ack) (id relay lease : String) (seen rows met : List Row) (r : Row)
    (res : Response) (ops : List Op)
    → decide now ack id relay seen ≡ complete res
    → ack.lease_id ≡ some lease
    → find_row id relay rows ≡ some r
    → is_leased_row id relay lease r ≡ true
    → IsOneOutcome again
    → let after = apply_all ops (acknowledge now ack id relay seen rows).1 in
      ((q : Row) × (find_row id relay after ≡ some q)
        × (q.status ≡ completed)
        × (q.response ≡ some res))
      × (acknowledge later again id relay after met ≡ (replay, met))
acknowledge-final now later ack again id relay lease seen rows met r res ops d l f t o =
    let step = acknowledge-complete now ack id relay seen rows res lease d l in
    let at_once =
      find_row-update_same id relay lease (complete_row res) rows r f t (λ q. (refl, refl)) in
    let found =
      find_row-apply_all ops id relay (acknowledge now ack id relay seen rows).1
        (complete_row res r) refl (rw step at_once) in
    (
      (complete_row res r, found, refl, refl),
      acknowledge-replay later again id relay
          (apply_all ops (acknowledge now ack id relay seen rows).1) met (complete_row res r) refl
          found o,
    )
