-- ===== src/Relay/Queue.antt =====
-- modules/connectors/relay/connector-relay.service.ts: the statements on the queue, of any number of pollers,
-- acknowledgements and callers, and what every sequence of them keeps.
use Prim.Native.String.{String}
use cadena.Prelude.{
  ℕ, ◌+◌, ◌≡◌, ◌⊎◌, refl, Bool, true, false, none, some, List, [], ◌∷◌, ◌++◌, arith, Bool-cases,
  inl, inr, All,
}
use cadena.Prelude.Text.{Text}
use cadena.Relay.{
  Row, pending, leased, completed, failed, Response, claim, update_rows, queued_for, may_claim,
  lease_row,
}
use cadena.Relay.Acknowledge.{
  carry_out, back_off, complete, backoff_ms, is_leased_row, back_off_row, complete_row,
}
use cadena.Relay.Request.{insert_request, revive}

-- A statement: the claim of a poll, the UPDATE of an acknowledgement, whose SELECT may have come long
-- before, or the INSERT or the UPDATE of a request.
pub data Op : Type 0 where
  claims : (now : ℕ) → (lease relay : String) → Op
  answers : (id relay lease : String) → Response → Op
  backs_off : (id relay lease : String) → (error : Text) → (now attempts : ℕ) → Op
  enqueues : Row → Op
  revives : (id : String) → Op

-- A new request has the columns' defaults.
abbrev pub fresh_row : Row → Row
fresh_row q = record q {
  status = pending;
  lease_id = none;
  lease_expires_at = none;
  attempts = 0;
  next_attempt_at = none;
  response = none;
  error_message = none;
}

unfoldable pub apply : Op → List Row → List Row
unfolding carry_out
apply (claims now lease relay) rows = (claim now lease relay rows).1
apply (answers id relay lease res) rows = carry_out (complete res) id relay lease rows
apply (backs_off id relay lease error now attempts) rows =
    carry_out (back_off error (now + backoff_ms attempts)) id relay lease rows
apply (enqueues q) rows = insert_request (fresh_row q) rows
apply (revives id) rows = revive id rows

-- What holds of one row whatever happens: it does not fail, and once completed it is leased to nobody.
abbrev pub is_sound : Row → Bool
is_sound r = elim r.status [
  | pending ↦ true
  | leased ↦ true
  | completed ↦ elim r.lease_id [ none ↦ true | some l ↦ false ]
  | failed ↦ false
]

abbrev pub IsSound : List Row → Type 0
IsSound = All (λ r. is_sound r ≡ true)

-- The first row that waits or is leased, and the rows before it.
pub claim-cases :
    (now : ℕ) (lease relay : String) (rows : List Row)
    → ((claim now lease relay rows).0 ≡ none) × ((claim now lease relay rows).1 ≡ rows)
      ⊎ ((before : List Row) × (r : Row) × (rest : List Row) × (rows ≡ before ++ r ∷ rest)
          × All (λ q. queued_for relay q ≡ false) before
          × (queued_for relay r ≡ true)
          × (may_claim now r ≡ true)
          × (claim now lease relay rows
              ≡ (some (lease_row now lease r), before ++ lease_row now lease r ∷ rest)))
unfolding claim
claim-cases now lease relay [] = inl (refl, refl)
claim-cases now lease relay (x ∷ rows) = elim (Bool-cases (queued_for relay x)) [
  | inl q ↦ elim (Bool-cases (may_claim now x)) [
    | inl m ↦ inr ([], x, rows, refl, tt, q, m, rw (q, m) refl)
    | inr m ↦ inl (rw (q, m) refl, rw (q, m) refl)
  ]
  | inr q ↦ elim (claim-cases now lease relay rows) [
    | inl (n, same) ↦ inl (rw (q, n) refl, rw (q, same) refl)
    | inr (before, r, rest, s, b, h, m, e) ↦
        inr (x ∷ before, r, rest, rw s refl, (q, b), h, m, rw (q, e) refl)
  ]
]

update_rows-IsSound :
    (test : Row → Bool) (change : Row → Row) (rows : List Row)
    → ((r : Row) → is_sound r ≡ true → test r ≡ true → is_sound (change r) ≡ true)
    → IsSound rows
    → IsSound (update_rows test change rows)
unfolding update_rows
update_rows-IsSound test change [] keeps s = tt
update_rows-IsSound test change (x ∷ rows) keeps (s, ss) =
    let rest = update_rows-IsSound test change rows keeps ss in
    elim (Bool-cases (test x)) [ inl t ↦ rw t (keeps x s t, rest) | inr t ↦ rw t (s, rest) ]

IsSound-append :
    (rows : List Row) (q : Row) → IsSound rows → is_sound q ≡ true → IsSound (rows ++ q ∷ [])
IsSound-append [] q s h = (h, tt)
IsSound-append (x ∷ rows) q (s, ss) h = (s, IsSound-append rows q ss h)

claim-IsSound :
    (now : ℕ) (lease relay : String) (rows : List Row)
    → IsSound rows
    → IsSound (claim now lease relay rows).1
unfolding claim
claim-IsSound now lease relay [] s = tt
claim-IsSound now lease relay (x ∷ rows) (s, ss) =
    ground (arith, claim-IsSound now lease relay rows ss)

pub insert_request-cases :
    (q : Row) (rows : List Row)
    → (insert_request q rows ≡ rows) ⊎ (insert_request q rows ≡ rows ++ q ∷ [])
unfolding insert_request
insert_request-cases q rows = ground arith

insert_request-IsSound :
    (q : Row) (rows : List Row) → IsSound rows → is_sound q ≡ true → IsSound (insert_request q rows)
insert_request-IsSound q rows s h = elim (insert_request-cases q rows) [
  | inl e ↦ rw e s
  | inr e ↦ rw e (IsSound-append rows q s h)
]

-- Every statement keeps the rows sound.
pub apply-IsSound : (op : Op) (rows : List Row) → IsSound rows → IsSound (apply op rows)
unfolding apply carry_out revive
apply-IsSound (claims now lease relay) rows s = claim-IsSound now lease relay rows s
apply-IsSound (answers id relay lease res) rows s =
    update_rows-IsSound (is_leased_row id relay lease) (complete_row res) rows (λ r h t. refl) s
apply-IsSound (backs_off id relay lease error now attempts) rows s =
    update_rows-IsSound (is_leased_row id relay lease)
      (back_off_row error (now + backoff_ms attempts)) rows (λ r h t. refl) s
apply-IsSound (enqueues q) rows s = insert_request-IsSound (fresh_row q) rows s refl
apply-IsSound (revives id) rows s = update_rows-IsSound _ _ rows (λ r h t. refl) s
