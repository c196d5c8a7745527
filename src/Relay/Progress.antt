-- ===== src/Relay/Progress.antt =====
-- modules/connectors/relay/connector-relay.service.ts: no request of a relay's queue is stuck.
use Prim.Native.String.{String}
use cadena.Prelude.{
  ℕ, ◌+◌, ◌≤◌, ◌≡◌, refl, Bool, true, false, Option, none, some, List, [], ◌∷◌, ◌++◌, ◌&&◌, leb,
  if◌then◌else◌, arith, Bool-cases, inl, inr, All, ◌≢◌,
}
use cadena.Relay.{Row, claim, update_rows, queued_for, lease_row, relay_lease_ms}
use cadena.Relay.Acknowledge.{carry_out, backoff_ms, back_off_row, complete_row}
use cadena.Relay.Request.{revive}
use cadena.Relay.Queue.{
  Op, claims, answers, backs_off, enqueues, revives, apply, fresh_row, insert_request-cases,
  claim-cases,
}
use cadena.Relay.Final.{apply_all}

abbrev soon : ℕ → Option ℕ → Bool
soon last none = true
soon last (some t) = leb t (last + relay_lease_ms)

-- Nothing of a row waits for a time more than thirty seconds after the last statement.
abbrev is_timely : (last : ℕ) → Row → Bool
is_timely last r = soon last r.next_attempt_at && soon last r.lease_expires_at

abbrev IsTimely : (last : ℕ) → List Row → Type 0
IsTimely last = All (λ r. is_timely last r ≡ true)

-- A statement that reads a clock reads it by `last`.
abbrev pub is_by : (last : ℕ) → Op → Bool
is_by last (claims now lease relay) = leb now last
is_by last (backs_off id relay lease error now attempts) = leb now last
is_by last _ = true

backoff_ms-le : (n : ℕ) → backoff_ms n ≤ relay_lease_ms
unfolding backoff_ms
backoff_ms-le n = ground arith

claim-IsTimely :
    (last now : ℕ) (lease relay : String) (rows : List Row)
    → leb now last ≡ true
    → IsTimely last rows
    → IsTimely last (claim now lease relay rows).1
unfolding claim
claim-IsTimely last now lease relay [] b s = tt
claim-IsTimely last now lease relay (x ∷ rows) b (s, ss) =
    ground (arith, claim-IsTimely last now lease relay rows b ss)

update_rows-IsTimely :
    (last : ℕ) (test : Row → Bool) (change : Row → Row) (rows : List Row)
    → ((r : Row) → is_timely last r ≡ true → is_timely last (change r) ≡ true)
    → IsTimely last rows
    → IsTimely last (update_rows test change rows)
unfolding update_rows
update_rows-IsTimely last test change [] keeps s = tt
update_rows-IsTimely last test change (x ∷ rows) keeps (s, ss) =
    let rest = update_rows-IsTimely last test change rows keeps ss in
    elim (Bool-cases (test x)) [ inl t ↦ rw t (keeps x s, rest) | inr t ↦ rw t (s, rest) ]

IsTimely-append :
    (last : ℕ) (rows : List Row) (q : Row)
    → IsTimely last rows
    → is_timely last q ≡ true
    → IsTimely last (rows ++ q ∷ [])
IsTimely-append last [] q s h = (h, tt)
IsTimely-append last (x ∷ rows) q (s, ss) h = (s, IsTimely-append last rows q ss h)

apply-IsTimely :
    (last : ℕ) (op : Op) (rows : List Row)
    → is_by last op ≡ true
    → IsTimely last rows
    → IsTimely last (apply op rows)
unfolding apply carry_out revive
apply-IsTimely last (claims now lease relay) rows b s = claim-IsTimely last now lease relay rows b s
apply-IsTimely last (answers id relay lease res) rows b s =
    update_rows-IsTimely last _ (complete_row res) rows (λ r h. refl) s
apply-IsTimely last (backs_off id relay lease error now attempts) rows b s =
    update_rows-IsTimely last _ (back_off_row error (now + backoff_ms attempts)) rows
      (λ r h. ground (arith, backoff_ms-le attempts)) s
apply-IsTimely last (enqueues q) rows b s = elim (insert_request-cases (fresh_row q) rows) [
  | inl e ↦ rw e s
  | inr e ↦ rw e (IsTimely-append last rows (fresh_row q) s refl)
]
apply-IsTimely last (revives id) rows b s = update_rows-IsTimely last _ _ rows (λ r h. h) s

apply_all-IsTimely :
    (last : ℕ) (ops : List Op) (rows : List Row)
    → All (λ op. is_by last op ≡ true) ops
    → IsTimely last rows
    → IsTimely last (apply_all ops rows)
apply_all-IsTimely last [] rows b s = s
apply_all-IsTimely last (op ∷ ops) rows (b, bs) s =
    apply_all-IsTimely last ops (apply op rows) bs (apply-IsTimely last op rows b s)

abbrev pub is_waiting : (relay : String) → List Row → Bool
is_waiting relay [] = false
is_waiting relay (r ∷ rs) = if queued_for relay r then true else is_waiting relay rs

claim-timely :
    (last now : ℕ) (lease relay : String) (rows : List Row)
    → last + relay_lease_ms ≤ now
    → IsTimely last rows
    → is_waiting relay rows ≡ true
    → (claim now lease relay rows).0 ≢ none
unfolding claim
claim-timely last now lease relay [] h s w e = cc
claim-timely last now lease relay (x ∷ rows) h (s, ss) w e =
    ground (arith, claim-timely last now lease relay rows h ss)

-- No request is stuck, and none overtakes: whatever statements have been made, in any order, thirty
-- seconds after the last of them a poll of a relay that has requests in its queue is handed the
-- first of these, with a new lease and one more attempt, however often the request was leased before
-- or its attempts failed; the other rows stay as they are.
pub claim-progress :
    (ops : List Op) (last now : ℕ) (lease relay : String)
    → All (λ op. is_by last op ≡ true) ops
    → last + relay_lease_ms ≤ now
    → is_waiting relay (apply_all ops []) ≡ true
    → (before : List Row) × (r : Row) × (rest : List Row) × (apply_all ops [] ≡ before ++ r ∷ rest)
      × All (λ q. queued_for relay q ≡ false) before
      × (queued_for relay r ≡ true)
      × (claim now lease relay (apply_all ops [])
          ≡ (some (lease_row now lease r), before ++ lease_row now lease r ∷ rest))
claim-progress ops last now lease relay b h w =
    let timely = apply_all-IsTimely last ops [] b tt in
    elim (claim-cases now lease relay (apply_all ops [])) [
      | inl (n, _) ↦ absurd (claim-timely last now lease relay (apply_all ops []) h timely w n)
      | inr (before, r, rest, s, q, o, _, e) ↦ (before, r, rest, s, q, o, e)
    ]
