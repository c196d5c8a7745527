-- ===== src/Governor/Window.antt =====
-- The budget of one window, and the end of the wait for the next.
use cadena.Governor.Policy.{effective_limit}
use cadena.Governor.Row.{
  Row, Target, Admission, shed, wait, granted, quota, admit, limit_of, window_ms,
}
use cadena.Governor.Execute.{Reading, acquire_quota}
use cadena.Prelude.{
  ℕ, ◌+◌, ◌≤◌, ◌<◌, ◌≡◌, max, min, Option, none, some, List, [], ◌∷◌, Bool, true, false, arith, All,
  ◌⊎◌, inr, inl, refl,
}

is_granted : Admission → ℕ
is_granted (granted probe) = 1
is_granted _ = 0

-- How many calls a sequence of transactions admits.
unfoldable pub grants : List Reading → Target → Row → ℕ
unfolding is_granted
grants [] t row = 0
grants (r ∷ rs) t row =
    let (row', answer) = admit r.now r.token t row in is_granted answer + grants rs t row'

limit_of-pos : (t : Target) (row : Row) → 1 ≤ limit_of t row
unfolding effective_limit
limit_of-pos t row = ground arith

min-min : (a b : ℕ) → min (min a b) b ≡ min a b
min-min a b = omega arith

quota-step :
    (now fresh : ℕ) (t : Target) (row : Row)
    → now < row.window_started_at + window_ms
    → ((quota now fresh t row).0.window_started_at ≡ row.window_started_at)
      × (limit_of t (quota now fresh t row).0 ≡ limit_of t row)
      × ((quota now fresh t row).0.used_requests
          ≡ is_granted (quota now fresh t row).1 + row.used_requests)
      × (is_granted (quota now fresh t row).1 + row.used_requests
          ≤ max row.used_requests (limit_of t row))
unfolding quota is_granted
quota-step now fresh t row h = ground (
  arith,
  min-min row.requests_per_minute t.policy.requests_per_minute,
  min-min row.headroom_percentage t.policy.headroom_percentage,
)

-- One transaction inside a window: the window and its limit stay, and what is used grows by the grant.
admit-step :
    (now fresh : ℕ) (t : Target) (row : Row)
    → now < row.window_started_at + window_ms
    → ((admit now fresh t row).0.window_started_at ≡ row.window_started_at)
      × (limit_of t (admit now fresh t row).0 ≡ limit_of t row)
      × ((admit now fresh t row).0.used_requests
          ≡ is_granted (admit now fresh t row).1 + row.used_requests)
      × (is_granted (admit now fresh t row).1 + row.used_requests
          ≤ max row.used_requests (limit_of t row))
unfolding admit is_granted
admit-step now fresh t row h = ground (arith, quota-step now fresh t row h)

-- However many transactions fall into one window, of whatever workers: what they admit, with what
-- the window had used before, stays within the safer of the row's and the target's limits, unless more
-- was used before.
pub admits-within_limit :
    (t : Target) (rs : List Reading) (row : Row)
    → All (λ r. r.now < row.window_started_at + window_ms) rs
    → grants rs t row + row.used_requests ≤ max row.used_requests (limit_of t row)
unfolding grants
admits-within_limit t [] row hs = omega arith
admits-within_limit t (r ∷ rs) row (h, hs) =
    let (start, limit, used, bound) = admit-step r.now r.token t row h in
    let row' = (admit r.now r.token t row).0 in
    let rest = admits-within_limit t rs row' (rw (start) hs) in
    omega (arith, rest, limit, used, bound)

unfoldable pub is_final : Option Admission → Bool
is_final none = false
is_final (some (wait ms)) = false
is_final (some (shed until reason)) = true
is_final (some (granted probe)) = true

quota-fresh :
    (now fresh : ℕ) (t : Target) (row : Row)
    → row.window_started_at + window_ms ≤ now
    → is_final (some (quota now fresh t row).1) ≡ true
unfolding quota is_final
quota-fresh now fresh t row h = ground (arith, limit_of-pos t row)

admit-fresh :
    (now fresh : ℕ) (t : Target) (row : Row)
    → row.window_started_at + window_ms ≤ now
    → is_final (some (admit now fresh t row).1) ≡ true
unfolding admit is_final
admit-fresh now fresh t row h = ground (arith, quota-fresh now fresh t row h)

quota-waits :
    (now fresh : ℕ) (t : Target) (row : Row) (ms : ℕ)
    → (quota now fresh t row).1 ≡ wait ms
    → (quota now fresh t row).0.window_started_at + window_ms ≤ now + ms
unfolding quota
quota-waits now fresh t row ms h = ground arith

admit-waits :
    (now fresh : ℕ) (t : Target) (row : Row) (ms : ℕ)
    → (admit now fresh t row).1 ≡ wait ms
    → (admit now fresh t row).0.window_started_at + window_ms ≤ now + ms
unfolding admit
admit-waits now fresh t row ms h = ground (arith, quota-waits now fresh t row ms)

Admission-cases : (a : Admission) → (is_final (some a) ≡ true) ⊎ ((ms : ℕ) × (a ≡ wait ms))
unfolding is_final
Admission-cases (wait ms) = inr (ms, refl)
Admission-cases (shed until reason) = inl refl
Admission-cases (granted probe) = inl refl

last_turn :
    (r : Reading) (t : Target) (row : Row)
    → is_final (some (admit r.now r.token t row).1) ≡ true
    → is_final (acquire_quota (r ∷ []) t row).1 ≡ true
unfolding acquire_quota is_final
last_turn r t row h = ground arith

first_turn :
    (r r' : Reading) (t : Target) (row : Row)
    → is_final (acquire_quota (r' ∷ []) t (admit r.now r.token t row).0).1 ≡ true
      ⊎ (is_final (some (admit r.now r.token t row).1) ≡ true)
    → is_final (acquire_quota (r ∷ r' ∷ []) t row).1 ≡ true
unfolding acquire_quota is_final
first_turn r r' t row h = ground arith

-- The loop ends: a caller that is told to wait, and whose next reading comes after the wait with no
-- other call in between, is admitted then, or refused by load shedding.
pub acquire_quota-ends :
    (t : Target) (row : Row) (r r' : Reading)
    → ((ms : ℕ) → (admit r.now r.token t row).1 ≡ wait ms → r.now + ms ≤ r'.now)
    → is_final (acquire_quota (r ∷ r' ∷ []) t row).1 ≡ true
acquire_quota-ends t row r r' h =
    first_turn r r' t row (elim (Admission-cases (admit r.now r.token t row).1) [
      | inl final ↦ inr final
      | inr (ms, e) ↦
          let waited = admit-waits r.now r.token t row ms e in
          inl (last_turn r' t _ (admit-fresh r'.now r'.token t _ (omega (arith, waited, h ms e))))
    ])
