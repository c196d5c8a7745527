-- ===== src/Sla/Elapsed.antt =====
-- The loop of `calculateElapsedMinutes` ends, and counts the business time between its two instants.
use cadena.Sla.{day_ms, visit, walk, calculate_elapsed_minutes, business_hours}
use cadena.Sla.BusinessTime.{worked, worked_on, work_days-suc}
use native.Mathlib.Decide.{dec_le}
use cadena.Prelude.{
  ℕ, suc, ◌+◌, ◌/◌, ◌≤◌, ◌<◌, ◌≡◌, none, some, arith, Option-cases, inl, inr, zero, refl, ◌-◌,
}

-- A round that goes on moves forward, not past `now`, and counts the working time that it passes.
visit-some :
    (curr now e c e' : ℕ)
    → visit curr now e ≡ some (c, e')
    → (curr < c) × (c ≤ now) × (e' + worked curr ≡ e + worked c)
unfolding visit
visit-some curr now e c e' h =
    let d = curr / day_ms in
    ground (arith, worked_on curr d, worked_on c d, worked_on c (suc d), work_days-suc d)

-- A loop that ends has no working time left before `now`.
visit-none : (curr now e : ℕ) → curr ≤ now → visit curr now e ≡ none → worked curr ≡ worked now
unfolding visit
visit-none curr now e k h =
    let d = curr / day_ms in
    ground (arith, worked_on curr d, worked_on now d, worked_on now (suc d), work_days-suc d)

-- With more fuel than milliseconds left the loop returns, and has added the working time that was
-- left. `n` is what it returns.
walk_lem :
    (fuel curr now e : ℕ)
    → curr ≤ now
    → now < curr + fuel
    → (n : ℕ) × (walk fuel curr now e ≡ some n) × (n + worked curr ≡ e + worked now)
unfolding walk
walk_lem zero curr now e h k = absurd (omega arith)
walk_lem (suc fuel) curr now e h k = elim (Option-cases (visit curr now e)) [
  | inl stop ↦ (e, rw (stop, walk) refl, omega (arith, visit-none curr now e h stop))
  | inr ((c, e'), go) ↦
      let (on, within, kept) = visit-some curr now e c e' go in
      let (n, returns, total) = walk_lem fuel c now e' within (omega arith) in
      (n, rw (go, walk) returns, omega arith)
]

pub worked_mono : (s t : ℕ) → s ≤ t → worked s ≤ worked t
worked_mono s t h =
    let (n, returns, total) = walk_lem (suc (t - s)) s t 0 h (omega arith) in omega arith

-- The 5×8 clock: the loop ends within the fuel that its call gives it, one round for each millisecond,
-- and the result is the working time between the two instants, in whole minutes.
pub calculate_elapsed_minutes-worked :
    (entered_at now : ℕ)
    → calculate_elapsed_minutes entered_at now business_hours
      ≡ (worked now - worked entered_at) / 60_000
unfolding calculate_elapsed_minutes
calculate_elapsed_minutes-worked entered_at now = elim (dec_le now entered_at) [
  | yes late ↦ ground (arith, worked_mono now entered_at late)
  | no early ↦
      let (n, returns, total) =
        walk_lem (suc (now - entered_at)) entered_at now 0 (omega arith) (omega arith) in
      ground (arith, returns, total)
]
