-- ===== src/Sla/BusinessTime.antt =====
-- Business time as a function of the instant: the working milliseconds since the epoch. Both the SLA
-- calculator and the flow profile measure differences of it.
use cadena.Sla.{day_ms, hour_ms, is_weekday}
use cadena.Prelude.{
  ℕ, zero, suc, ◌+◌, ◌-◌, ◌*◌, ◌/◌, ◌%◌, ◌≤◌, ◌<◌, ◌≡◌, refl, min, arith, if◌then◌else◌,
}

-- Working days before day `d`.
pub work_days : ℕ → ℕ
work_days zero = 0
work_days (suc d) = if is_weekday d then suc (work_days d) else work_days d

-- Working time of day `d` before its millisecond `r`: 09:00 to 17:00, Monday to Friday.
abbrev pub within_day : ℕ → ℕ → ℕ
within_day d r = if is_weekday d then min (r - 9 * hour_ms) (8 * hour_ms) else 0

pub worked : ℕ → ℕ
worked t = work_days (t / day_ms) * (8 * hour_ms) + within_day (t / day_ms) (t % day_ms)

-- `worked` on day `d`.
pub worked_on :
    (t d : ℕ)
    → d * day_ms ≤ t
    → t < d * day_ms + day_ms
    → worked t ≡ work_days d * (8 * hour_ms) + within_day d (t - d * day_ms)
unfolding worked
worked_on t d h k =
    let day : t / day_ms ≡ d = omega arith in
    let rest : t % day_ms ≡ t - d * day_ms = omega arith in rw (day, rest)

pub work_days-suc :
    (d : ℕ) → work_days (suc d) ≡ (if is_weekday d then suc (work_days d) else work_days d)
unfolding work_days
work_days-suc d = refl
