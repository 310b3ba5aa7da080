-- ===== src/Clock/Ticks.antt =====
-- The time of day of kernel/clock.c.
use soi_laboratoria_2025z.Base.{
  ℕ, zero, suc, ◌+◌, ◌-◌, ◌/◌, ◌%◌, ◌≤◌, ◌≡◌, inl, inr, arith, leb, Bool-cases, Returns, returns,
}
use native.Mathlib.Nat.{div-zero, mod-add-div, mod-lt, mul-le-mul_left}
use soi_laboratoria_2025z.Clock.Defs.{Clock, Setting, time_mod, do_get_time, do_set_time}

div_mono : (m n hz : ℕ) → m ≤ n → m / hz ≤ n / hz
div_mono m n zero le = rw (div-zero m, div-zero n) (omega arith)
div_mono m n (suc h) le = elim (Bool-cases (leb (m / suc h) (n / suc h))) [
  | inl yet ↦ ground arith
  | inr more ↦ absurd (
      ground (
        arith,
        mod-add-div m (suc h),
        mod-add-div n (suc h),
        mod-lt n {m = suc h} (omega arith),
        mul-le-mul_left {m = suc (n / suc h)} {n = m / suc h} (suc h) (ground arith),
      ))
]

-- After SET_TIME and `d` ticks, GET_TIME gives the time that was set and the seconds that have passed since,
-- counted by full seconds since boot, as a 32-bit number.
pub do_set_time-do_get_time :
    (g : Setting) (s : Clock) (new d : ℕ)
    → Returns
        (λ _ s'.
          do_get_time g (record s' { realtime = s.realtime + d })
          ≡ (new + ((s.realtime + d) / g.hz - s.realtime / g.hz)) % time_mod)
        (do_set_time g new s)
unfolding do_get_time do_set_time
do_set_time-do_get_time g s new d =
    returns (omega (arith, div_mono s.realtime (s.realtime + d) g.hz (omega arith)))
