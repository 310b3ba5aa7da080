-- ===== src/Clock/Alarms.antt =====
-- The next alarm of kernel/clock.c is the earliest of those that are set.
use soi_laboratoria_2025z.Base.{
  ℕ, zero, suc, ◌+◌, ◌-◌, ◌%◌, ◌^◌, true, ◌≤◌, ◌<◌, ◌≡◌, ◌≢◌, ◌⊎◌, inl, inr, refl, sym, not, ◌&&◌,
  ltb, ◌==◌, if◌then◌else◌, arith, Bool-cases, Returns, returns,
}
use soi_laboratoria_2025z.Kernel.Defs.{Ptr}
use soi_laboratoria_2025z.Messages.Path.{InTable}
use soi_laboratoria_2025z.Clock.Defs.{
  Clock, Setting, Watchdog, at_slot, rank, earliest, common_setalarm,
}

-- `next` is LONG_MAX or an alarm of the table, and no alarm that is set is earlier.
pub record IsNext (g : Setting) (alarm : Ptr → ℕ) (next : ℕ) : Type 0 where
  pub bounded : rank next ≤ rank g.long_max
  pub at_most : (p : Ptr) → InTable g.config p → alarm p ≢ 0 → rank next ≤ rank (alarm p)
  pub attained :
      (next ≡ g.long_max) ⊎ ((p : Ptr) × InTable g.config p × (alarm p ≢ 0) × (alarm p ≡ next))

-- The earliest of `next` and the alarms of the slots from `rp` up to `rp + n`.
pub record Earliest (alarm : Ptr → ℕ) (next n : ℕ) (rp : Ptr) (e : ℕ) : Type 0 where
  pub at_most_next : rank e ≤ rank next
  pub at_most : (p : Ptr) → rp ≤ p → p < rp + n → alarm p ≢ 0 → rank e ≤ rank (alarm p)
  pub attained : (e ≡ next) ⊎ ((p : Ptr) × (rp ≤ p) × (p < rp + n) × (alarm p ≢ 0) × (alarm p ≡ e))

earliest-Earliest :
    (alarm : Ptr → ℕ) (next n : ℕ) (rp : Ptr) → Earliest alarm next n rp (earliest alarm next n rp)
unfolding earliest
earliest-Earliest alarm next zero rp = record {
  at_most_next = omega arith;
  at_most = λ p lo hi set. absurd (omega arith);
  attained = inl refl;
}
earliest-Earliest alarm next (suc n) rp =
    elim (Bool-cases (not (alarm rp == 0) && ltb (rank (alarm rp)) (rank next))) [
      | inl sooner ↦
          let r = earliest-Earliest alarm (alarm rp) n (suc rp) in
          rw sooner (record {
            at_most_next = ground (arith, sooner, r.at_most_next);
            at_most = λ p lo hi set. elim (Bool-cases (p == rp)) [
              | inl here ↦ let h : p ≡ rp = ground arith in rw h r.at_most_next
              | inr on ↦ r.at_most p (ground arith) (omega arith) set
            ];
            attained = elim r.attained [
              | inl e ↦ inr (rp, omega arith, omega arith, ground (arith, sooner), sym e)
              | inr (p, lo, hi, set, e) ↦ inr (p, omega arith, omega arith, set, e)
            ];
          })
      | inr later ↦
          let r = earliest-Earliest alarm next n (suc rp) in
          rw later (record {
            at_most_next = r.at_most_next;
            at_most = λ p lo hi set. elim (Bool-cases (p == rp)) [
              | inl here ↦
                  let h : p ≡ rp = ground arith in ground (arith, later, r.at_most_next, h, set)
              | inr on ↦ r.at_most p (ground arith) (omega arith) set
            ];
            attained = elim r.attained [
              | inl e ↦ inl e
              | inr (p, lo, hi, set, e) ↦ inr (p, omega arith, omega arith, set, e)
            ];
          })
    ]

pub earliest-IsNext :
    (g : Setting) (alarm : Ptr → ℕ) → IsNext g alarm (earliest alarm g.long_max g.config.procs 1)
earliest-IsNext g alarm =
    let r = earliest-Earliest alarm g.long_max g.config.procs 1 in
    record {
      bounded = r.at_most_next;
      at_most = λ p t set. r.at_most p (omega (arith, t.0)) (omega (arith, t.1)) set;
      attained = elim r.attained [
        | inl e ↦ inl e
        | inr (p, lo, hi, set, e) ↦ inr (p, (omega arith, omega arith), set, e)
      ];
    }

-- The alarm that a process gets `delta` ticks after `now`. A `delta` of `2 ^ 32 - d` stands for -d.
pub record AlarmAt (now delta alarm : ℕ) : Type 0 where
  pub off : delta ≡ 0 → alarm ≡ 0
  pub wrapped : delta ≢ 0 → alarm ≡ (now + delta) % 2 ^ 32
  pub ahead : delta ≢ 0 → now + delta < 2 ^ 31 → alarm ≡ now + delta
  pub behind : (d : ℕ) → 0 < d → d ≤ now → now < 2 ^ 31 → delta + d ≡ 2 ^ 32 → alarm ≡ now - d

set-AlarmAt : (now delta : ℕ) → AlarmAt now delta (if delta == 0 then 0 else (now + delta) % 2 ^ 32)
set-AlarmAt now delta = record {
  off = λ e. ground (arith, e);
  wrapped = λ n. ground (arith, n);
  ahead = λ n lt. ground (arith, n, lt);
  behind = λ d pos le lt e. ground (arith, pos, le, lt, e);
}

-- `common_setalarm` returns with the alarm of the process off when `delta` is 0, and else at the sum of now
-- and `delta` as C adds two `long` numbers: it is `delta` ticks ahead while that is below 2 ^ 31, and
-- d ticks back for a `delta` of -d. The other alarms are as they were, and the next alarm
-- is the earliest of those that are set, or LONG_MAX without one before that.
pub common_setalarm-IsNext :
    (g : Setting) (s : Clock) (rp : Ptr) (delta : ℕ) (function : Watchdog)
    → Returns
        (λ _ s'.
          AlarmAt s.realtime delta (s'.alarm rp)
          × ((p : Ptr) → p ≢ rp → s'.alarm p ≡ s.alarm p)
          × (s'.watch_dog rp ≡ function)
          × IsNext g s'.alarm s'.next_alarm)
        (common_setalarm g rp delta function s)
unfolding common_setalarm at_slot
common_setalarm-IsNext g s rp delta function =
    let here : (rp == rp) ≡ true = ground arith in
    returns (
      rw here (set-AlarmAt s.realtime delta),
      λ p n. ground (arith, n),
      rw here refl,
      earliest-IsNext g _,
    )
