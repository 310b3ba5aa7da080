-- ===== src/Clock/Due.antt =====
-- The alarms that go off in `do_clocktick` of kernel/clock.c.
use soi_laboratoria_2025z.Base.{
  ℕ, zero, suc, ◌+◌, ◌≤◌, ◌<◌, ◌≡◌, inl, inr, refl, sym, ap, fun_ext, ◌∙◌, false, ◌&&◌, ltb, leb,
  ◌==◌, [], arith, Bool-cases, ok, and_then,
}
use soi_laboratoria_2025z.Kernel.Defs.{Ptr}
use soi_laboratoria_2025z.Clock.Defs.{Clock, Setting, rank, earliest, check_alarms}
use soi_laboratoria_2025z.Clock.Alarms.{IsNext, earliest-IsNext}
use soi_laboratoria_2025z.Clock.Fire.{with_alarms}
use soi_laboratoria_2025z.Clock.Loop.{
  is_due, due, still_set, fire_all, swept, swept-still_set, alarm_loop-fires,
}

none_due :
    (a : Ptr → ℕ) (r n : ℕ) (rp : Ptr)
    → ((p : Ptr) → rp ≤ p → p < rp + n → is_due (a p) r ≡ false)
    → due a r n rp ≡ []
unfolding due
none_due a r zero rp h = refl
none_due a r (suc n) rp h =
    rw
      (
        h rp (omega arith) (omega arith),
        none_due a r n (suc rp) (λ p lo hi. h p (omega arith) (omega arith)),
      )
      refl

none_swept :
    (a : Ptr → ℕ) (r n : ℕ) (rp : Ptr)
    → ((p : Ptr) → rp ≤ p → p < rp + n → is_due (a p) r ≡ false)
    → swept a r n rp ≡ a
unfolding still_set
none_swept a r n rp h = fun_ext (λ p.
    swept-still_set a r n rp p ∙ elim (Bool-cases (leb rp p && ltb p (rp + n))) [
      | inl within ↦ rw (within, h p (ground arith) (ground arith)) refl
      | inr outside ↦ rw outside refl
    ])

nothing_fires :
    (g : Setting) (s : Clock)
    → ok tt s
      ≡ and_then (fire_all g [] s) (λ _ t. ok tt (with_alarms s.alarm s.next_alarm s.realtime t))
unfolding fire_all
nothing_fires g s = refl

-- When `next_alarm` is the earliest alarm, or LONG_MAX without one before that, the part of
-- `do_clocktick` about alarms is: what happens for each process whose alarm is due, in the order of the
-- table, each once, by a signal, `cause_alarm` or a function of a task; then these alarms are off, the
-- others are as they were, and `next_alarm` is the earliest of them or LONG_MAX. A panic or a fault of what happens is one of the whole.
pub check_alarms-fires :
    (g : Setting) (s : Clock)
    → IsNext g s.alarm s.next_alarm
    → (still : Ptr → ℕ) × (next : ℕ) × (check_alarms g s
        ≡ and_then
            (fire_all g (due s.alarm s.realtime g.config.procs 1) s)
            (λ _ t. ok tt (with_alarms still next s.realtime t)))
      × ((p : Ptr) → still p ≡ still_set s.alarm s.realtime g.config.procs 1 p)
      × IsNext g still next
unfolding check_alarms
check_alarms-fires g s i = elim (Bool-cases (leb (rank s.next_alarm) (rank s.realtime))) [
  | inl some_due ↦ (
    swept s.alarm s.realtime g.config.procs 1,
    earliest (swept s.alarm s.realtime g.config.procs 1) g.long_max g.config.procs 1,
    rw some_due (alarm_loop-fires g s.realtime g.config.procs 1 s.alarm g.long_max s),
    swept-still_set s.alarm s.realtime g.config.procs 1,
    earliest-IsNext g (swept s.alarm s.realtime g.config.procs 1),
  )
  | inr early ↦
      let h : (p : Ptr) → 1 ≤ p → p < 1 + g.config.procs → is_due (s.alarm p) s.realtime ≡ false =
        λ p lo hi. elim (Bool-cases (s.alarm p == 0)) [
          | inl off ↦ rw off refl
          | inr set ↦
              ground (arith, i.at_most p (omega arith, omega arith) (λ e. ground (arith, e, set)))
        ] in
      (
        s.alarm,
        s.next_alarm,
        rw (early, none_due s.alarm s.realtime g.config.procs 1 h) (nothing_fires g s),
        λ p.
            sym (ap (λ t. t p) (none_swept s.alarm s.realtime g.config.procs 1 h))
            ∙ swept-still_set s.alarm s.realtime g.config.procs 1 p,
        i,
      )
]
