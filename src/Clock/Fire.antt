-- ===== src/Clock/Fire.antt =====
-- What happens when an alarm goes off in kernel/clock.c does not depend on the alarms.
use soi_laboratoria_2025z.Base.{
  ℕ, ◌≡◌, refl, Bool, true, false, if◌then◌else◌, Run, ok, panic, fault, out_of_fuel, Cmd, pure,
  and_then, ◌>>=◌,
}
use soi_laboratoria_2025z.Kernel.Defs.{Ptr}
use soi_laboratoria_2025z.Messages.Defs.{Kernel}
use soi_laboratoria_2025z.Messages.Calls.{mini_send}
use soi_laboratoria_2025z.Messages.Interrupts.{cause_sig}
use soi_laboratoria_2025z.Clock.Defs.{
  Watchdog, signal, alarm_task, task_function, Clock, Setting, put_kernel, on_kernel, at_slot,
  cause_alarm, fire,
}

-- The state with other alarms.
abbrev pub with_alarms : (alarm : Ptr → ℕ) → (next now : ℕ) → Clock → Clock
with_alarms a b r s = record s { alarm = a; next_alarm = b; realtime = r }

abbrev pub on_state : (Clock → Clock) → Run Clock (Unit {0}) → Run Clock (Unit {0})
on_state f r = and_then r (λ _ t. ok tt (f t))

module _ (a : Ptr → ℕ) (b r : ℕ) where
  put_kernel-alarms :
      {A : Type 0} (k : Run Kernel A) (s : Clock) (h : A → Cmd Clock (Unit {0}))
      → ((x : A) (t : Clock) → h x (with_alarms a b r t) ≡ on_state (with_alarms a b r) (h x t))
      → and_then (put_kernel (with_alarms a b r s) k) h
        ≡ on_state (with_alarms a b r) (and_then (put_kernel s k) h)
  unfolding put_kernel
  put_kernel-alarms (ok x k) s h same = same x (record s { kernel = k })
  put_kernel-alarms panic s h same = refl
  put_kernel-alarms fault s h same = refl
  put_kernel-alarms out_of_fuel s h same = refl

  run_kernel-alarms :
      (k : Run Kernel (Unit {0})) (s : Clock)
      → put_kernel (with_alarms a b r s) k ≡ on_state (with_alarms a b r) (put_kernel s k)
  unfolding put_kernel
  run_kernel-alarms (ok x k) s = refl
  run_kernel-alarms panic s = refl
  run_kernel-alarms fault s = refl
  run_kernel-alarms out_of_fuel s = refl

  cause_alarm-alarms :
      (g : Setting) (s : Clock)
      → cause_alarm g (with_alarms a b r s) ≡ on_state (with_alarms a b r) (cause_alarm g s)
  unfolding cause_alarm on_kernel
  cause_alarm-alarms g s = by_sleep s.syn_al_alive
    where
      send : Cmd Clock (Unit {0})
      send = on_kernel (mini_send g.config g.clock g.syn_alrm_task g.mess_ptr) >>= (λ _. pure tt)

      by_sleep :
          (alive : Bool)
          → (if alive then pure tt else send) (record (with_alarms a b r s) {
            syn_table = at_slot s.syn_table s.watchdog_proc true;
          })
            ≡ on_state (with_alarms a b r) (
                (if alive then pure tt else send)
                  (record s { syn_table = at_slot s.syn_table s.watchdog_proc true }))
      by_sleep true = refl
      by_sleep false =
          put_kernel-alarms (mini_send g.config g.clock g.syn_alrm_task g.mess_ptr s.kernel)
            (record s { syn_table = at_slot s.syn_table s.watchdog_proc true }) (λ _ t. ok tt t)
            (λ x t. refl)

  -- What happens when an alarm goes off does not depend on the alarms, and leaves them.
  pub fire-alarms :
      (g : Setting) (p : Ptr) (s : Clock)
      → fire g p (with_alarms a b r s) ≡ on_state (with_alarms a b r) (fire g p s)
  unfolding fire on_kernel
  fire-alarms g p s = by_watchdog (s.watch_dog p)
    where
      by_watchdog :
          (w : Watchdog)
          → (elim w as (λ _. Run Clock (Unit {0})) [
            | signal ↦
                put_kernel
                  (with_alarms a b r s)
                  (cause_sig g.config g.inform_ptr p g.sigalrm s.kernel)
            | alarm_task ↦ cause_alarm g (record (with_alarms a b r s) { watchdog_proc = p })
            | task_function f ↦
                put_kernel
                  (record (with_alarms a b r s) { watchdog_proc = p })
                  (g.call_function f s.kernel)
          ])
            ≡ on_state (with_alarms a b r) (elim w as (λ _. Run Clock (Unit {0})) [
              | signal ↦ put_kernel s (cause_sig g.config g.inform_ptr p g.sigalrm s.kernel)
              | alarm_task ↦ cause_alarm g (record s { watchdog_proc = p })
              | task_function f ↦
                  put_kernel (record s { watchdog_proc = p }) (g.call_function f s.kernel)
            ])
      by_watchdog signal =
          run_kernel-alarms (cause_sig g.config g.inform_ptr p g.sigalrm s.kernel) s
      by_watchdog alarm_task = cause_alarm-alarms g (record s { watchdog_proc = p })
      by_watchdog (task_function f) =
          run_kernel-alarms (g.call_function f s.kernel) (record s { watchdog_proc = p })
