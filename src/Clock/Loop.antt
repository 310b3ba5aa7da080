-- ===== src/Clock/Loop.antt =====
-- The loop of `do_clocktick` in kernel/clock.c over the alarms, and what is due in it.
use soi_laboratoria_2025z.Base.{
  ℕ, zero, suc, ◌+◌, ◌≤◌, ◌≡◌, inl, inr, refl, ap, fun_ext, ◌∙◌, Bool, true, false, not, ◌&&◌, ltb,
  leb, ◌==◌, if◌then◌else◌, List, [], ◌∷◌, arith, Bool-cases, Run, ok, panic, fault, out_of_fuel,
  Cmd, pure, and_then, ◌>>◌,
}
use soi_laboratoria_2025z.Kernel.Defs.{Ptr}
use soi_laboratoria_2025z.Clock.Defs.{
  Clock, Setting, at_slot, rank, earliest, fire, clear_alarm, note_next, alarm_loop,
}
use soi_laboratoria_2025z.Clock.Fire.{with_alarms, on_state, fire-alarms}

-- An alarm that is set and whose time has come.
abbrev pub is_due : (alarm now : ℕ) → Bool
is_due alarm now = not (alarm == 0) && leb (rank alarm) (rank now)

-- The slots with such an alarm among the last `n`, from `rp` on.
unfoldable pub due : (alarm : Ptr → ℕ) → (now n : ℕ) → (rp : Ptr) → List Ptr
due alarm now zero rp = []
due alarm now (suc n) rp =
    let rest = due alarm now n (suc rp) in if is_due (alarm rp) now then rp ∷ rest else rest

-- The alarms without those.
unfoldable pub still_set : (alarm : Ptr → ℕ) → (now n : ℕ) → (rp : Ptr) → Ptr → ℕ
still_set alarm now n rp p =
    if (leb rp p && ltb p (rp + n)) && is_due (alarm p) now then 0 else alarm p

-- What happens for one process after the other.
unfoldable pub fire_all : Setting → List Ptr → Cmd Clock (Unit {0})
unfolding fire
fire_all g [] = pure tt
fire_all g (p ∷ ps) = fire g p >> fire_all g ps

-- Facts on the tables of alarms along the loop.
due-frame :
    (a a' : Ptr → ℕ) (now n : ℕ) (rp : Ptr)
    → ((p : Ptr) → rp ≤ p → a' p ≡ a p)
    → due a' now n rp ≡ due a now n rp
unfolding due
due-frame a a' now zero rp same = refl
due-frame a a' now (suc n) rp same =
    rw (same rp (omega arith), due-frame a a' now n (suc rp) (λ p le. same p (omega arith))) refl

-- The alarms after the loop, as the loop makes them.
unfoldable pub swept : (alarm : Ptr → ℕ) → (now n : ℕ) → (rp : Ptr) → Ptr → ℕ
unfolding at_slot
swept alarm now zero rp = alarm
swept alarm now (suc n) rp =
    swept (if is_due (alarm rp) now then at_slot alarm rp 0 else alarm) now n (suc rp)

pub swept-still_set :
    (alarm : Ptr → ℕ) (now n : ℕ) (rp p : Ptr) → swept alarm now n rp p ≡ still_set alarm now n rp p
unfolding swept still_set at_slot
swept-still_set alarm now zero rp p = ground arith
swept-still_set alarm now (suc n) rp p = elim (Bool-cases (is_due (alarm rp) now)) [
  | inl hit ↦ rw hit (ground (arith, hit, swept-still_set (at_slot alarm rp 0) now n (suc rp) p))
  | inr miss ↦ rw miss (ground (arith, miss, swept-still_set alarm now n (suc rp) p))
]

earliest-frame :
    (a a' : Ptr → ℕ) (next n : ℕ) (rp : Ptr)
    → ((p : Ptr) → a' p ≡ a p)
    → earliest a' next n rp ≡ earliest a next n rp
earliest-frame a a' next n rp same = ap (λ t. earliest t next n rp) (fun_ext same)

-- The next alarm when the loop has passed `rp`.
abbrev passed : (alarm : Ptr → ℕ) → (next : ℕ) → Ptr → ℕ
passed a b rp = if not (a rp == 0) && ltb (rank (a rp)) (rank b) then a rp else b

swept_here : (alarm : Ptr → ℕ) (now n : ℕ) (rp : Ptr) → swept alarm now n (suc rp) rp ≡ alarm rp
unfolding still_set
swept_here alarm now n rp = swept-still_set alarm now n (suc rp) rp ∙ ground arith

module _ (g : Setting) (r n : ℕ) (rp : Ptr) where
  -- After the alarm of `rp` has gone off.
  loop_fired :
      (a : Ptr → ℕ) (b : ℕ) (t : Clock)
      → and_then
          (clear_alarm rp (with_alarms a b r t))
          (λ _. note_next rp >> alarm_loop g n (suc rp))
        ≡ alarm_loop g n (suc rp) (with_alarms (at_slot a rp 0) b r t)
  unfolding clear_alarm note_next at_slot
  loop_fired a b t = let h : (rp == rp) ≡ true = ground arith in rw h refl

  loop_due :
      (a : Ptr → ℕ) (b : ℕ) (s : Clock)
      → is_due (a rp) r ≡ true
      → alarm_loop g (suc n) rp (with_alarms a b r s)
        ≡ and_then
            (fire g rp s)
            (λ _ t. alarm_loop g n (suc rp) (with_alarms (at_slot a rp 0) b r t))
  unfolding alarm_loop
  loop_due a b s h = rw (h, fire-alarms a b r g rp s) (by_run (fire g rp s))
    where
      by_run :
          (q : Run Clock (Unit {0}))
          → and_then
              (and_then (on_state (with_alarms a b r) q) (λ _. clear_alarm rp))
              (λ _. note_next rp >> alarm_loop g n (suc rp))
            ≡ and_then q (λ _ t. alarm_loop g n (suc rp) (with_alarms (at_slot a rp 0) b r t))
      by_run (ok _ t) = loop_fired a b t
      by_run panic = refl
      by_run fault = refl
      by_run out_of_fuel = refl

  loop_not_due :
      (a : Ptr → ℕ) (b : ℕ) (s : Clock)
      → is_due (a rp) r ≡ false
      → alarm_loop g (suc n) rp (with_alarms a b r s)
        ≡ alarm_loop g n (suc rp) (with_alarms a (passed a b rp) r s)
  unfolding alarm_loop note_next
  loop_not_due a b s h = rw h refl

module _ (a : Ptr → ℕ) (b r n : ℕ) (rp : Ptr) where
  due_hit : is_due (a rp) r ≡ true → due a r (suc n) rp ≡ rp ∷ due (at_slot a rp 0) r n (suc rp)
  unfolding due at_slot
  due_hit h = rw (h, due-frame a (at_slot a rp 0) r n (suc rp) (λ p le. ground arith)) refl

  due_miss : is_due (a rp) r ≡ false → due a r (suc n) rp ≡ due a r n (suc rp)
  unfolding due
  due_miss h = rw h refl

  swept_hit : is_due (a rp) r ≡ true → swept a r (suc n) rp ≡ swept (at_slot a rp 0) r n (suc rp)
  unfolding swept
  swept_hit h = rw h refl

  swept_miss : is_due (a rp) r ≡ false → swept a r (suc n) rp ≡ swept a r n (suc rp)
  unfolding swept
  swept_miss h = rw h refl

  earliest_step : (t : Ptr → ℕ) → earliest t b (suc n) rp ≡ earliest t (passed t b rp) n (suc rp)
  unfolding earliest
  earliest_step t = refl

  passed_hit : passed (swept (at_slot a rp 0) r n (suc rp)) b rp ≡ b
  unfolding at_slot
  passed_hit = rw (swept_here (at_slot a rp 0) r n rp) (ground arith)

  passed_miss : passed (swept a r n (suc rp)) b rp ≡ passed a b rp
  passed_miss = rw (swept_here a r n rp) refl

module _ (g : Setting) (r n : ℕ) (rp : Ptr) (a : Ptr → ℕ) (b : ℕ) where
  -- What `alarm_loop-fires` says of `n` rounds.
  abbrev pub LoopFires : Clock → Type 0
  LoopFires s =
      alarm_loop g n rp (with_alarms a b r s)
      ≡ on_state (with_alarms (swept a r n rp) (earliest (swept a r n rp) b n rp) r)
          (fire_all g (due a r n rp) s)

  then_loop :
      ((s : Clock) → LoopFires s)
      → (q : Run Clock (Unit {0}))
      → and_then q (λ _ t. alarm_loop g n rp (with_alarms a b r t))
        ≡ on_state
            (with_alarms (swept a r n rp) (earliest (swept a r n rp) b n rp) r)
            (and_then q (λ _. fire_all g (due a r n rp)))
  then_loop all (ok _ t) = all t
  then_loop all panic = refl
  then_loop all fault = refl
  then_loop all out_of_fuel = refl

no_rounds :
    (g : Setting) (r : ℕ) (rp : Ptr) (a : Ptr → ℕ) (b : ℕ) (s : Clock) → LoopFires g r zero rp a b s
unfolding alarm_loop due swept earliest fire_all
no_rounds g r rp a b s = refl

-- The loop fires what is due, one process after the other, and leaves the alarms that are not due and the
-- earliest of them.
pub alarm_loop-fires :
    (g : Setting) (r n : ℕ) (rp : Ptr) (a : Ptr → ℕ) (b : ℕ) (s : Clock) → LoopFires g r n rp a b s
unfolding fire_all
alarm_loop-fires g r zero rp a b s = no_rounds g r rp a b s
alarm_loop-fires g r (suc n) rp a b s = elim (Bool-cases (is_due (a rp) r)) [
  | inl hit ↦
      rw
        (
          loop_due g r n rp a b s hit,
          due_hit a b r n rp hit,
          swept_hit a b r n rp hit,
          earliest_step a b r n rp (swept (at_slot a rp 0) r n (suc rp)),
          passed_hit a b r n rp,
        )
        (then_loop g r n (suc rp) (at_slot a rp 0) b
          (alarm_loop-fires g r n (suc rp) (at_slot a rp 0) b) (fire g rp s))
  | inr miss ↦
      rw
        (
          loop_not_due g r n rp a b s miss,
          due_miss a b r n rp miss,
          swept_miss a b r n rp miss,
          earliest_step a b r n rp (swept a r n (suc rp)),
          passed_miss a b r n rp,
        )
        (alarm_loop-fires g r n (suc rp) a (passed a b rp) s)
]
