-- ===== src/Messages/Runs.antt =====
-- Runs of the scheduler within the calls of kernel/proc.c and kernel/system.c.
use soi_laboratoria_2025z.Base.{
  ◌≡◌, ◌⊎◌, inl, inr, refl, subst, ◌∙◌, true, false, arith, Bool-cases, ok, panic, fault,
  out_of_fuel, Run, Cmd, bind, Returns, returns,
}
use soi_laboratoria_2025z.Kernel.Defs.{Ptr, State}
use soi_laboratoria_2025z.Kernel.Sched.{locked, set_switching}
use soi_laboratoria_2025z.Kernel.KeepFlags.{SameFlags, RunKeeps}
use soi_laboratoria_2025z.Messages.Defs.{Kernel, Config, load_proc, is_runnable, on_sched}
use soi_laboratoria_2025z.Messages.Calls.{if_runnable}
use soi_laboratoria_2025z.Messages.Path.{InTable}

-- The state that a run leaves, with the flags of `s`.
Returns-state :
    (s : State) (r : Run State (Unit {0}))
    → Returns (λ _ _. Unit {0}) r
    → RunKeeps s r
    → (s' : State) × (r ≡ ok tt s') × SameFlags s s'
unfolding RunKeeps
Returns-state s _ (returns {a = a} {s = s'} h) keep = (s', refl, keep)

-- What `if (p->p_flags == 0)` before a call `m` of the scheduler makes of its state.
abbrev pub Scheduled : (p : Ptr) → Cmd State (Unit {0}) → State → State → Type 0
Scheduled p m s s' =
    ((is_runnable (s.proc p).p_flags ≡ true) × (m s ≡ ok tt s'))
    ⊎ ((is_runnable (s.proc p).p_flags ≡ false) × (s' ≡ s))

module _ (c : Config) (k : Kernel) (p : Ptr) (t : InTable c p) (m : Cmd State (Unit {0})) where
  if_runnable-run : is_runnable (k.sched.proc p).p_flags ≡ true → if_runnable c p m k ≡ on_sched m k
  unfolding if_runnable load_proc
  if_runnable-run h = ground (arith, t.0, t.1, h)

  if_runnable-skip : is_runnable (k.sched.proc p).p_flags ≡ false → if_runnable c p m k ≡ ok tt k
  unfolding if_runnable load_proc
  if_runnable-skip h = ground (arith, t.0, t.1, h)

  on_sched-ok : (s' : State) → m k.sched ≡ ok tt s' → on_sched m k ≡ ok tt (record k { sched = s' })
  unfolding on_sched
  on_sched-ok s' h = rw (on_sched, h) refl

  pub if_runnable-sched :
      Returns (λ _ _. Unit {0}) (m k.sched)
      → RunKeeps k.sched (m k.sched)
      → (s' : State) × (if_runnable c p m k ≡ ok tt (record k { sched = s' }))
        × SameFlags k.sched s'
        × Scheduled p m k.sched s'
  if_runnable-sched r keep = elim (Bool-cases (is_runnable (k.sched.proc p).p_flags)) [
    | inl runs ↦
        let (s', e, f) = Returns-state k.sched (m k.sched) r keep in
        (s', if_runnable-run runs ∙ on_sched-ok s' e, f, inl (runs, e))
    | inr blocked ↦ (k.sched, if_runnable-skip blocked, (λ q. refl), inr (blocked, refl))
  ]

pub locked-Returns :
    (body : Cmd State (Unit {0})) (s : State) {P : Unit {0} → State → Type 0}
    → Returns P (body (record s { switching = true }))
    → Returns (λ a s'. (t : State) × P a t × (s' ≡ record t { switching = false })) (locked body s)
unfolding locked set_switching
locked-Returns body s r = bind r (λ a t p. returns (t, p, refl))

pub on_sched-Returns :
    (m : Cmd State (Unit {0})) (k : Kernel) {P : Unit {0} → State → Type 0}
    → Returns P (m k.sched)
    → Returns (λ a k'. (t : State) × P a t × (k' ≡ record k { sched = t })) (on_sched m k)
unfolding on_sched
on_sched-Returns m k {P} r = by_run (m k.sched) r
  where
    by_run :
        (q : Run State (Unit {0}))
        → Returns P q
        → Returns
            (λ a k'. (t : State) × P a t × (k' ≡ record k { sched = t }))
            (elim q [
              | ok a s ↦ ok a (record k { sched = s })
              | panic ↦ panic
              | fault ↦ fault
              | out_of_fuel ↦ out_of_fuel
            ])
    by_run (ok a s) (returns p) = returns (s, p, refl)
    by_run panic r' = elim r' [ ]
    by_run fault r' = elim r' [ ]
    by_run out_of_fuel r' = elim r' [ ]

pub with_flags :
    (s : State) (r : Run State (Unit {0})) {P : Unit {0} → State → Type 0}
    → Returns P r
    → RunKeeps s r
    → Returns (λ a t. P a t × SameFlags s t) r
unfolding RunKeeps
with_flags s (ok a t) (returns p) keep = returns (p, keep)
with_flags s panic r keep = elim r [ ]
with_flags s fault r keep = elim r [ ]
with_flags s out_of_fuel r keep = elim r [ ]

Returned : {S A : Type 0} {P : A → S → Type 0} (a : A) (s : S) → Returns P (ok a s) → P a s
Returned a s (returns p) = p

pub Returns-at :
    {S A : Type 0} {P : A → S → Type 0} {a : A} {s : S} (r : Run S A)
    → Returns P r
    → r ≡ ok a s
    → P a s
Returns-at {P} {a} {s} r h e = Returned a s (subst (λ q. Returns P q) e h)
