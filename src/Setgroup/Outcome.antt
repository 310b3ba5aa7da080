-- ===== src/Setgroup/Outcome.antt =====
-- The results of `do_setgroup` of mm/misc.c with that of kernel/system.c.
use soi_laboratoria_2025z.Base.{
  ℕ, zero, suc, ◌+◌, ◌≤◌, ◌<◌, ◌≡◌, ◌≢◌, ◌⊎◌, inl, inr, refl, sym, ap, ◌∙◌, Bool, true, false,
  Option, none, some, List, [], ◌∷◌, get_elem?, set, length, ◌==◌, if◌then◌else◌, arith, Bool-cases,
  ok, Returns, returns,
}
use soi_laboratoria_2025z.Kernel.Defs.{
  nil_proc, ppri_none, ppri_task, ppri_server, ppri_user, ppri_idle, Priority, Proc, State, is_user,
  load, store, write,
}
use soi_laboratoria_2025z.Setgroup.{
  Reply, done, esrch, einval, kernel_setgroup, MmProc, find_pid, target, is_accepted, with_group,
  set_group_of, setgroup_at, do_setgroup,
}

-- The slot of the table of the memory manager that is meant: the caller's for 0, and else the first with the
-- process id.
abbrev pub Meant : (who mp : ℕ) → List MmProc → ℕ → Type 0
Meant who mp ps nr =
    ((who ≡ 0) × (nr ≡ mp))
    ⊎ ((p : MmProc) × (get_elem? ps nr ≡ some p)
        × (p.mp_pid ≡ who)
        × ((i : ℕ) (q : MmProc) → i < nr → get_elem? ps i ≡ some q → q.mp_pid ≢ who))

-- The state of the kernel with the process in its new group.
abbrev pub in_new_group : State → (rp group estimate : ℕ) → State
in_new_group s rp group estimate = record s {
  proc = write s.proc rp (record (s.proc rp) {
    sched_group = group;
    wait_ticks = 0;
    rr_counter = 0;
    cpu_estimate = if group == 3 then estimate else 100;
  });
}

-- The group is 1, 2 or 3, and a group of the shortest job first, 3, comes with an estimate.
abbrev pub InRange : (group estimate : ℕ) → Type 0
InRange group estimate = (1 ≤ group) × (group ≤ 3) × (group ≡ 3 → 1 ≤ estimate)

-- The table `ps'` is `ps` with the group in the slot `nr`, where there is one.
pub record Noted (ps : List MmProc) (nr group : ℕ) (ps' : List MmProc) : Type 0 where
  pub size : length ps' ≡ length ps
  pub here :
      (p : MmProc)
      → get_elem? ps nr ≡ some p
      → get_elem? ps' nr ≡ some (record { mp_pid = p.mp_pid; mp_sched_group = group })
  pub others : (i : ℕ) → i ≢ nr → get_elem? ps' i ≡ get_elem? ps i

-- The results of the call: the reply, with the table of the memory manager, and the state of the kernel.
pub data SetOutcome (nr_tasks mp who group estimate : ℕ) (ps : List MmProc) (s : State)
    : Reply × List MmProc → State → Type 0 where
  no_process :
      who ≢ 0
      → ((i : ℕ) (q : MmProc) → get_elem? ps i ≡ some q → q.mp_pid ≢ who)
      → SetOutcome nr_tasks mp who group estimate ps s (esrch, ps) s
  bad_arguments :
      (nr : ℕ)
      → Meant who mp ps nr
      → ¬ InRange group estimate
      → SetOutcome nr_tasks mp who group estimate ps s (einval, ps) s
  refused :
      (nr : ℕ) (ps' : List MmProc)
      → Meant who mp ps nr
      → InRange group estimate
      → (s.proc (nr_tasks + 1 + nr)).p_priority ≢ ppri_user
      → Noted ps nr group ps'
      → SetOutcome nr_tasks mp who group estimate ps s (einval, ps') s
  changed :
      (nr : ℕ) (ps' : List MmProc)
      → Meant who mp ps nr
      → InRange group estimate
      → (s.proc (nr_tasks + 1 + nr)).p_priority ≡ ppri_user
      → Noted ps nr group ps'
      → SetOutcome nr_tasks mp who group estimate ps s
          (done, ps')
          (in_new_group s (nr_tasks + 1 + nr) group estimate)

some-injective : {p q : MmProc} → some p ≡ some q → p ≡ q
some-injective h = cc

accepted-InRange : (group estimate : ℕ) → is_accepted group estimate ≡ true → InRange group estimate
unfolding is_accepted
accepted-InRange group estimate a =
    (ground (arith, a), ground (arith, a), λ h. ground (arith, a, h))

refused-InRange :
    (group estimate : ℕ) → is_accepted group estimate ≡ false → ¬ InRange group estimate
unfolding is_accepted
refused-InRange group estimate a (lo, hi, e) = ground (arith, a, lo, hi, e)

-- `set` at a slot of the table.
set-length : (ps : List MmProc) (nr : ℕ) (q : MmProc) → length (set ps nr q) ≡ length ps
set-length [] nr q = refl
set-length (p ∷ ps) zero q = refl
set-length (p ∷ ps) (suc nr) q = ap suc (set-length ps nr q)

set-here :
    (ps : List MmProc) (nr : ℕ) (p q : MmProc)
    → get_elem? ps nr ≡ some p
    → get_elem? (set ps nr q) nr ≡ some q
set-here [] nr p q h = cc
set-here (x ∷ ps) zero p q h = refl
set-here (x ∷ ps) (suc nr) p q h = set-here ps nr p q h

set-other :
    (ps : List MmProc) (nr i : ℕ) (q : MmProc) → i ≢ nr → get_elem? (set ps nr q) i ≡ get_elem? ps i
set-other [] nr i q n = refl
set-other (x ∷ ps) zero zero q n = absurd (n refl)
set-other (x ∷ ps) zero (suc i) q n = refl
set-other (x ∷ ps) (suc nr) zero q n = refl
set-other (x ∷ ps) (suc nr) (suc i) q n = set-other ps nr i q (λ e. n (ap suc e))

with_group-Noted :
    (ps : List MmProc) (nr group : ℕ) (o : Option MmProc)
    → get_elem? ps nr ≡ o
    → Noted ps nr group (with_group ps nr group o)
with_group-Noted ps nr group none h = record { size = refl; here = λ p e. cc; others = λ i n. refl }
with_group-Noted ps nr group (some q) h = record {
  size = set-length ps nr (record q { mp_sched_group = group });
  here = λ p e.
      let same : q ≡ p = some-injective (sym h ∙ e) in
      rw same (set-here ps nr p (record p { mp_sched_group = group }) e);
  others = λ i n. set-other ps nr i (record q { mp_sched_group = group }) n;
}

user_priority : (p : Proc) → is_user p ≡ true → p.p_priority ≡ ppri_user
unfolding is_user
user_priority p h = by_priority p.p_priority h
  where
    by_priority :
        (k : Priority)
        → (elim k as (λ _. Bool) [
          | ppri_none ↦ false
          | ppri_task ↦ false
          | ppri_server ↦ false
          | ppri_user ↦ true
          | ppri_idle ↦ false
        ])
          ≡ true
        → k ≡ ppri_user
    by_priority ppri_none e = cc
    by_priority ppri_task e = cc
    by_priority ppri_server e = cc
    by_priority ppri_user e = refl
    by_priority ppri_idle e = cc

other_priority : (p : Proc) → is_user p ≡ false → p.p_priority ≢ ppri_user
unfolding is_user
other_priority p h e = let g : true ≡ false = rw e at h in cc

-- What `find_pid` gives, in the table from the slot `nr` on.
abbrev Found : (who nr : ℕ) → List MmProc → Option ℕ → Type 0
Found who nr ps none = (i : ℕ) (q : MmProc) → get_elem? ps i ≡ some q → q.mp_pid ≢ who
Found who nr ps (some k) =
    (i : ℕ) × (k ≡ nr + i)
    × ((p : MmProc) × (get_elem? ps i ≡ some p)
        × (p.mp_pid ≡ who)
        × ((j : ℕ) (q : MmProc) → j < i → get_elem? ps j ≡ some q → q.mp_pid ≢ who))

Found-∷ :
    (who nr : ℕ) (p : MmProc) (ps : List MmProc) (o : Option ℕ)
    → p.mp_pid ≢ who
    → Found who (suc nr) ps o
    → Found who nr (p ∷ ps) o
Found-∷ who nr p ps none other f = elim [
  | zero ↦ λ q h e. other (rw (some-injective h) e)
  | suc i ↦ λ q h. f i q h
]
Found-∷ who nr p ps (some k) other (i, at, (q, h, same, first)) = (
  suc i,
  omega arith,
  (
    q,
    h,
    same,
    elim [
      | zero ↦ λ r lt h' e. other (rw (some-injective h') e)
      | suc j ↦ λ r lt h'. first j r (omega arith) h'
    ],
  ),
)

find_pid-Found : (who nr : ℕ) (ps : List MmProc) → Found who nr ps (find_pid who nr ps)
unfolding find_pid
find_pid-Found who nr [] = λ i q h. cc
find_pid-Found who nr (p ∷ ps) = elim (Bool-cases (p.mp_pid == who)) [
  | inl hit ↦
      rw hit (0, omega arith, (p, refl, ground (arith, hit), λ j q lt. absurd (omega arith)))
  | inr miss ↦
      let other : p.mp_pid ≢ who = λ e. ground (arith, miss, e) in
      rw miss
        (Found-∷ who nr p ps (find_pid who (suc nr) ps) other (find_pid-Found who (suc nr) ps))
]

abbrev Target : (who mp : ℕ) → List MmProc → Option ℕ → Type 0
Target who mp ps none =
    (who ≢ 0) × ((i : ℕ) (q : MmProc) → get_elem? ps i ≡ some q → q.mp_pid ≢ who)
Target who mp ps (some k) = Meant who mp ps k

Found-Target :
    (who mp : ℕ) (ps : List MmProc) (o : Option ℕ) → who ≢ 0 → Found who 0 ps o → Target who mp ps o
Found-Target who mp ps none ne f = (ne, f)
Found-Target who mp ps (some k) ne (i, at, rest) =
    let same : k ≡ i = omega arith in inr (rw same rest)

target-Target : (who mp : ℕ) (ps : List MmProc) → Target who mp ps (target who mp ps)
unfolding target
target-Target who mp ps = elim (Bool-cases (who == 0)) [
  | inl self ↦ rw self (inl (ground (arith, self), refl))
  | inr other ↦ rw other (
      Found-Target who mp ps (find_pid who 0 ps) (λ e. ground (arith, other, e))
        (find_pid-Found who 0 ps))
]

module _ (s : State) (nr group estimate : ℕ) (ne : nr ≢ nil_proc) where
  pub kernel_setgroup_user :
      is_user (s.proc nr) ≡ true
      → kernel_setgroup nr group estimate s ≡ ok done (in_new_group s nr group estimate)
  unfolding kernel_setgroup load store
  kernel_setgroup_user h = let e : (nr == 0) ≡ false = ground (arith, ne) in rw (e, h, e) refl

  kernel_setgroup_other :
      is_user (s.proc nr) ≡ false → kernel_setgroup nr group estimate s ≡ ok einval s
  unfolding kernel_setgroup load
  kernel_setgroup_other h = let e : (nr == 0) ≡ false = ground (arith, ne) in rw (e, h) refl

module _ (nr_tasks mp who group estimate : ℕ) (ps : List MmProc) (s : State) where
  set_group_of-Outcome :
      (nr : ℕ)
      → Meant who mp ps nr
      → InRange group estimate
      → Returns
          (SetOutcome nr_tasks mp who group estimate ps s)
          (set_group_of nr_tasks group estimate ps nr s)
  unfolding set_group_of
  set_group_of-Outcome nr m a =
      let rp = nr_tasks + 1 + nr in
      let noted = with_group-Noted ps nr group (get_elem? ps nr) refl in
      elim (Bool-cases (is_user (s.proc rp))) [
        | inl user ↦
            rw (kernel_setgroup_user s rp group estimate (omega arith) user)
              (returns (changed nr _ m a (user_priority (s.proc rp) user) noted))
        | inr task ↦
            rw (kernel_setgroup_other s rp group estimate (omega arith) task)
              (returns (refused nr _ m a (other_priority (s.proc rp) task) noted))
      ]

  setgroup_at-Outcome :
      (o : Option ℕ)
      → Target who mp ps o
      → Returns
          (SetOutcome nr_tasks mp who group estimate ps s)
          (setgroup_at nr_tasks group estimate ps o s)
  unfolding setgroup_at
  setgroup_at-Outcome none m = returns (no_process m.0 m.1)
  setgroup_at-Outcome (some nr) m = elim (Bool-cases (is_accepted group estimate)) [
    | inl a ↦ rw a (set_group_of-Outcome nr m (accepted-InRange group estimate a))
    | inr a ↦ rw a (returns (bad_arguments nr m (refused-InRange group estimate a)))
  ]

  -- A call of `do_setgroup` always returns. ESRCH says that `who` is not 0 and no slot has it as its process
  -- id. Otherwise a process is meant: the caller for 0, and else the first with the process id. EINVAL with
  -- nothing changed says that the group is not 1, 2 or 3, or that it is 3 and the estimate is 0. With other
  -- arguments the slot of the process in the table of the memory manager gets the group, and no other slot
  -- changes. Then EINVAL says that the kernel does not have it as a user process, and the kernel is
  -- as it was; on OK its group is the new one in the kernel too, its wait and its quantum begin again, its
  -- estimate is the given one for group 3 and else 100, and nothing else of the kernel changes.
  pub do_setgroup-Outcome :
      Returns
        (SetOutcome nr_tasks mp who group estimate ps s)
        (do_setgroup nr_tasks mp who group estimate ps s)
  unfolding do_setgroup
  do_setgroup-Outcome = setgroup_at-Outcome (target who mp ps) (target-Target who mp ps)
