-- ===== src/Kernel/KeepFlags.antt =====
-- The scheduler of kernel/proc.c leaves `p_flags` of every process as they are.
use soi_laboratoria_2025z.Base.{
  ℕ, zero, suc, ◌≡◌, refl, ◌∙◌, ap, Bool, true, false, ◌==◌, if◌then◌else◌, Run, ok, panic, fault,
  out_of_fuel, Cmd, pure, and_then, ◌>>◌, arith, Bool-cases, inl, inr,
}
use soi_laboratoria_2025z.Kernel.Defs.{
  Ptr, nil_proc, Proc, Priority, ppri_none, ppri_task, ppri_server, ppri_user, ppri_idle, State,
  Queue, QueueId, load, store, write, in_group, set_next, get_queue, put_queue, get_proc_ptr,
  set_proc_ptr, run_and_bill, longest_wait, reset_wait, pick_group2, run_idle, pick_last, pick_user,
  pick_proc, enqueue, seek_estimate, task_q, server_q, user_q,
}
use soi_laboratoria_2025z.Kernel.Sched.{
  tail_if_last, insert_by_estimate, ready_with_group, ready_task, ready_front, ready, unlink,
  group_queue, unready_from_group, pick_if_running, unready_from, unready,
}

abbrev pub SameFlags : State → State → Type 0
SameFlags s s' = (p : Ptr) → (s'.proc p).p_flags ≡ (s.proc p).p_flags

-- A run that returns leaves the flags of `s`.
-- A run that returns leaves the flags of `s`.
unfoldable pub RunKeeps : {A : Type 0} → State → Run State A → Type 0
RunKeeps s (ok a s') = SameFlags s s'
RunKeeps s panic = Unit
RunKeeps s fault = Unit
RunKeeps s out_of_fuel = Unit

keeps_after :
    {A : Type 0} (s s' : State) (r : Run State A) → SameFlags s s' → RunKeeps s' r → RunKeeps s r
unfolding RunKeeps
keeps_after s s' (ok b t) h i = λ p. i p ∙ h p
keeps_after s s' panic h i = tt
keeps_after s s' fault h i = tt
keeps_after s s' out_of_fuel h i = tt

keeps_run :
    {A B : Type 0} (s : State) (r : Run State A) (k : A → Cmd State B)
    → RunKeeps s r
    → ((a : A) (s' : State) → RunKeeps s' (k a s'))
    → RunKeeps s (and_then r k)
unfolding RunKeeps
keeps_run s (ok a s') k h g = keeps_after s s' (k a s') h (g a s')
keeps_run s panic k h g = tt
keeps_run s fault k h g = tt
keeps_run s out_of_fuel k h g = tt

keeps_if :
    {A : Type 0} (b : Bool) (c d : Cmd State A) (s : State)
    → RunKeeps s (c s)
    → RunKeeps s (d s)
    → RunKeeps s ((if b then c else d) s)
keeps_if true c d s h g = h
keeps_if false c d s h g = g

keeps_ok : {A : Type 0} (a : A) (s s' : State) → s'.proc ≡ s.proc → RunKeeps s (ok a s')
unfolding RunKeeps
keeps_ok a s s' h = λ p. ap (λ t. (t p).p_flags) h

load-RunKeeps : (p : Ptr) (s : State) → RunKeeps s (load p s)
unfolding load RunKeeps
load-RunKeeps p s = elim (Bool-cases (p == nil_proc)) [
  | inl nil ↦ rw nil tt
  | inr there ↦ rw there (λ q. refl)
]

store-RunKeeps :
    (p : Ptr) (v : Proc) (s : State) → v.p_flags ≡ (s.proc p).p_flags → RunKeeps s (store p v s)
unfolding store write RunKeeps
store-RunKeeps p v s h = elim (Bool-cases (p == nil_proc)) [
  | inl nil ↦ rw nil tt
  | inr there ↦ rw there (λ q. elim (Bool-cases (q == p)) [
    | inl hit ↦ let same : q ≡ p = ground arith in rw (hit, same) h
    | inr miss ↦ rw miss refl
  ])
]

-- `p->field = ...` of a field other than the flags.
update-RunKeeps :
    (p : Ptr) (g : Proc → Proc) (s : State)
    → ((v : Proc) → (g v).p_flags ≡ v.p_flags)
    → RunKeeps s (and_then (load p s) (λ v. store p (g v)))
unfolding load RunKeeps
update-RunKeeps p g s h = elim (Bool-cases (p == nil_proc)) [
  | inl nil ↦ rw nil tt
  | inr there ↦ rw there (store-RunKeeps p (g (s.proc p)) s (h (s.proc p)))
]

set_next-RunKeeps : (p q : Ptr) (s : State) → RunKeeps s (set_next p q s)
unfolding set_next
set_next-RunKeeps p q s = update-RunKeeps p (λ v. record v { p_nextready = q }) s (λ v. refl)

reset_wait-RunKeeps : (p : Ptr) (s : State) → RunKeeps s (reset_wait p s)
unfolding reset_wait
reset_wait-RunKeeps p s = update-RunKeeps p (λ v. record v { wait_ticks = 0 }) s (λ v. refl)

get_queue-RunKeeps : (q : QueueId) (s : State) → RunKeeps s (get_queue q s)
unfolding get_queue
get_queue-RunKeeps q s = keeps_ok _ s s refl

put_queue-RunKeeps : (q : QueueId) (v : Queue) (s : State) → RunKeeps s (put_queue q v s)
unfolding put_queue
put_queue-RunKeeps q v s = keeps_ok _ s _ refl

pure-RunKeeps : {A : Type 0} (a : A) (s : State) → RunKeeps s (pure a s)
pure-RunKeeps a s = keeps_ok a s s refl

ruleset keeps = (
  keeps_run, keeps_if, load-RunKeeps, set_next-RunKeeps, reset_wait-RunKeeps, get_queue-RunKeeps,
  put_queue-RunKeeps, pure-RunKeeps,
)

enqueue-RunKeeps : (q : QueueId) (rp : Ptr) (s : State) → RunKeeps s (enqueue q rp s)
unfolding enqueue
enqueue-RunKeeps q rp s = search (keeps)

set_proc_ptr-RunKeeps : (p : Ptr) (s : State) → RunKeeps s (set_proc_ptr p s)
unfolding set_proc_ptr
set_proc_ptr-RunKeeps p s = keeps_ok _ s _ refl

get_proc_ptr-RunKeeps : (s : State) → RunKeeps s (get_proc_ptr s)
unfolding get_proc_ptr
get_proc_ptr-RunKeeps s = keeps_ok _ s s refl

run_and_bill-RunKeeps : (p : Ptr) (s : State) → RunKeeps s (run_and_bill p s)
unfolding run_and_bill
run_and_bill-RunKeeps p s = keeps_ok _ s _ refl

run_idle-RunKeeps : (s : State) → RunKeeps s (run_idle s)
unfolding run_idle
run_idle-RunKeeps s = keeps_ok _ s _ refl

no_fuel-RunKeeps : (A : Type 0) (s : State) → RunKeeps {A = A} s out_of_fuel
unfolding RunKeeps
no_fuel-RunKeeps A s = tt

panic-RunKeeps : (A : Type 0) (s : State) → RunKeeps {A = A} s panic
unfolding RunKeeps
panic-RunKeeps A s = tt

ruleset small = (
  keeps, set_proc_ptr-RunKeeps, get_proc_ptr-RunKeeps, run_and_bill-RunKeeps, run_idle-RunKeeps,
  no_fuel-RunKeeps, panic-RunKeeps, enqueue-RunKeeps,
)

longest_wait-RunKeeps : (fuel : ℕ) (rp c : Ptr) (s : State) → RunKeeps s (longest_wait fuel rp c s)
unfolding longest_wait
longest_wait-RunKeeps zero rp c s = search (small)
longest_wait-RunKeeps (suc fuel) rp c s = search (small, longest_wait-RunKeeps fuel)

pick_group2-RunKeeps : (fuel : ℕ) (h : Ptr) (s : State) → RunKeeps s (pick_group2 fuel h s)
unfolding pick_group2
pick_group2-RunKeeps fuel h s = search (small, longest_wait-RunKeeps)

pick_last-RunKeeps : (s : State) → RunKeeps s (pick_last s)
unfolding pick_last
pick_last-RunKeeps s = search (small)

pick_user-RunKeeps : (fuel : ℕ) (s : State) → RunKeeps s (pick_user fuel s)
unfolding pick_user
pick_user-RunKeeps fuel s = search (small, pick_group2-RunKeeps, pick_last-RunKeeps)

pub pick_proc-RunKeeps : (fuel : ℕ) (s : State) → RunKeeps s (pick_proc fuel s)
unfolding pick_proc
pick_proc-RunKeeps fuel s = search (small, pick_user-RunKeeps)

seek_estimate-RunKeeps :
    (fuel e : ℕ) (prev c : Ptr) (s : State) → RunKeeps s (seek_estimate fuel e prev c s)
unfolding seek_estimate
seek_estimate-RunKeeps zero e prev c s = search (small)
seek_estimate-RunKeeps (suc fuel) e prev c s = search (small, seek_estimate-RunKeeps fuel)

tail_if_last-RunKeeps : (rp : Ptr) (s : State) → RunKeeps s (tail_if_last rp s)
unfolding tail_if_last
tail_if_last-RunKeeps rp s = search (small)

insert_by_estimate-RunKeeps :
    (fuel : ℕ) (rp : Ptr) (s : State) → RunKeeps s (insert_by_estimate fuel rp s)
unfolding insert_by_estimate
insert_by_estimate-RunKeeps fuel rp s =
    search (small, seek_estimate-RunKeeps, tail_if_last-RunKeeps) depth 12 fits 4000

ready_with_group-RunKeeps :
    (fuel : ℕ) (rp : Ptr) (s : State) → RunKeeps s (ready_with_group fuel rp s)
unfolding ready_with_group
ready_with_group-RunKeeps fuel rp s = search (small, insert_by_estimate-RunKeeps)

ready_task-RunKeeps : (rp : Ptr) (s : State) → RunKeeps s (ready_task rp s)
unfolding ready_task
ready_task-RunKeeps rp s = search (small)

ready_front-RunKeeps : (rp : Ptr) (s : State) → RunKeeps s (ready_front rp s)
unfolding ready_front
ready_front-RunKeeps rp s = search (small)

pub ready-RunKeeps : (fuel : ℕ) (rp : Ptr) (s : State) → RunKeeps s (ready fuel rp s)
unfolding ready
ready-RunKeeps fuel rp s =
    keeps_run s _ _ (load-RunKeeps rp s) (λ p s'. by_priority p.p_priority p s')
  where
    by_priority :
        (k : Priority) (p : Proc) (t : State)
        → RunKeeps t (
            (elim k as (λ _. Cmd State (Unit {0})) [
              | ppri_task ↦ ready_task rp
              | ppri_server ↦ enqueue server_q rp
              | ppri_user ↦ if in_group p then ready_with_group fuel rp else ready_front rp
              | ppri_none ↦ ready_front rp
              | ppri_idle ↦ ready_front rp
            ])
              t)
    by_priority ppri_task p t = ready_task-RunKeeps rp t
    by_priority ppri_server p t = enqueue-RunKeeps server_q rp t
    by_priority ppri_user p t =
        keeps_if (in_group p) _ _ t (ready_with_group-RunKeeps fuel rp t)
          (ready_front-RunKeeps rp t)
    by_priority ppri_none p t = ready_front-RunKeeps rp t
    by_priority ppri_idle p t = ready_front-RunKeeps rp t

unlink-RunKeeps :
    (fuel : ℕ) (rp xp : Ptr) (q : QueueId) (s : State) → RunKeeps s (unlink fuel rp xp q s)
unfolding unlink
unlink-RunKeeps zero rp xp q s = search (small)
unlink-RunKeeps (suc fuel) rp xp q s = search (small, unlink-RunKeeps fuel) depth 12 fits 4000

unready_from_group-RunKeeps :
    (fuel : ℕ) (rp : Ptr) (q : QueueId) (s : State) → RunKeeps s (unready_from_group fuel rp q s)
unfolding unready_from_group
unready_from_group-RunKeeps fuel rp q s = search (small, unlink-RunKeeps)

pick_if_running-RunKeeps :
    (fuel : ℕ) (rp : Ptr) (s : State) → RunKeeps s (pick_if_running fuel rp s)
unfolding pick_if_running
pick_if_running-RunKeeps fuel rp s = search (small, pick_proc-RunKeeps)

unready_from-RunKeeps :
    (fuel : ℕ) (b : Bool) (rp : Ptr) (q : QueueId) (s : State)
    → RunKeeps s (unready_from fuel b rp q s)
unfolding unready_from
unready_from-RunKeeps fuel b rp q s =
    search (small, unlink-RunKeeps, pick_proc-RunKeeps, pick_if_running-RunKeeps) depth 12 fits 4000

pub unready-RunKeeps : (fuel : ℕ) (rp : Ptr) (s : State) → RunKeeps s (unready fuel rp s)
unfolding unready
unready-RunKeeps fuel rp s =
    keeps_run s _ _ (load-RunKeeps rp s) (λ p s'. by_priority p.p_priority p s')
  where
    by_priority :
        (k : Priority) (p : Proc) (t : State)
        → RunKeeps t (
            (elim k as (λ _. Cmd State (Unit {0})) [
              | ppri_task ↦ if p.stack_ok then unready_from fuel false rp task_q else (λ _. panic)
              | ppri_server ↦ unready_from fuel true rp server_q
              | ppri_user ↦
                  if in_group p
                  then unready_from_group fuel rp (group_queue p.sched_group)
                    >> pick_if_running fuel rp
                  else unready_from fuel true rp user_q
              | ppri_none ↦ unready_from fuel true rp user_q
              | ppri_idle ↦ unready_from fuel true rp user_q
            ])
              t)
    by_priority ppri_task p t =
        keeps_if p.stack_ok _ _ t (unready_from-RunKeeps fuel false rp task_q t)
          (panic-RunKeeps _ t)
    by_priority ppri_server p t = unready_from-RunKeeps fuel true rp server_q t
    by_priority ppri_user p t =
        keeps_if (in_group p) _ _ t
          (keeps_run t _ _ (unready_from_group-RunKeeps fuel rp (group_queue p.sched_group) t)
            (λ _ t'. pick_if_running-RunKeeps fuel rp t'))
          (unready_from-RunKeeps fuel true rp user_q t)
    by_priority ppri_none p t = unready_from-RunKeeps fuel true rp user_q t
    by_priority ppri_idle p t = unready_from-RunKeeps fuel true rp user_q t
