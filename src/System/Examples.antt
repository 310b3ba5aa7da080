-- ===== src/System/Examples.antt =====
-- `do_xit` of kernel/system.c for a process that waits to send to FS behind its parent.
use soi_laboratoria_2025z.Base.{
  ◌≡◌, inl, inr, refl, true, false, List, [], ◌∷◌, arith, ◌==◌, if◌then◌else◌, Returns, Bool-cases,
  ◌⊎◌,
}
use soi_laboratoria_2025z.Kernel.Defs.{Ptr, nil_proc, ppri_user, is_user}
use soi_laboratoria_2025z.Messages.Defs.{Kernel, Config, is_runnable}
use soi_laboratoria_2025z.Messages.Path.{is_sending, NoCycle}
use soi_laboratoria_2025z.Messages.Queues.{Callers}
use soi_laboratoria_2025z.Messages.Examples.{small, flags, process, talk_of, sched_of, kernel_of}
use soi_laboratoria_2025z.Clock.Defs.{signal}
use soi_laboratoria_2025z.System.Defs.{System, do_xit, do_endsig}
use soi_laboratoria_2025z.System.Endsig.{SignalEnded, do_endsig-SignalEnded}
use soi_laboratoria_2025z.System.Exit.{Ended, do_xit-Ended}

-- Slots 4 and 5 are user processes; both are blocked sending to FS, 4 first.
abbrev five : Config
five = record small { procs = 5 }

abbrev two_senders : Kernel
two_senders =
    kernel_of
      (record (sched_of 3 (flags false false) (flags true false)) {
        proc = λ p.
            if p == 5
            then process ppri_user 1 (flags true false)
            else (sched_of 3 (flags false false) (flags true false)).proc p;
      })
      (λ p.
        if p == 3
        then talk_of 4 0
        else if p == 4
        then record (talk_of nil_proc 3) { p_sendlink = 5 }
        else if p == 5
        then talk_of nil_proc 3
        else talk_of nil_proc 0)

abbrev fs_queue : Ptr → List Ptr
fs_queue d = if d == 3 then 4 ∷ 5 ∷ [] else []

senders : (x : Ptr) → is_sending two_senders x ≡ true → (x ≡ 4) ⊎ (x ≡ 5)
senders x s = elim (Bool-cases (x == 4)) [
  | inl e ↦ inl (ground arith)
  | inr n ↦ inr (ground (arith, n, s))
]

two_senders-Callers : Callers five two_senders fs_queue
two_senders-Callers = record {
  links = λ d t. elim (Bool-cases (d == 3)) [
    | inl e ↦
        let h : d ≡ 3 = ground arith in
        rw h (refl, (omega arith, omega arith), (refl, (omega arith, omega arith), refl))
    | inr n ↦ rw n (ground (arith, n))
  ];
  once = λ d t. elim (Bool-cases (d == 3)) [
    | inl e ↦ rw e (((λ h. omega (arith, h)), tt), (tt, tt))
    | inr n ↦ rw n tt
  ];
  sends = λ d x t. elim (Bool-cases (d == 3)) [
    | inl e ↦
        let h : d ≡ 3 = ground arith in
        rw h (λ i. elim i [
          | inl g ↦ rw g (refl, refl)
          | inr j ↦ elim j [ inl g ↦ rw g (refl, refl) | inr none ↦ absurd none ]
        ])
    | inr n ↦ rw n (λ i. absurd i)
  ];
  waits = λ x t s. elim (senders x s) [ inl e ↦ rw e (inl refl) | inr e ↦ rw e (inr (inl refl)) ];
}

two_senders-NoCycle : NoCycle five two_senders
two_senders-NoCycle p t = elim (Bool-cases (is_sending two_senders p)) [
  | inl s ↦ elim (senders p s) [
    | inl e ↦ (3 ∷ [], rw e (refl, refl, (omega arith, omega arith), refl))
    | inr e ↦ (3 ∷ [], rw e (refl, refl, (omega arith, omega arith), refl))
  ]
  | inr n ↦ ([], n)
]

abbrev system : System
system = record {
  clock = record {
    kernel = two_senders;
    alarm = λ p. if p == 5 then 700 else 0;
    user_time = λ p. p;
    sys_time = λ p. 10;
    realtime = 600;
    boot_time = 0;
    next_alarm = 700;
    watchdog_proc = nil_proc;
    watch_dog = λ p. signal;
    syn_al_alive = true;
    syn_table = λ p. false;
    pending_ticks = 0;
    sched_ticks = 6;
    prev_ptr = 4;
    lost_ticks = 0;
  };
  child_utime = λ p. 0;
  child_stime = λ p. 0;
}

do_xit-Ended_example : Returns (λ _ s'. Ended five system fs_queue 4 5 s') (do_xit five 4 5 system)
unfolding is_user
do_xit-Ended_example =
    do_xit-Ended five system fs_queue 4 5 (omega arith, omega arith) (omega arith, omega arith) refl
      refl refl two_senders-Callers two_senders-NoCycle

-- Slot 4 waits for the end of one signal.
abbrev signalled : Kernel
signalled =
    kernel_of (sched_of 3 (flags false false) (record (flags false false) { sig_pending = true }))
      (λ p. record (talk_of nil_proc 0) { p_pendcount = 1 })

do_endsig-SignalEnded_example : Returns (SignalEnded signalled 4 0 []) (do_endsig small 4 signalled)
unfolding is_runnable
do_endsig-SignalEnded_example =
    do_endsig-SignalEnded small signalled 4 0 [] (omega arith, omega arith) refl (inl refl) refl
      refl tt tt refl
