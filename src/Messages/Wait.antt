-- ===== src/Messages/Wait.antt =====
-- The wait for a message in `mini_rec` of kernel/proc.c, with the call of `inform` when MM waits.
use soi_laboratoria_2025z.Base.{
  ℕ, suc, ◌<◌, ◌≤◌, ◌≡◌, ◌≢◌, inl, inr, refl, true, false, List, arith, leb, ltb, ◌==◌, ◌&&◌,
  Bool-cases, ok, and_then, pure, Returns, returns, bind, ◌∙◌,
}
use soi_laboratoria_2025z.Kernel.Defs.{
  Ptr, ppri_task, ppri_server, Flags, State, QueueId, server_q, g2, is_user,
}
use soi_laboratoria_2025z.Kernel.Sched.{ready, unready}
use soi_laboratoria_2025z.Kernel.KeepFlags.{SameFlags, unready-RunKeeps}
use soi_laboratoria_2025z.Kernel.Remove.{without}
use soi_laboratoria_2025z.Kernel.Serving.{Serving, SamePriority}
use soi_laboratoria_2025z.Kernel.Servers.{unready-Serving}
use soi_laboratoria_2025z.Kernel.Chain.{In}
use soi_laboratoria_2025z.Kernel.ReadyQueues.{ReadyQueues, ReadyQueues-kept, ReadyQueues-Serving}
use soi_laboratoria_2025z.Kernel.Total.{ready-Returns, unready-Returns}
use soi_laboratoria_2025z.Messages.Accept.{released}
use soi_laboratoria_2025z.Messages.Defs.{
  is_runnable, Talk, Kernel, Config, done, load_talk, store_talk, load_proc, store_flags, put_flags,
  write_talk, is_outside,
}
use soi_laboratoria_2025z.Messages.Calls.{if_runnable, inform, wait_message}
use soi_laboratoria_2025z.Messages.Path.{InTable, is_sending, NoCycle}
use soi_laboratoria_2025z.Messages.Same.{SameWaits, SameWaits-NoCycle}
use soi_laboratoria_2025z.Messages.Runs.{Scheduled, if_runnable-sched, Returns-at}
use soi_laboratoria_2025z.Messages.Tell.{
  is_pending, CanInform, put_flags-Serving, put_flags_priority, put_flags_next,
}
use soi_laboratoria_2025z.Messages.Inform.{Informed, inform-Informed}

-- What is left when the caller waits for a message, before MM is told of signals.
pub record WaitsAt (k : Kernel) (caller src m_ptr : ℕ) (k' : Kernel) : Type 0 where
  pub source : (k'.talk caller).p_getfrom ≡ src
  pub buffer : (k'.talk caller).p_messbuf ≡ m_ptr
  pub receiving : (k'.sched.proc caller).p_flags.receiving ≡ true
  pub memory : k'.memory ≡ k.memory
  pub pending : (x : Ptr) → is_pending k' x ≡ is_pending k x
  pub signals : (x : Ptr) → (k'.talk x).p_pending ≡ (k.talk x).p_pending
  pub count : k'.sig_procs ≡ k.sig_procs
  pub same : SameWaits k k'

-- MM waits for any message while processes have signals of which it does not know.
abbrev pub Tells : Config → Kernel → (caller src : ℕ) → Type 0
Tells c k caller src = (0 < k.sig_procs) × (caller ≡ c.mm) × (src ≡ c.any)

-- MM can be told of signals when it waits: it is a server that does not send and is not in the queue of group 2,
-- and HARDWARE is a task whose message at `m` lies in its segments.
pub record CanTell (c : Config) (k : Kernel) (m : ℕ) (twos : List Ptr) : Type 0 where
  pub mm_in : InTable c c.mm
  pub hw_in : InTable c c.hardware
  pub hw_apart : c.hardware ≢ c.mm
  pub hw_task : is_user (k.sched.proc c.hardware) ≡ false
  pub mm_server : (k.sched.proc c.mm).p_priority ≡ ppri_server
  pub fits : is_outside c (k.talk c.hardware) m ≡ false
  pub idle : is_sending k c.mm ≡ false
  pub out : In c.mm twos → ⊥
  pub slots : c.tasks ≤ c.procs

-- The ready queues hold what `queues` lists, which are processes that can run, and a caller that is a task has a
-- sound stack.
pub record Scheduling (c : Config) (k : Kernel) (caller : Ptr) (queues : QueueId → List Ptr)
    : Type 0 where
  pub ready_queues : ReadyQueues k.sched (suc c.procs) queues
  pub runnable :
      (q : QueueId) (x : Ptr) → In x (queues q) → is_runnable (k.sched.proc x).p_flags ≡ true
  pub sound : (k.sched.proc caller).p_priority ≡ ppri_task → (k.sched.proc caller).stack_ok ≡ true

InTable-ne : (c : Config) (x : Ptr) → InTable c x → x ≢ 0
InTable-ne c x t z = let p : 0 < x = t.0 in omega (arith, z, p)

sending_blocks : (f : Flags) → f.sending ≡ true → is_runnable f ≡ true → ⊥
unfolding is_runnable
sending_blocks f h g = ground (arith, h, g)

-- A blocked sender can be made ready.
pub Scheduling-ready :
    (c : Config) (k : Kernel) (caller : Ptr) (queues : QueueId → List Ptr)
    → Scheduling c k caller queues
    → (x : Ptr) → InTable c x
    → is_sending k x ≡ true
    → Returns (λ _ _. Unit {0}) (ready (suc c.procs) x (released k.sched x))
Scheduling-ready c k caller queues h x u blocked =
    let f = record ((k.sched.proc x).p_flags) { sending = false } in
    ready-Returns (released k.sched x) (suc c.procs) queues
      (ReadyQueues-kept k.sched (released k.sched x) (suc c.procs) queues (λ q. refl)
        (put_flags_next k.sched x f) h.ready_queues)
      x (InTable-ne c x u)
      (λ q i. sending_blocks (k.sched.proc x).p_flags blocked (h.runnable q x i))

-- The two ends of a wait: MM is told of the first process with pending signals, or there is nothing to tell.
pub data Waited (c : Config) (k : Kernel) (caller src m_ptr : ℕ) : Kernel → Type 0 where
  silent :
      {k' : Kernel}
      → (Tells c k caller src → ⊥)
      → WaitsAt k caller src m_ptr k'
      → Waited c k caller src m_ptr k'
  told :
      {w k' : Kernel}
      → Tells c k caller src
      → WaitsAt k caller src m_ptr w
      → Informed c w k'
      → Waited c k caller src m_ptr k'

-- The state when the caller waits, with the scheduler's `s`.
abbrev waiting_talk : Kernel → (caller src m_ptr : ℕ) → Ptr → Talk
waiting_talk k caller src m =
    write_talk k.talk caller (record (k.talk caller) { p_getfrom = src; p_messbuf = m })

abbrev waiting_state : Kernel → (caller src m_ptr : ℕ) → State → Kernel
waiting_state k caller src m s = record k {
  talk = waiting_talk k caller src m;
  sched = record s {
    proc = put_flags s.proc caller (record ((s.proc caller).p_flags) { receiving = true });
  };
}

module _ (c : Config) (k : Kernel) (inform_ptr caller src m_ptr : ℕ) (t : InTable c caller) where
  abbrev WaitingRun : State → Type 0
  WaitingRun s =
      if_runnable c caller (unready (suc c.procs) caller)
        (record k { talk = waiting_talk k caller src m_ptr })
      ≡ ok tt (record k { talk = waiting_talk k caller src m_ptr; sched = s })

  wait_message-silent :
      ltb 0 k.sig_procs && ((caller == c.mm) && (src == c.any)) ≡ false
      → (s : State) → WaitingRun s
      → wait_message c inform_ptr caller src m_ptr k ≡ ok done (waiting_state k caller src m_ptr s)
  unfolding wait_message load_talk store_talk load_proc store_flags
  wait_message-silent z s h = ground (arith, t.0, t.1, h, z)

  wait_message-told :
      ltb 0 k.sig_procs && ((caller == c.mm) && (src == c.any)) ≡ true
      → (s : State) → WaitingRun s
      → wait_message c inform_ptr caller src m_ptr k
        ≡ and_then (inform c inform_ptr (waiting_state k caller src m_ptr s)) (λ _. pure done)
  unfolding wait_message load_talk store_talk load_proc store_flags
  wait_message-told z s h =
      let e : ltb 0 caller && leb caller c.procs ≡ true = ground (arith, t.0, t.1) in
      rw (e, e, h, e, e, z) refl

  waiting-WaitsAt :
      (s : State)
      → SameFlags k.sched s
      → WaitsAt k caller src m_ptr (waiting_state k caller src m_ptr s)
  unfolding write_talk put_flags
  waiting-WaitsAt s f = record {
    source = ground arith;
    buffer = ground arith;
    receiving = ground arith;
    memory = refl;
    pending = λ x. ground (arith, f x);
    signals = λ x. ground arith;
    count = refl;
    same = record {
      sending = λ x. ground (arith, f x);
      sendto = λ x. ground arith;
      link = λ x. ground arith;
      queue = λ x. ground arith;
    };
  }

  -- MM can be told in the state in which it waits.
  module _ (servers twos : List Ptr) (mm : caller ≡ c.mm) (h : CanTell c k inform_ptr twos)
      (serving : Serving k.sched (suc c.procs) c.mm servers twos) (s : State) where
    Scheduled-Serving :
        Scheduled caller (unready (suc c.procs) caller) k.sched s
        → (rest : List Ptr) × Serving s (suc c.procs) c.mm rest twos × SamePriority k.sched s
    Scheduled-Serving (inl (runs, e)) =
        let ne = InTable-ne c c.mm h.mm_in in
        let (v, pri) =
          Returns-at (unready (suc c.procs) c.mm k.sched)
            (unready-Serving k.sched (suc c.procs) c.mm ne h.mm_server servers twos serving)
            (rw mm at e) in
        (without c.mm servers, v, pri)
    Scheduled-Serving (inr (blocked, e)) = rw e (servers, serving, λ a. refl)

    waiting-CanInform :
        (rest : List Ptr)
        → Serving s (suc c.procs) c.mm rest twos
        → SamePriority k.sched s
        → src ≡ c.any
        → WaitsAt k caller src m_ptr (waiting_state k caller src m_ptr s)
        → NoCycle c k
        → CanInform c (waiting_state k caller src m_ptr s) inform_ptr rest twos
    unfolding write_talk is_user
    waiting-CanInform rest v pri any w all =
        let f = record ((s.proc caller).p_flags) { receiving = true } in
        record {
          mm_in = h.mm_in;
          hw_in = h.hw_in;
          hw_apart = h.hw_apart;
          hw_task = rw (put_flags_priority s caller f c.hardware, pri c.hardware) h.hw_task;
          mm_server = put_flags_priority s caller f c.mm ∙ pri c.mm ∙ h.mm_server;
          fits =
              let e : (c.hardware == caller) ≡ false = ground (arith, h.hw_apart, mm) in
              rw e h.fits;
          receives = rw (← mm) w.receiving;
          idle = w.same.sending c.mm ∙ h.idle;
          from_any = rw (← mm) (w.source ∙ any);
          serving = put_flags-Serving s caller f (suc c.procs) c.mm rest twos v;
          no_cycle = SameWaits-NoCycle c k (waiting_state k caller src m_ptr s) w.same all;
        }

  -- The wait returns OK with one of its two ends, when MM can be told of what there is.
  pub wait_message-Waited :
      (queues : QueueId → List Ptr)
      → Scheduling c k caller queues
      → NoCycle c k
      → (Tells c k caller src → CanTell c k inform_ptr (queues g2))
      → Returns
          (λ r k'. (r ≡ done) × Waited c k caller src m_ptr k')
          (wait_message c inform_ptr caller src m_ptr k)
  wait_message-Waited queues h all can =
      let r =
        unready-Returns k.sched (suc c.procs) queues h.ready_queues caller (InTable-ne c caller t)
          h.sound in
      let (s, e, f, ran) =
        if_runnable-sched c (record k { talk = waiting_talk k caller src m_ptr }) caller t
          (unready (suc c.procs) caller) r (unready-RunKeeps (suc c.procs) caller k.sched) in
      let w = waiting-WaitsAt s f in
      elim (Bool-cases (ltb 0 k.sig_procs && ((caller == c.mm) && (src == c.any)))) [
        | inl tells ↦
            let some_left : 0 < k.sig_procs = ground (arith, tells) in
            let mm : caller ≡ c.mm = ground (arith, tells) in
            let any : src ≡ c.any = ground (arith, tells) in
            let m = can (some_left, mm, any) in
            let servers = queues server_q in
            let serving =
              ReadyQueues-Serving k.sched (suc c.procs) queues c.mm h.ready_queues m.out in
            let (rest, v, pri) = Scheduled-Serving servers (queues g2) mm m serving s ran in
            rw (wait_message-told tells s e) (
              bind
                (inform-Informed c (waiting_state k caller src m_ptr s) inform_ptr rest (queues g2)
                  (waiting-CanInform servers (queues g2) mm m serving s rest v pri any w all)
                  m.slots)
                (λ _ k' i. returns (refl, told (some_left, mm, any) w i)))
        | inr quiet ↦
            rw (wait_message-silent quiet s e)
              (returns (refl, silent (λ (a, b, d). let x = quiet in ground (arith, a, b, d, x)) w))
      ]
