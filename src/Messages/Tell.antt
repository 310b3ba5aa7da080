-- ===== src/Messages/Tell.antt =====
-- The message of HARDWARE to MM by which `inform` of kernel/system.c tells it of kernel signals.
use soi_laboratoria_2025z.Base.{
  ℕ, suc, ◌-◌, ◌<◌, ◌≡◌, ◌≢◌, inl, inr, refl, ◌∙◌, Bool, true, false, List, [], ◌∷◌, arith, ◌==◌,
  Bool-cases, ok, and_then, pure, mono,
}
use soi_laboratoria_2025z.Kernel.Defs.{Ptr, nil_proc, ppri_server, Flags, Proc, State, g2, is_user}
use soi_laboratoria_2025z.Kernel.Sched.{ready}
use soi_laboratoria_2025z.Kernel.KeepFlags.{SameFlags, ready-RunKeeps}
use soi_laboratoria_2025z.Kernel.Chain.{Chain}
use soi_laboratoria_2025z.Kernel.Serving.{Serving, Serving-kept}
use soi_laboratoria_2025z.Kernel.Servers.{ready-two}
use soi_laboratoria_2025z.Messages.Defs.{
  Message, Kernel, Config, done, put_flags, is_outside, is_locked,
}
use soi_laboratoria_2025z.Messages.Calls.{is_empty, is_waiting, deliver, mini_send}
use soi_laboratoria_2025z.Messages.Runs.{if_runnable-sched, Returns-at}
use soi_laboratoria_2025z.Messages.Path.{
  InTable, is_sending, SendPath, NoCycle, member, is_locked-decides,
}
use soi_laboratoria_2025z.Messages.Same.{SameWaits}
use soi_laboratoria_2025z.Messages.Deliver.{received, delivered_state, deliver-step}
use soi_laboratoria_2025z.Messages.Send.{mini_send-step, send_message-step}

abbrev pub is_pending : Kernel → Ptr → Bool
is_pending k p = (k.sched.proc p).p_flags.pending

-- The message in which MM is told of the signals of `p`.
abbrev pub signal_message : Config → Kernel → (p : Ptr) → Message
signal_message c k p = record {
  m_source = c.hardware;
  m_type = c.ksig;
  m_body = p ∷ (k.talk p).p_pending;
}

-- What is left when MM has been told of the signals of `p`.
pub record InformedAt (c : Config) (k : Kernel) (p : Ptr) (k' : Kernel) : Type 0 where
  pub message : k'.memory c.mm (k.talk c.mm).p_messbuf ≡ signal_message c k p
  pub awake : (k'.sched.proc c.mm).p_flags.receiving ≡ false
  pub told : (k'.talk p).p_pending ≡ []
  pub no_more : is_pending k' p ≡ false
  pub count : k'.sig_procs ≡ k.sig_procs - 1
  pub same : SameWaits k k'

-- The state when MM waits for any message and can be told: HARDWARE is a task that is not blocked and whose
-- message at `m` lies in its segments.
pub record CanInform (c : Config) (k : Kernel) (m : ℕ) (servers twos : List Ptr) : Type 0 where
  pub mm_in : InTable c c.mm
  pub hw_in : InTable c c.hardware
  pub hw_apart : c.hardware ≢ c.mm
  pub hw_task : is_user (k.sched.proc c.hardware) ≡ false
  pub mm_server : (k.sched.proc c.mm).p_priority ≡ ppri_server
  pub fits : is_outside c (k.talk c.hardware) m ≡ false
  pub receives : (k.sched.proc c.mm).p_flags.receiving ≡ true
  pub idle : is_sending k c.mm ≡ false
  pub from_any : (k.talk c.mm).p_getfrom ≡ c.any
  pub serving : Serving k.sched (suc c.procs) c.mm servers twos
  pub no_cycle : NoCycle c k

server-is_empty : (p : Proc) → p.p_priority ≡ ppri_server → is_empty p ≡ false
unfolding is_empty
server-is_empty p h = rw h refl

module _ (s : State) (p : Ptr) (f : Flags) where
  abbrev flagged : State
  flagged = record s { proc = put_flags s.proc p f }

  pub put_flags_next : (a : Ptr) → (put_flags s.proc p f a).p_nextready ≡ (s.proc a).p_nextready
  unfolding put_flags
  put_flags_next a = ground arith

  pub put_flags_priority : (a : Ptr) → (put_flags s.proc p f a).p_priority ≡ (s.proc a).p_priority
  unfolding put_flags
  put_flags_priority a = ground arith

  put_flags_user : (a : Ptr) → is_user (put_flags s.proc p f a) ≡ is_user (s.proc a)
  unfolding put_flags is_user
  put_flags_user a = elim (Bool-cases (a == p)) [
    | inl e ↦
        let h : a ≡ p = ground arith in let g : (p == p) ≡ true = ground arith in rw (h, g) refl
    | inr n ↦ rw n refl
  ]

  pub put_flags-Serving :
      (n : ℕ) (rp : Ptr) (servers twos : List Ptr)
      → Serving s n rp servers twos
      → Serving flagged n rp servers twos
  put_flags-Serving n rp servers twos =
      Serving-kept s flagged n rp servers twos (λ q. refl) put_flags_next

-- A message to MM that waits for any is delivered.
module _ (c : Config) (k : Kernel) (m : ℕ) (servers twos : List Ptr)
    (i : CanInform c k m servers twos) where
  free-is_locked : is_locked c (suc c.procs) c.hardware c.mm k ≡ ok false k
  free-is_locked =
      let (ds, path, e) = is_locked-decides c k c.hardware c.mm i.no_cycle i.mm_in in
      by_path ds path e
    where
      by_path :
          (ds : List Ptr)
          → SendPath c k c.mm ds
          → is_locked c (suc c.procs) c.hardware c.mm k ≡ ok (member c.hardware ds) k
          → is_locked c (suc c.procs) c.hardware c.mm k ≡ ok false k
      by_path [] path e = e
      by_path (d ∷ ds) path e = let h = path.0 in let g = i.idle in cc

  mm-is_waiting : is_waiting c c.hardware (k.sched.proc c.mm).p_flags (k.talk c.mm) ≡ true
  unfolding is_waiting
  mm-is_waiting = rw (i.receives, i.idle, i.from_any) (ground arith)

  mini_send-to_mm :
      mini_send c c.hardware c.mm m k ≡ and_then (deliver c c.hardware c.mm m k) (λ _. pure done)
  mini_send-to_mm =
      mini_send-step c k c.hardware c.mm m i.hw_in i.mm_in
      ∙ rw
          (
            i.hw_task,
            server-is_empty (k.sched.proc c.mm) i.mm_server,
            i.fits,
            send_message-step c k c.hardware c.mm m i.hw_in i.mm_in false free-is_locked,
            mm-is_waiting,
          )
          refl

  awake_Serving : Serving (received k.sched c.mm) (suc c.procs) c.mm servers twos
  awake_Serving =
      put_flags-Serving k.sched c.mm (record ((k.sched.proc c.mm).p_flags) { receiving = false })
        (suc c.procs) c.mm servers twos i.serving

  -- The delivery, with the state of the scheduler after it.
  pub delivery :
      (s : State) × (mini_send c c.hardware c.mm m k
        ≡ ok done (record (delivered_state k c.hardware c.mm m) { sched = s }))
      × SameFlags (received k.sched c.mm) s
      × Chain s.proc (s.queue g2).head twos
  delivery =
      let s0 : State = received k.sched c.mm in
      let ne : c.mm ≢ nil_proc = λ e. let p : 0 < c.mm = i.mm_in.0 in omega (arith, e, p) in
      let pri : (s0.proc c.mm).p_priority ≡ ppri_server =
        put_flags_priority k.sched c.mm (record ((k.sched.proc c.mm).p_flags) { receiving = false })
          c.mm
        ∙ i.mm_server in
      let r = ready-two s0 (suc c.procs) c.mm ne pri servers twos awake_Serving in
      let (s, e, f, ran) =
        if_runnable-sched c (delivered_state k c.hardware c.mm m) c.mm i.mm_in
          (ready (suc c.procs) c.mm) (mono r (λ _ _ _. tt))
          (ready-RunKeeps (suc c.procs) c.mm s0) in
      (
        s,
        mini_send-to_mm ∙ rw (deliver-step c k c.hardware c.mm m i.mm_in s e) refl,
        f,
        elim ran [
          | inl (runs, eq) ↦ Returns-at (ready (suc c.procs) c.mm s0) r eq
          | inr (blocked, eq) ↦ rw eq awake_Serving.two
        ],
      )
