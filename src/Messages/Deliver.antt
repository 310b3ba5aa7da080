-- ===== src/Messages/Deliver.antt =====
-- `deliver`, the part of `mini_send` in kernel/proc.c that hands a message over.
use soi_laboratoria_2025z.Base.{
  ℕ, suc, ◌≡◌, ◌≢◌, refl, false, arith, ◌==◌, ◌&&◌, if◌then◌else◌, ok, Returns, returns,
}
use soi_laboratoria_2025z.Kernel.Defs.{Ptr, State}
use soi_laboratoria_2025z.Kernel.Sched.{ready}
use soi_laboratoria_2025z.Kernel.KeepFlags.{SameFlags, ready-RunKeeps}
use soi_laboratoria_2025z.Messages.Defs.{
  Message, Kernel, Config, load_talk, load_proc, store_flags, put_flags, put_message, cp_mess,
}
use soi_laboratoria_2025z.Messages.Calls.{if_runnable, deliver}
use soi_laboratoria_2025z.Messages.Path.{InTable, is_sending}
use soi_laboratoria_2025z.Messages.Runs.{if_runnable-sched}

-- The process table when `dest` no longer waits to receive.
abbrev pub received : State → Ptr → State
received s dest = record s {
  proc = put_flags s.proc dest (record ((s.proc dest).p_flags) { receiving = false });
}

-- The message at `m_ptr` of the caller, as the receiver gets it.
abbrev pub sent_message : Kernel → (caller m_ptr : ℕ) → Message
sent_message k caller m = record (k.memory caller m) { m_source = caller }

abbrev pub delivered_state : Kernel → (caller dest m_ptr : ℕ) → Kernel
delivered_state k caller dest m = record k {
  memory = λ q b.
      if (q == dest) && (b == (k.talk dest).p_messbuf)
      then sent_message k caller m
      else k.memory q b;
  sched = received k.sched dest;
}

-- What is left when the message is delivered: the receiver has it, and nobody else changes.
pub record DeliveredAt (k : Kernel) (caller dest m_ptr : ℕ) (k' : Kernel) : Type 0 where
  pub message : k'.memory dest (k.talk dest).p_messbuf ≡ sent_message k caller m_ptr
  pub memory : (q a : ℕ) → q ≢ dest → k'.memory q a ≡ k.memory q a
  pub awake : (k'.sched.proc dest).p_flags.receiving ≡ false
  pub sending : (x : Ptr) → is_sending k' x ≡ is_sending k x
  pub talk : k'.talk ≡ k.talk

module _ (c : Config) (k : Kernel) (caller dest m_ptr : ℕ) (u : InTable c dest) where
  pub deliver-step :
      (s : State)
      → if_runnable c dest (ready (suc c.procs) dest) (delivered_state k caller dest m_ptr)
        ≡ ok tt (record (delivered_state k caller dest m_ptr) { sched = s })
      → deliver c caller dest m_ptr k
        ≡ ok tt (record (delivered_state k caller dest m_ptr) { sched = s })
  unfolding deliver load_talk load_proc store_flags cp_mess put_message
  deliver-step s h = ground (arith, u.0, u.1, h)

  pub delivered-DeliveredAt :
      (s : State)
      → SameFlags (received k.sched dest) s
      → DeliveredAt k caller dest m_ptr (record (delivered_state k caller dest m_ptr) { sched = s })
  unfolding put_flags
  delivered-DeliveredAt s f = record {
    message = ground arith;
    memory = λ q a n. ground arith;
    awake = ground (arith, f dest);
    sending = λ x. ground (arith, f x);
    talk = refl;
  }

  pub deliver-DeliveredAt :
      Returns (λ _ _. Unit {0}) (ready (suc c.procs) dest (received k.sched dest))
      → Returns (λ _ k'. DeliveredAt k caller dest m_ptr k') (deliver c caller dest m_ptr k)
  deliver-DeliveredAt r =
      let (s, e, f, ran) =
        if_runnable-sched c (delivered_state k caller dest m_ptr) dest u (ready (suc c.procs) dest)
          r (ready-RunKeeps (suc c.procs) dest (received k.sched dest)) in
      rw (deliver-step s e) (returns (delivered-DeliveredAt s f))
