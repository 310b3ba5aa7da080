-- ===== src/Messages/Receive.antt =====
-- The results of `mini_rec` of kernel/proc.c.
use soi_laboratoria_2025z.Base.{ℕ, ◌≡◌, ◌⊎◌, true, false, List, ◌++◌, ◌==◌, ◌&&◌, if◌then◌else◌}
use soi_laboratoria_2025z.Kernel.Defs.{Ptr}
use soi_laboratoria_2025z.Messages.Defs.{Kernel, Config, Reply, done, write_talk, is_rx_hardware}
use soi_laboratoria_2025z.Messages.Path.{is_sending, NoCycle}
use soi_laboratoria_2025z.Messages.Queues.{Callers}
use soi_laboratoria_2025z.Messages.Same.{SameWaits}
use soi_laboratoria_2025z.Messages.Left.{with_list}
use soi_laboratoria_2025z.Messages.Inform.{Informed}
use soi_laboratoria_2025z.Messages.Wait.{WaitsAt, Tells}
use soi_laboratoria_2025z.Messages.Search.{NoneAcceptable, First}
use soi_laboratoria_2025z.Messages.Accept.{TakenAt}

-- What is left when the caller has got the message of a blocked interrupt.
pub record InterruptAt (c : Config) (k : Kernel) (caller m_ptr : ℕ) (k' : Kernel) : Type 0 where
  pub message :
      k'.memory caller m_ptr
      ≡ record (k.memory caller m_ptr) { m_source = c.hardware; m_type = c.hard_int }
  pub unblocked : (k'.talk caller).p_int_blocked ≡ false
  pub sched : k'.sched ≡ k.sched
  pub same : SameWaits k k'

-- Why the caller waits: it still sends, or it finds no message.
abbrev pub HasToWait : Config → Kernel → List Ptr → (caller src : ℕ) → Type 0
HasToWait c k callers caller src =
    (is_sending k caller ≡ true)
    ⊎ (NoneAcceptable c src callers
        × ((k.talk caller).p_int_blocked && is_rx_hardware c src ≡ false))

-- The results of `mini_rec`: a message of the caller queue, one of a blocked interrupt, or a wait, in which
-- MM may be told of signals.
pub data Received (c : Config) (k : Kernel) (lists : Ptr → List Ptr) (caller src m_ptr : ℕ)
    : Reply → Kernel → Type 0 where
  accepted :
      {k' : Kernel} (f : First c src (lists caller))
      → TakenAt c k (lists caller) (f.before ++ f.after) caller f.sender m_ptr k'
      → NoCycle c k'
      → Callers c k' (with_list lists caller (f.before ++ f.after))
      → Received c k lists caller src m_ptr done k'
  interrupted :
      {k' : Kernel}
      → NoneAcceptable c src (lists caller)
      → (k.talk caller).p_int_blocked ≡ true
      → is_rx_hardware c src ≡ true
      → InterruptAt c k caller m_ptr k'
      → NoCycle c k'
      → Callers c k' lists
      → Received c k lists caller src m_ptr done k'
  waits :
      {k' : Kernel}
      → HasToWait c k (lists caller) caller src
      → (Tells c k caller src → ⊥)
      → WaitsAt k caller src m_ptr k'
      → NoCycle c k'
      → Callers c k' lists
      → Received c k lists caller src m_ptr done k'
  informs :
      {w k' : Kernel}
      → HasToWait c k (lists caller) caller src
      → Tells c k caller src
      → WaitsAt k caller src m_ptr w
      → Informed c w k'
      → NoCycle c k'
      → Callers c k' lists
      → Received c k lists caller src m_ptr done k'

abbrev interrupted_state : Config → Kernel → (caller m_ptr : ℕ) → Kernel
interrupted_state c k caller m = record k {
  memory = λ q b.
      if (q == caller) && (b == m)
      then record (k.memory caller m) { m_source = c.hardware; m_type = c.hard_int }
      else k.memory q b;
  talk = write_talk k.talk caller (record (k.talk caller) { p_int_blocked = false });
}
