-- ===== src/Messages/Send.antt =====
-- The results of `mini_send` of kernel/proc.c.
use soi_laboratoria_2025z.Base.{
  ℕ, suc, ◌≡◌, ap, Bool, true, false, not, List, [], ◌∷◌, arith, ◌&&◌, if◌then◌else◌, ok, and_then,
  pure,
}
use soi_laboratoria_2025z.Kernel.Defs.{Ptr, is_user}
use soi_laboratoria_2025z.Kernel.Chain.{In}
use soi_laboratoria_2025z.Messages.Defs.{
  Talk, Kernel, Config, Reply, done, e_bad_dest, efault, elocked, load_talk, load_proc,
  is_sys_number, is_outside, is_locked,
}
use soi_laboratoria_2025z.Messages.Calls.{
  is_empty, is_waiting, deliver, block_caller, send_message, mini_send,
}
use soi_laboratoria_2025z.Messages.Pigeons.{Within}
use soi_laboratoria_2025z.Messages.Path.{InTable, SendPath, NoCycle}
use soi_laboratoria_2025z.Messages.Queues.{Links, Callers}
use soi_laboratoria_2025z.Messages.Same.{SameWaits}
use soi_laboratoria_2025z.Messages.Joined.{joined}
use soi_laboratoria_2025z.Messages.Block.{BlockedAt}
use soi_laboratoria_2025z.Messages.Deliver.{DeliveredAt}

-- The results of `mini_send`: the errors, with the state as it was, the message handed over, and the
-- caller blocked at the end of the queue of its destination.
pub data Sent (c : Config) (k : Kernel) (lists : Ptr → List Ptr) (caller dest m_ptr : ℕ)
    : Reply → Kernel → Type 0 where
  forbidden :
      is_user (k.sched.proc caller) ≡ true
      → is_sys_number c dest ≡ false
      → Sent c k lists caller dest m_ptr e_bad_dest k
  dead : is_empty (k.sched.proc dest) ≡ true → Sent c k lists caller dest m_ptr e_bad_dest k
  outside : is_outside c (k.talk caller) m_ptr ≡ true → Sent c k lists caller dest m_ptr efault k
  circle :
      (qs : List Ptr)
      → SendPath c k dest qs
      → In caller qs
      → Sent c k lists caller dest m_ptr elocked k
  delivered :
      {k' : Kernel}
      → is_waiting c caller (k.sched.proc dest).p_flags (k.talk dest) ≡ true
      → DeliveredAt k caller dest m_ptr k'
      → NoCycle c k'
      → Callers c k' lists
      → Sent c k lists caller dest m_ptr done k'
  queued :
      {k' : Kernel}
      → is_waiting c caller (k.sched.proc dest).p_flags (k.talk dest) ≡ false
      → BlockedAt c k (lists dest) caller dest m_ptr k'
      → NoCycle c k'
      → Callers c k' (joined lists dest caller)
      → Sent c k lists caller dest m_ptr done k'

pub Links-Within :
    (c : Config) (t : Ptr → Talk) (p : Ptr) (xs : List Ptr) → Links c t p xs → Within c.procs xs
Links-Within c t p [] h = tt
Links-Within c t p (x ∷ xs) h = (h.1.0, h.1.1, Links-Within c t (t x).p_sendlink xs h.2)

pub DeliveredAt-SameWaits :
    (k k' : Kernel) (caller dest m_ptr : ℕ) → DeliveredAt k caller dest m_ptr k' → SameWaits k k'
DeliveredAt-SameWaits k k' caller dest m d = record {
  sending = d.sending;
  sendto = λ x. ap (λ t. (t x).p_sendto) d.talk;
  link = λ x. ap (λ t. (t x).p_sendlink) d.talk;
  queue = λ x. ap (λ t. (t x).p_callerq) d.talk;
}

module _ (c : Config) (k : Kernel) (caller dest m_ptr : ℕ) (t : InTable c caller)
    (u : InTable c dest) where
  pub mini_send-step : mini_send c caller dest m_ptr k ≡ (
      if is_user (k.sched.proc caller) && not (is_sys_number c dest)
      then ok e_bad_dest k
      else if is_empty (k.sched.proc dest)
      then ok e_bad_dest k
      else if is_outside c (k.talk caller) m_ptr
      then ok efault k
      else send_message c caller dest m_ptr k)
  unfolding mini_send load_talk load_proc
  mini_send-step = ground (arith, t.0, t.1, u.0, u.1)

  pub send_message-step :
      (b : Bool)
      → is_locked c (suc c.procs) caller dest k ≡ ok b k
      → send_message c caller dest m_ptr k ≡ (
          if b
          then ok elocked k
          else and_then
              (if is_waiting c caller (k.sched.proc dest).p_flags (k.talk dest)
                then deliver c caller dest m_ptr k
                else block_caller c caller dest m_ptr k)
              (λ _. pure done))
  unfolding send_message load_talk load_proc
  send_message-step b h = ground (arith, u.0, u.1, h)
