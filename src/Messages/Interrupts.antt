-- ===== src/Messages/Interrupts.antt =====
-- `interrupt` and `unhold` of kernel/proc.c, and `cause_sig` of kernel/system.c.
use soi_laboratoria_2025z.Base.{
  ℕ, zero, suc, ◌+◌, Bool, true, false, not, ◌&&◌, ◌||◌, ◌==◌, if◌then◌else◌, List, [], ◌∷◌, ok,
  out_of_fuel, Cmd, pure, ◌>>=◌, ◌>>◌,
}
use soi_laboratoria_2025z.Kernel.Defs.{Ptr, nil_proc}
use soi_laboratoria_2025z.Kernel.Sched.{unready, ready_task, locked}
use soi_laboratoria_2025z.Messages.Defs.{
  Kernel, Config, is_rx_hardware, on_sched, load_talk, store_talk, load_proc, store_flags,
}
use soi_laboratoria_2025z.Messages.Calls.{if_runnable, take_interrupt, inform}

unfoldable pub set_held : Ptr → Ptr → Cmd Kernel (Unit {0})
set_held head tail k = ok tt (record k { held_head = head; held_tail = tail })

-- An interrupt that may not be handled now goes to the end of the held queue, unless it is there.
unfoldable pub hold : Config → (rp : Ptr) → Cmd Kernel (Unit {0})
unfolding load_talk store_talk set_held
hold c rp = do
  t ← load_talk c rp
  if t.p_int_held then pure tt else do
    store_talk c rp (record t { p_int_held = true })
    (λ k.
        (if not (k.held_head == nil_proc)
            then (do
              l ← load_talk c k.held_tail
              store_talk c k.held_tail (record l { p_nextheld = rp })
              set_held k.held_head rp)
            else set_held rp rp)
          k)
    u ← load_talk c rp
    store_talk c rp (record u { p_nextheld = nil_proc })

unfoldable pub start_task : Config → (rp : Ptr) → Cmd Kernel (Unit {0})
unfolding load_talk store_talk load_proc store_flags take_interrupt on_sched ready_task
start_task c rp = do
  t ← load_talk c rp
  take_interrupt c rp t.p_messbuf
  p ← load_proc c rp
  store_flags c rp (record (p.p_flags) { receiving = false })
  on_sched (ready_task rp)

unfoldable pub interrupt : Config → (task : ℕ) → Cmd Kernel (Unit {0})
unfolding load_talk store_talk load_proc is_rx_hardware hold start_task
interrupt c rp k =
    (if k.reentered || k.sched.switching then hold c rp else do
      p ← load_proc c rp
      t ← load_talk c rp
      if not (p.p_flags.receiving && not p.p_flags.sending) || not (is_rx_hardware c t.p_getfrom)
          then store_talk c rp (record t { p_int_blocked = true })
          else start_task c rp)
      k

-- One round of `unhold`; `interrupt` comes after `unlock()`.
unfoldable pub release_first : Config → Cmd Kernel (Unit {0})
unfolding load_talk store_talk set_held interrupt
release_first c k =
    (do
      t ← load_talk c k.held_head
      set_held t.p_nextheld (if t.p_nextheld == nil_proc then nil_proc else k.held_tail)
      store_talk c k.held_head (record t { p_int_held = false })
      interrupt c k.held_head)
      k

unfoldable pub release_all : Config → (fuel : ℕ) → Cmd Kernel (Unit {0})
unfolding release_first
release_all c zero = λ _. out_of_fuel
release_all c (suc fuel) = do
  release_first c
  (λ k. (if k.held_head == nil_proc then pure tt else release_all c fuel) k)

unfoldable pub unhold : Config → (fuel : ℕ) → Cmd Kernel (Unit {0})
unfolding release_all
unhold c fuel k = if k.sched.switching then ok tt k else release_all c fuel k

-- `sigismember`
abbrev pub has_signal : ℕ → List ℕ → Bool
has_signal n [] = false
has_signal n (m ∷ ms) = (n == m) || has_signal n ms

-- A process gets its first signal that MM is not told of yet.
unfoldable pub signal_first : Config → (inform_ptr : ℕ) → (rp : Ptr) → Cmd Kernel (Unit {0})
unfolding load_talk load_proc store_flags if_runnable inform
signal_first c inform_ptr rp = do
  if_runnable c rp (locked (unready (suc c.procs) rp))
  p ← load_proc c rp
  store_flags c rp (record (p.p_flags) { pending = true; sig_pending = true })
  (λ k. ok tt (record k { sig_procs = k.sig_procs + 1 }))
  m ← load_proc c c.mm
  t ← load_talk c c.mm
  if not m.p_flags.receiving || not (t.p_getfrom == c.any) then pure tt else inform c inform_ptr

unfoldable pub cause_sig : Config → (inform_ptr : ℕ) → (proc_nr sig_nr : ℕ) → Cmd Kernel (Unit {0})
unfolding load_talk store_talk load_proc signal_first
cause_sig c inform_ptr rp sig_nr = do
  t ← load_talk c rp
  if has_signal sig_nr t.p_pending then pure tt else do
    store_talk c rp (record t { p_pending = sig_nr ∷ t.p_pending; p_pendcount = t.p_pendcount + 1 })
    p ← load_proc c rp
    if p.p_flags.pending then pure tt else signal_first c inform_ptr rp
