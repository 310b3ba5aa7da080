-- ===== src/Messages/Accept.antt =====
-- `accept`, the part of `mini_rec` in kernel/proc.c that takes a message from a caller queue.
use soi_laboratoria_2025z.Base.{
  ℕ, suc, ◌≡◌, ◌≢◌, refl, sym, subst, ◌∙◌, false, List, [], ◌∷◌, ◌++◌, arith, ◌==◌, ◌&&◌,
  if◌then◌else◌, ok, Returns, returns,
}
use soi_laboratoria_2025z.Kernel.Defs.{Ptr, nil_proc, State}
use soi_laboratoria_2025z.Kernel.Sched.{ready}
use soi_laboratoria_2025z.Kernel.KeepFlags.{SameFlags, ready-RunKeeps}
use soi_laboratoria_2025z.Kernel.Chain.{In}
use soi_laboratoria_2025z.Kernel.Estimate.{Once, Fresh-In}
use soi_laboratoria_2025z.Kernel.Rotate.{last_of, last_of-In}
use soi_laboratoria_2025z.Messages.Defs.{
  Talk, Kernel, Config, done, load_talk, load_proc, store_flags, put_flags, write_talk, put_message,
  cp_mess,
}
use soi_laboratoria_2025z.Messages.Calls.{if_runnable, leave_queue, accept}
use soi_laboratoria_2025z.Messages.Path.{InTable, is_sending}
use soi_laboratoria_2025z.Messages.Queues.{Links, Links-frame}
use soi_laboratoria_2025z.Messages.Left.{Left, Links-without, In-front, In-place}
use soi_laboratoria_2025z.Messages.Runs.{if_runnable-sched}
use soi_laboratoria_2025z.Messages.Deliver.{sent_message}
use soi_laboratoria_2025z.Messages.Search.{
  without_first, without_next, leave_queue-first, leave_queue-behind,
}

-- The process table when `x` no longer waits to send.
abbrev pub released : State → Ptr → State
released s x = record s {
  proc = put_flags s.proc x (record ((s.proc x).p_flags) { sending = false });
}

-- The message of `x` at `m_ptr` of the caller.
abbrev with_message : Kernel → (caller x m_ptr : ℕ) → Kernel
with_message k caller x m = record k {
  memory = λ q b.
      if (q == caller) && (b == m) then sent_message k x (k.talk x).p_messbuf else k.memory q b;
}

abbrev accepted_state : Kernel → (caller x m_ptr : ℕ) → (Ptr → Talk) → State → Kernel
accepted_state k caller x m t s = record (with_message k caller x m) { talk = t; sched = s }

-- What is left when the message of `x` is received.
pub record TakenAt (c : Config) (k : Kernel) (xs xs' : List Ptr) (caller x m_ptr : ℕ) (k' : Kernel)
    : Type 0 where
  pub message : k'.memory caller m_ptr ≡ sent_message k x (k.talk x).p_messbuf
  pub memory : (q a : ℕ) → q ≢ caller → k'.memory q a ≡ k.memory q a
  pub left : Left c k xs xs' caller x k'

module _ (c : Config) (k : Kernel) (caller prev x m_ptr : ℕ) (u : InTable c x) where
  accept-step :
      (t : Ptr → Talk) (s : State)
      → leave_queue c caller prev x (with_message k caller x m_ptr)
        ≡ ok tt (record (with_message k caller x m_ptr) { talk = t })
      → if_runnable c x
          (ready (suc c.procs) x)
          (accepted_state k caller x m_ptr t (released k.sched x))
        ≡ ok tt (accepted_state k caller x m_ptr t s)
      → accept c caller prev x m_ptr k ≡ ok done (accepted_state k caller x m_ptr t s)
  unfolding accept load_talk load_proc store_flags cp_mess put_message
  accept-step t s h g = ground (arith, u.0, u.1, h, g)

-- The flags of the table after.
module _ (k : Kernel) (caller x m_ptr : ℕ) (t : Ptr → Talk) (s : State)
    (f : SameFlags (released k.sched x) s) where
  accepted_x : is_sending (accepted_state k caller x m_ptr t s) x ≡ false
  unfolding put_flags
  accepted_x = ground (arith, f x)

  accepted_other :
      (y : Ptr) → y ≢ x → is_sending (accepted_state k caller x m_ptr t s) y ≡ is_sending k y
  unfolding put_flags
  accepted_other y n = ground (arith, f y)

  accepted_message :
      (accepted_state k caller x m_ptr t s).memory caller m_ptr
      ≡ sent_message k x (k.talk x).p_messbuf
  accepted_message = ground arith

  accepted_memory :
      (q a : ℕ) → q ≢ caller → (accepted_state k caller x m_ptr t s).memory q a ≡ k.memory q a
  accepted_memory q a n = ground arith

module _ (c : Config) (k : Kernel) (caller x m_ptr : ℕ) (t : InTable c caller) (u : InTable c x)
    (s : State) (f : SameFlags (released k.sched x) s) where
  first-TakenAt :
      (after : List Ptr)
      → Links c k.talk (k.talk caller).p_callerq (x ∷ after)
      → TakenAt c k (x ∷ after) after caller x m_ptr (
          accepted_state k caller x m_ptr
            (without_first c (with_message k caller x m_ptr) caller x t u)
            s)
  unfolding write_talk
  first-TakenAt after h =
      let t' : Ptr → Talk = without_first c (with_message k caller x m_ptr) caller x t u in
      let at : (t' caller).p_callerq ≡ (k.talk x).p_sendlink = ground arith in
      record {
        message = accepted_message k caller x m_ptr t' s f;
        memory = accepted_memory k caller x m_ptr t' s f;
        left = record {
          sending_x = accepted_x k caller x m_ptr t' s f;
          sending_other = accepted_other k caller x m_ptr t' s f;
          sendto = λ y. ground arith;
          queue =
              subst (λ p. Links c t' p after) (sym at)
                (Links-frame c k.talk t' (k.talk x).p_sendlink after (λ y i. ground arith) h.2);
          queue_other = λ d n. ground arith;
          link_other = λ y i. ground arith;
        };
      }

  behind-TakenAt :
      (y : Ptr) (ys after : List Ptr)
      → Once ((y ∷ ys) ++ (x ∷ after))
      → Links c k.talk (k.talk caller).p_callerq ((y ∷ ys) ++ (x ∷ after))
      → TakenAt c k ((y ∷ ys) ++ (x ∷ after)) ((y ∷ ys) ++ after) caller x m_ptr (
          accepted_state k caller x m_ptr
            (without_next c (with_message k caller x m_ptr) caller x t u (last_of y ys))
            s)
  unfolding write_talk
  behind-TakenAt y ys after o h =
      let t' : Ptr → Talk =
        without_next c (with_message k caller x m_ptr) caller x t u (last_of y ys) in
      let same : (t' caller).p_callerq ≡ (k.talk caller).p_callerq = ground arith in
      record {
        message = accepted_message k caller x m_ptr t' s f;
        memory = accepted_memory k caller x m_ptr t' s f;
        left = record {
          sending_x = accepted_x k caller x m_ptr t' s f;
          sending_other = accepted_other k caller x m_ptr t' s f;
          sendto = λ z. ground arith;
          queue =
              subst (λ p. Links c t' p ((y ∷ ys) ++ after)) (sym same)
                (Links-without c k.talk t' (k.talk caller).p_callerq y x ys after o (ground arith)
                  (λ z n. ground arith) h);
          queue_other = λ d n. ground arith;
          link_other = λ z i.
              let n : z ≢ last_of y ys = λ e. i (
                subst (λ w. In w ((y ∷ ys) ++ (x ∷ after))) (sym e)
                  (In-front (last_of y ys) (y ∷ ys) (x ∷ after) (last_of-In y ys))) in
              ground (arith, n);
        };
      }

module _ (c : Config) (k : Kernel) (caller x m_ptr : ℕ) (t : InTable c caller)
    (u : InTable c x) where
  -- `accept` of the process `x` of the queue, behind `before`.
  pub accept-TakenAt :
      (before after : List Ptr)
      → Once (before ++ (x ∷ after))
      → Links c k.talk (k.talk caller).p_callerq (before ++ (x ∷ after))
      → Returns (λ _ _. Unit {0}) (ready (suc c.procs) x (released k.sched x))
      → Returns
          (λ r k'.
            (r ≡ done) × TakenAt c k (before ++ (x ∷ after)) (before ++ after) caller x m_ptr k')
          (accept c caller (last_of nil_proc before) x m_ptr k)
  accept-TakenAt [] after o h r =
      let w = with_message k caller x m_ptr in
      let t' : Ptr → Talk = without_first c w caller x t u in
      let (s, e, f, ran) =
        if_runnable-sched c (accepted_state k caller x m_ptr t' (released k.sched x)) x u
          (ready (suc c.procs) x) r (ready-RunKeeps (suc c.procs) x (released k.sched x)) in
      rw
        (accept-step c k caller nil_proc x m_ptr u t' s
          (leave_queue-first c w caller x t u nil_proc h.0) e)
        (returns (refl, first-TakenAt c k caller x m_ptr t u s f after h))
  accept-TakenAt (y ∷ ys) after o h r =
      let w = with_message k caller x m_ptr in
      let t' : Ptr → Talk = without_next c w caller x t u (last_of y ys) in
      let (s, e, f, ran) =
        if_runnable-sched c (accepted_state k caller x m_ptr t' (released k.sched x)) x u
          (ready (suc c.procs) x) r (ready-RunKeeps (suc c.procs) x (released k.sched x)) in
      let other : (k.talk caller).p_callerq ≢ x =
        λ g. Fresh-In y x (ys ++ (x ∷ after)) o.0 (In-place x after ys) (sym g ∙ h.0) in
      rw
        (accept-step c k caller (last_of y ys) x m_ptr u t' s
          (leave_queue-behind c w caller x t u (last_of y ys)
            (last_in_table (k.talk caller).p_callerq y ys h) other)
          e)
        (returns (refl, behind-TakenAt c k caller x m_ptr t u s f y ys after o h))
    where
      last_in_table :
          (p y : Ptr) (ys : List Ptr)
          → Links c k.talk p ((y ∷ ys) ++ (x ∷ after))
          → InTable c (last_of y ys)
      last_in_table p y [] h = h.1
      last_in_table p y (z ∷ zs) h = last_in_table (k.talk y).p_sendlink z zs h.2
