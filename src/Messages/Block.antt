-- ===== src/Messages/Block.antt =====
-- `block_caller`, the part of `mini_send` in kernel/proc.c that blocks the caller.
use soi_laboratoria_2025z.Base.{
  ℕ, suc, ◌≤◌, ◌≡◌, ◌≢◌, refl, sym, subst, ◌∙◌, true, List, [], ◌∷◌, ◌++◌, length, arith, ok,
  Returns, returns,
}
use soi_laboratoria_2025z.Kernel.Defs.{Ptr, State}
use soi_laboratoria_2025z.Kernel.Sched.{unready}
use soi_laboratoria_2025z.Kernel.KeepFlags.{SameFlags, unready-RunKeeps}
use soi_laboratoria_2025z.Kernel.Chain.{In}
use soi_laboratoria_2025z.Kernel.Estimate.{Once}
use soi_laboratoria_2025z.Kernel.Rotate.{last_of, last_of-In}
use soi_laboratoria_2025z.Messages.Defs.{
  Talk, Kernel, Config, load_talk, store_talk, write_talk, load_proc, store_flags, put_flags,
}
use soi_laboratoria_2025z.Messages.Calls.{if_runnable, queue_caller, block_caller}
use soi_laboratoria_2025z.Messages.Path.{InTable, is_sending}
use soi_laboratoria_2025z.Messages.Queues.{
  Links, Links-frame, Links-append, queue_caller-first, queue_caller-behind, first_caller,
  behind_last,
}
use soi_laboratoria_2025z.Messages.Joined.{Blocked}
use soi_laboratoria_2025z.Messages.Runs.{if_runnable-sched}

-- The tables and the state when the caller is blocked, before it is queued.
abbrev with_buffer : (Ptr → Talk) → (caller m_ptr : ℕ) → Ptr → Talk
with_buffer t caller m = write_talk t caller (record (t caller) { p_messbuf = m })

abbrev with_target : (Ptr → Talk) → (caller dest : Ptr) → Ptr → Talk
with_target t caller dest = write_talk t caller (record (t caller) { p_sendto = dest })

abbrev blocked_state : Kernel → State → (caller dest : Ptr) → (m_ptr : ℕ) → Kernel
blocked_state k s caller dest m = record k {
  talk = with_target (with_buffer k.talk caller m) caller dest;
  sched = record s {
    proc = put_flags s.proc caller (record ((s.proc caller).p_flags) { sending = true });
  };
}

module _ (c : Config) (k : Kernel) (s : State) (caller dest m_ptr : ℕ) (t : InTable c caller) where
  block_caller-step :
      if_runnable c caller
          (unready (suc c.procs) caller)
          (record k { talk = with_buffer k.talk caller m_ptr })
        ≡ ok tt (record k { talk = with_buffer k.talk caller m_ptr; sched = s })
      → block_caller c caller dest m_ptr k
        ≡ queue_caller c caller dest (blocked_state k s caller dest m_ptr)
  unfolding block_caller load_talk store_talk load_proc store_flags
  block_caller-step h = ground (arith, t.0, t.1, h)

-- What the caller's slot changes to leaves the queues, and the flags of the others.
module _ (k : Kernel) (s : State) (caller dest m_ptr : ℕ) where
  blocked_queue :
      (x : Ptr) → ((blocked_state k s caller dest m_ptr).talk x).p_callerq ≡ (k.talk x).p_callerq
  unfolding write_talk
  blocked_queue x = ground arith

  blocked_link :
      (x : Ptr) → ((blocked_state k s caller dest m_ptr).talk x).p_sendlink ≡ (k.talk x).p_sendlink
  unfolding write_talk
  blocked_link x = ground arith

  blocked_flags :
      SameFlags k.sched s
      → (x : Ptr) → x ≢ caller
      → is_sending (blocked_state k s caller dest m_ptr) x ≡ is_sending k x
  unfolding put_flags
  blocked_flags f x n = ground (arith, f x)

  blocked_caller : is_sending (blocked_state k s caller dest m_ptr) caller ≡ true
  unfolding put_flags
  blocked_caller = ground arith

  blocked_Links :
      (c : Config) (xs : List Ptr)
      → Links c k.talk (k.talk dest).p_callerq xs
      → Links c
          (blocked_state k s caller dest m_ptr).talk
          ((blocked_state k s caller dest m_ptr).talk dest).p_callerq
          xs
  blocked_Links c xs h = rw (blocked_queue dest) (
      Links-frame c k.talk (blocked_state k s caller dest m_ptr).talk (k.talk dest).p_callerq xs
        (λ x i. blocked_link x) h)

module _ (c : Config) (k : Kernel) (s : State) (caller dest m_ptr : ℕ) (t : InTable c caller)
    (f : SameFlags k.sched s) (apart : caller ≢ dest) where
  queued_first : Blocked c k [] caller dest (record (blocked_state k s caller dest m_ptr) {
    talk = first_caller c (blocked_state k s caller dest m_ptr) caller dest;
  })
  unfolding write_talk
  queued_first = record {
    sending_caller = blocked_caller k s caller dest m_ptr;
    sendto_caller = ground arith;
    sending_other = blocked_flags k s caller dest m_ptr f;
    sendto_other = λ x h. ground arith;
    queue = (ground arith, t, ground arith);
    queue_other = λ d h. ground arith;
    link_other = λ x h i. ground arith;
  }

  queued_behind :
      (x : Ptr) (xs : List Ptr)
      → Once (x ∷ xs)
      → (In caller (x ∷ xs) → ⊥)
      → Links c k.talk (k.talk dest).p_callerq (x ∷ xs)
      → Blocked c k (x ∷ xs) caller dest (record (blocked_state k s caller dest m_ptr) {
        talk = behind_last c (blocked_state k s caller dest m_ptr) caller (last_of x xs);
      })
  unfolding write_talk
  queued_behind x xs o n h =
      let i : In (last_of x xs) (x ∷ xs) = last_of-In x xs in
      let ne : last_of x xs ≢ caller = λ e. n (subst (λ z. In z (x ∷ xs)) e i) in
      let b : Kernel = blocked_state k s caller dest m_ptr in
      let t' : Ptr → Talk = behind_last c b caller (last_of x xs) in
      let same : (t' dest).p_callerq ≡ (b.talk dest).p_callerq = ground (arith, ne) in
      record {
        sending_caller = blocked_caller k s caller dest m_ptr;
        sendto_caller = ground (arith, ne);
        sending_other = blocked_flags k s caller dest m_ptr f;
        sendto_other = λ y g. ground (arith, ne);
        queue =
            subst (λ p. Links c t' p (x ∷ (xs ++ (caller ∷ [])))) (sym same)
              (Links-append c b.talk t' (b.talk dest).p_callerq x xs caller t o (ground (arith, ne))
                (ground arith)
                (λ y j g.
                  let m : y ≢ caller = λ e. n (subst (λ z. In z (x ∷ xs)) e j) in
                  ground (arith, m, g))
                (blocked_Links k s caller dest m_ptr c (x ∷ xs) h));
        queue_other = λ d g. ground (arith, ne);
        link_other = λ y g j.
            let m : y ≢ last_of x xs = λ e. j (subst (λ z. In z (x ∷ xs)) (sym e) i) in
            ground (arith, ne, m);
      }

-- What is left when the caller is blocked: who waits, in which order, and where the messages are.
pub record BlockedAt (c : Config) (k : Kernel) (xs : List Ptr) (caller dest m_ptr : ℕ) (k' : Kernel)
    : Type 0 where
  pub blocked : Blocked c k xs caller dest k'
  pub buffer : (k'.talk caller).p_messbuf ≡ m_ptr
  pub memory : k'.memory ≡ k.memory

module _ (c : Config) (k : Kernel) (caller dest m_ptr : ℕ) (t : InTable c caller)
    (u : InTable c dest) (apart : caller ≢ dest) where
  pub block_caller-BlockedAt :
      (xs : List Ptr)
      → Links c k.talk (k.talk dest).p_callerq xs
      → Once xs
      → length xs ≤ c.procs
      → (In caller xs → ⊥)
      → Returns (λ _ _. Unit {0}) (unready (suc c.procs) caller k.sched)
      → Returns (λ _ k'. BlockedAt c k xs caller dest m_ptr k') (block_caller c caller dest m_ptr k)
  unfolding write_talk
  block_caller-BlockedAt [] h o le n r =
      let (s, e, f, ran) =
        if_runnable-sched c (record k { talk = with_buffer k.talk caller m_ptr }) caller t
          (unready (suc c.procs) caller) r (unready-RunKeeps (suc c.procs) caller k.sched) in
      let b : Kernel = blocked_state k s caller dest m_ptr in
      rw
        (
          block_caller-step c k s caller dest m_ptr t e,
          queue_caller-first c b caller dest t u (blocked_queue k s caller dest m_ptr dest ∙ h),
        )
        (returns (record {
          blocked = queued_first c k s caller dest m_ptr t f apart;
          buffer = ground arith;
          memory = refl;
        }))
  block_caller-BlockedAt (x ∷ xs) h o le n r =
      let (s, e, f, ran) =
        if_runnable-sched c (record k { talk = with_buffer k.talk caller m_ptr }) caller t
          (unready (suc c.procs) caller) r (unready-RunKeeps (suc c.procs) caller k.sched) in
      let b : Kernel = blocked_state k s caller dest m_ptr in
      let ne : last_of x xs ≢ caller = λ g. n (subst (λ z. In z (x ∷ xs)) g (last_of-In x xs)) in
      rw
        (
          block_caller-step c k s caller dest m_ptr t e,
          queue_caller-behind c b caller dest x xs t u
              (blocked_Links k s caller dest m_ptr c (x ∷ xs) h) (omega arith),
        )
        (returns (record {
          blocked = queued_behind c k s caller dest m_ptr t f apart x xs o n h;
          buffer = ground (arith, ne);
          memory = refl;
        }))
