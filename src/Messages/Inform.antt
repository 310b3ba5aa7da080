-- ===== src/Messages/Inform.antt =====
-- `inform` of kernel/system.c, by which MM is told of the kernel signals of a process when it waits.
use soi_laboratoria_2025z.Base.{
  ℕ, zero, suc, ◌+◌, ◌-◌, ◌≤◌, ◌<◌, ◌≡◌, ◌≢◌, ◌⊎◌, inl, inr, refl, ◌∙◌, true, false, List, [],
  arith, ltb, leb, ◌==◌, ◌&&◌, if◌then◌else◌, Bool-cases, ok, Returns, returns, mono,
}
use soi_laboratoria_2025z.Kernel.Defs.{Ptr, State, g2, pick_proc}
use soi_laboratoria_2025z.Kernel.Sched.{locked, set_switching}
use soi_laboratoria_2025z.Kernel.KeepFlags.{SameFlags, pick_proc-RunKeeps}
use soi_laboratoria_2025z.Kernel.Chain.{Chain, Chain-kept}
use soi_laboratoria_2025z.Kernel.Pick.{pick_proc-Picked}
use soi_laboratoria_2025z.Kernel.Serving.{Serving-kept}
use soi_laboratoria_2025z.Messages.Defs.{
  Kernel, Config, done, load_talk, store_talk, load_proc, store_flags, put_flags, write_talk,
  put_message, on_sched,
}
use soi_laboratoria_2025z.Messages.Calls.{
  mini_send, lock_mini_send, count_informed, inform_of, inform_from, inform,
}
use soi_laboratoria_2025z.Messages.Runs.{locked-Returns, on_sched-Returns, with_flags}
use soi_laboratoria_2025z.Messages.Path.{InTable}
use soi_laboratoria_2025z.Messages.Joined.{same_or}
use soi_laboratoria_2025z.Messages.Same.{SameWaits, SameWaits-NoCycle}
use soi_laboratoria_2025z.Messages.Deliver.{received, delivered_state}
use soi_laboratoria_2025z.Messages.Tell.{
  is_pending, signal_message, InformedAt, CanInform, put_flags_next, delivery,
}

-- The states of `inform_of`: before MM is told, and after it.
abbrev telling : Config → Kernel → (m : ℕ) → (p : Ptr) → Kernel
telling c k m p = record k {
  memory = λ q b. if (q == c.hardware) && (b == m) then signal_message c k p else k.memory q b;
  sig_procs = k.sig_procs - 1;
  sched = record (k.sched) { switching = true };
}

abbrev told_state : Kernel → (p : Ptr) → Kernel
told_state k p = record k {
  talk = write_talk k.talk p (record (k.talk p) { p_pending = [] });
  sched = record (k.sched) {
    switching = false;
    proc = put_flags k.sched.proc p (record ((k.sched.proc p).p_flags) { pending = false });
  };
}

module _ (c : Config) (k : Kernel) (m : ℕ) (p : Ptr) (u : InTable c p) where
  in_table : ltb 0 p && leb p c.procs ≡ true
  in_table = ground (arith, u.0, u.1)

  inform_of-step :
      (k' : Kernel)
      → mini_send c c.hardware c.mm m (telling c k m p) ≡ ok done k'
      → inform_of c m p k ≡ on_sched (locked (pick_proc (suc c.procs))) (told_state k' p)
  unfolding inform_of load_talk store_talk load_proc store_flags put_message count_informed
      lock_mini_send on_sched set_switching
  inform_of-step k' h = rw (in_table, h, in_table, in_table, in_table, in_table) refl

  telling-SameWaits : SameWaits k (telling c k m p)
  telling-SameWaits = record {
    sending = λ x. refl;
    sendto = λ x. refl;
    link = λ x. refl;
    queue = λ x. refl;
  }

  telling-CanInform :
      (servers twos : List Ptr)
      → CanInform c k m servers twos
      → CanInform c (telling c k m p) m servers twos
  telling-CanInform servers twos i = record {
    mm_in = i.mm_in;
    hw_in = i.hw_in;
    hw_apart = i.hw_apart;
    hw_task = i.hw_task;
    mm_server = i.mm_server;
    fits = i.fits;
    receives = i.receives;
    idle = i.idle;
    from_any = i.from_any;
    serving =
        Serving-kept k.sched (record (k.sched) { switching = true }) (suc c.procs) c.mm servers twos
          (λ q. refl) (λ a. refl) i.serving;
    no_cycle = SameWaits-NoCycle c k (telling c k m p) telling-SameWaits i.no_cycle;
  }

-- The end of `inform_of` in the state `k1` of the delivery, from the state `k` before.
module _ (c : Config) (k : Kernel) (m : ℕ) (p : Ptr) (u : InTable c p)
    (hw_apart : c.hardware ≢ c.mm) (s t : State) (f : SameFlags (received k.sched c.mm) s) where
  abbrev told : Kernel
  told = told_state (record (delivered_state (telling c k m p) c.hardware c.mm m) { sched = s }) p

  told-InformedAt : SameFlags told.sched t → InformedAt c k p (record told { sched = t })
  unfolding write_talk put_flags
  told-InformedAt g = record {
    message = ground (arith, hw_apart);
    awake = ground (arith, f c.mm, g c.mm);
    told = ground arith;
    no_more = ground (arith, g p);
    count = refl;
    same = record {
      sending = λ x. ground (arith, f x, g x);
      sendto = λ x. ground arith;
      link = λ x. ground arith;
      queue = λ x. ground arith;
    };
  }

-- MM is told of the signals of `p`.
inform_of-InformedAt :
    (c : Config) (k : Kernel) (m : ℕ) (servers twos : List Ptr) (p : Ptr)
    → CanInform c k m servers twos
    → InTable c p
    → Returns (λ _ k'. InformedAt c k p k') (inform_of c m p k)
inform_of-InformedAt c k m servers twos p i u =
    let n = suc c.procs in
    let (s, e, f, two) =
      delivery c (telling c k m p) m servers twos (telling-CanInform c k m p u servers twos i) in
    let k1 : Kernel = told c k m p u i.hw_apart s s f in
    let two1 : Chain k1.sched.proc (k1.sched.queue g2).head twos =
      Chain-kept s.proc k1.sched.proc
        (put_flags_next s p (record ((s.proc p).p_flags) { pending = false })) (s.queue g2).head
        twos two in
    rw (inform_of-step c k m p u _ e) (
      mono
        (on_sched-Returns (locked (pick_proc n)) k1 (
          locked-Returns (pick_proc n) k1.sched (
            with_flags (record (k1.sched) { switching = true })
              (pick_proc n (record (k1.sched) { switching = true }))
              (pick_proc-Picked (record (k1.sched) { switching = true }) n twos two1
                i.serving.two_short)
              (pick_proc-RunKeeps n (record (k1.sched) { switching = true })))))
        (λ _ k' (t, (t2, (_, same), e2), e1).
          rw (e1, e2)
            (told-InformedAt c k m p u i.hw_apart s (record t2 { switching = false }) f same)))

-- The first process with pending signals among `n` slots from `rp` on, or none.
abbrev pub FirstPending : Kernel → (n : ℕ) → (rp p : Ptr) → Type 0
FirstPending k n rp p =
    (rp ≤ p)
    × (p < rp + n)
    × (is_pending k p ≡ true)
    × ((q : Ptr) → rp ≤ q → q < p → is_pending k q ≡ false)

abbrev pub NonePending : Kernel → (n : ℕ) → (rp : Ptr) → Type 0
NonePending k n rp = (q : Ptr) → rp ≤ q → q < rp + n → is_pending k q ≡ false

module _ (c : Config) (k : Kernel) (m : ℕ) where
  inform_from-end : (rp : Ptr) → inform_from c m zero rp k ≡ ok tt k
  unfolding inform_from
  inform_from-end rp = refl

  inform_from-step :
      (n : ℕ) (rp : Ptr)
      → InTable c rp
      → inform_from c m (suc n) rp k
        ≡ (if is_pending k rp then inform_of c m rp k else inform_from c m n (suc rp) k)
  unfolding inform_from load_proc
  inform_from-step n rp u = ground (arith, u.0, u.1)

  -- What the loop finds.
  inform_from-finds :
      (n : ℕ) (rp : Ptr)
      → 0 < rp
      → rp + n ≤ suc c.procs
      → (NonePending k n rp × (inform_from c m n rp k ≡ ok tt k))
        ⊎ ((p : Ptr) × FirstPending k n rp p × (inform_from c m n rp k ≡ inform_of c m p k))
  inform_from-finds zero rp lo hi =
      inl ((λ q a b. absurd (omega (arith, a, b))), inform_from-end rp)
  inform_from-finds (suc n) rp lo hi = elim (Bool-cases (is_pending k rp)) [
    | inl hit ↦ inr (
      rp,
      (omega arith, omega arith, hit, λ q a b. absurd (omega (arith, a, b))),
      rw (inform_from-step n rp (lo, omega (arith, hi)), hit) refl,
    )
    | inr miss ↦
        let e : inform_from c m (suc n) rp k ≡ inform_from c m n (suc rp) k =
          rw (inform_from-step n rp (lo, omega (arith, hi)), miss) refl in
        let first : (q : Ptr) → rp ≤ q → (q ≡ rp → is_pending k q ≡ false) = λ q a g. rw g miss in
        elim (inform_from-finds n (suc rp) (omega arith) (omega (arith, hi))) [
          | inl (none, g) ↦ inl (
            (λ q a b. elim (same_or q rp) [
              | inl here ↦ rw here miss
              | inr on ↦ none q (ground (arith, a, on)) (omega (arith, b))
            ]),
            e ∙ g,
          )
          | inr (p, (lo', hi', set, before), g) ↦ inr (
            p,
            (
              omega (arith, lo'),
              omega (arith, hi'),
              set,
              λ q a b. elim (same_or q rp) [
                | inl here ↦ rw here miss
                | inr on ↦ before q (ground (arith, a, on)) b
              ],
            ),
            e ∙ g,
          )
        ]
  ]

-- What is left when `inform` was called: MM knows of the first process with pending signals, if there is any.
pub data Informed (c : Config) (k : Kernel) : Kernel → Type 0 where
  nothing : NonePending k (c.procs - c.tasks) (suc c.tasks) → Informed c k k
  informed :
      {k' : Kernel} (p : Ptr)
      → FirstPending k (c.procs - c.tasks) (suc c.tasks) p
      → InformedAt c k p k'
      → Informed c k k'

pub inform-Informed :
    (c : Config) (k : Kernel) (m : ℕ) (servers twos : List Ptr)
    → CanInform c k m servers twos
    → c.tasks ≤ c.procs
    → Returns (λ _ k'. Informed c k k') (inform c m k)
unfolding inform
inform-Informed c k m servers twos i le =
    elim (inform_from-finds c k m (c.procs - c.tasks) (suc c.tasks) (omega arith)
      (omega (arith, le))) [
        | inl (none, e) ↦ rw e (returns (nothing none))
        | inr (p, first, e) ↦ rw e (
            mono
              (inform_of-InformedAt c k m servers twos p i
                (omega (arith, first.0), omega (arith, first.1, le)))
              (λ _ k' w. informed p first w))
      ]

pub Informed-SameWaits : (c : Config) (k k' : Kernel) → Informed c k k' → SameWaits k k'
Informed-SameWaits c k k' (nothing none) = record {
  sending = λ x. refl;
  sendto = λ x. refl;
  link = λ x. refl;
  queue = λ x. refl;
}
Informed-SameWaits c k k' (informed p first i) = i.same
