-- ===== src/Messages/Queues.antt =====
-- The caller queues of kernel/proc.c: the processes that wait to send to each process.
use soi_laboratoria_2025z.Base.{
  ℕ, zero, suc, ◌≤◌, ◌<◌, ◌≡◌, ◌≢◌, inl, inr, refl, sym, true, false, List, [], ◌∷◌, ◌++◌, length,
  arith, ◌==◌, if◌then◌else◌, ok,
}
use soi_laboratoria_2025z.Kernel.Defs.{Ptr, nil_proc}
use soi_laboratoria_2025z.Kernel.Chain.{In}
use soi_laboratoria_2025z.Kernel.Estimate.{Once, Fresh-In}
use soi_laboratoria_2025z.Kernel.Rotate.{last_of, last_of-In}
use soi_laboratoria_2025z.Messages.Defs.{
  Talk, Kernel, Config, load_talk, store_talk, write_talk, last_caller,
}
use soi_laboratoria_2025z.Messages.Calls.{queue_caller}
use soi_laboratoria_2025z.Messages.Path.{InTable, is_sending}

-- The processes `xs` follow each other by `p_sendlink` from `p` on, and no other.
abbrev pub Links : Config → (Ptr → Talk) → Ptr → List Ptr → Type 0
Links c t p [] = p ≡ nil_proc
Links c t p (x ∷ xs) = (p ≡ x) × InTable c x × Links c t (t x).p_sendlink xs

-- The caller queue of each process holds the processes that are blocked sending to it, each once, in the
-- order of `lists`.
pub record Callers (c : Config) (k : Kernel) (lists : Ptr → List Ptr) : Type 0 where
  pub links : (d : Ptr) → InTable c d → Links c k.talk (k.talk d).p_callerq (lists d)
  pub once : (d : Ptr) → InTable c d → Once (lists d)
  pub sends :
      (d x : Ptr)
      → InTable c d
      → In x (lists d)
      → (is_sending k x ≡ true) × ((k.talk x).p_sendto ≡ d)
  pub waits : (x : Ptr) → InTable c x → is_sending k x ≡ true → In x (lists (k.talk x).p_sendto)

pub Links-frame :
    (c : Config) (t t' : Ptr → Talk) (p : Ptr) (xs : List Ptr)
    → ((x : Ptr) → In x xs → (t' x).p_sendlink ≡ (t x).p_sendlink)
    → Links c t p xs
    → Links c t' p xs
Links-frame c t t' p [] same h = h
Links-frame c t t' p (x ∷ xs) same h = (
  h.0,
  h.1,
  rw (same x (inl refl)) (Links-frame c t t' (t x).p_sendlink xs (λ y i. same y (inr i)) h.2),
)

-- A process put behind the last one.
pub Links-append :
    (c : Config) (t t' : Ptr → Talk) (p x : Ptr) (xs : List Ptr) (new : Ptr)
    → InTable c new
    → Once (x ∷ xs)
    → (t' (last_of x xs)).p_sendlink ≡ new
    → (t' new).p_sendlink ≡ nil_proc
    → ((y : Ptr) → In y (x ∷ xs) → y ≢ last_of x xs → (t' y).p_sendlink ≡ (t y).p_sendlink)
    → Links c t p (x ∷ xs)
    → Links c t' p ((x ∷ xs) ++ (new ∷ []))
Links-append c t t' p x [] new at once last end same h = (h.0, h.1, (last, at, end))
Links-append c t t' p x (y ∷ ys) new at once last end same h =
    let apart : x ≢ last_of y ys =
      λ e. Fresh-In x (last_of y ys) (y ∷ ys) once.0 (last_of-In y ys) (sym e) in
    (
      h.0,
      h.1,
      rw (same x (inl refl) apart) (
          Links-append c t t' (t x).p_sendlink y ys new at once.1 last end (λ z i. same z (inr i))
            h.2),
    )

module _ (c : Config) (k : Kernel) where
  last_caller-step :
      (fuel : ℕ) (x : Ptr)
      → InTable c x
      → last_caller c (suc fuel) x k ≡ (
          if (k.talk x).p_sendlink == nil_proc
          then ok x k
          else last_caller c fuel (k.talk x).p_sendlink k)
  unfolding last_caller load_talk
  last_caller-step fuel x t = ground (arith, t.0, t.1)

  last_caller-last :
      (fuel : ℕ) (p x : Ptr) (xs : List Ptr)
      → Links c k.talk p (x ∷ xs)
      → length xs < fuel
      → last_caller c fuel p k ≡ ok (last_of x xs) k
  last_caller-last zero p x xs h lt = absurd (omega arith)
  last_caller-last (suc fuel) p x [] h lt = rw (h.0, last_caller-step fuel x h.1, h.2) refl
  last_caller-last (suc fuel) p x (y ∷ ys) h lt =
      let more : ((k.talk x).p_sendlink == nil_proc) ≡ false = rw h.2.0 (ground (arith, h.2.1.0)) in
      rw (h.0, last_caller-step fuel x h.1, more)
        (last_caller-last fuel (k.talk x).p_sendlink y ys h.2 (omega arith))

  Links-last : (p x : Ptr) (xs : List Ptr) → Links c k.talk p (x ∷ xs) → InTable c (last_of x xs)
  Links-last p x [] h = h.1
  Links-last p x (y ∷ ys) h = Links-last (k.talk x).p_sendlink y ys h.2

  -- The table after the caller has gone to the end of an empty queue, and behind `last`.
  abbrev pub first_caller : (caller dest : Ptr) → Ptr → Talk
  first_caller caller dest =
      let t = write_talk k.talk dest (record (k.talk dest) { p_callerq = caller }) in
      write_talk t caller (record (t caller) { p_sendlink = nil_proc })

  abbrev pub behind_last : (caller last : Ptr) → Ptr → Talk
  behind_last caller last =
      let t = write_talk k.talk last (record (k.talk last) { p_sendlink = caller }) in
      write_talk t caller (record (t caller) { p_sendlink = nil_proc })

  pub queue_caller-first :
      (caller dest : Ptr)
      → InTable c caller
      → InTable c dest
      → (k.talk dest).p_callerq ≡ nil_proc
      → queue_caller c caller dest k ≡ ok tt (record k { talk = first_caller caller dest })
  unfolding queue_caller load_talk store_talk
  queue_caller-first caller dest t u h = ground (arith, t.0, t.1, u.0, u.1, h)

  queue_caller-step :
      (caller dest last : Ptr)
      → InTable c caller
      → InTable c dest
      → InTable c last
      → (k.talk dest).p_callerq ≢ nil_proc
      → last_caller c (suc c.procs) (k.talk dest).p_callerq k ≡ ok last k
      → queue_caller c caller dest k ≡ ok tt (record k { talk = behind_last caller last })
  unfolding queue_caller load_talk store_talk
  queue_caller-step caller dest last t u v h l = ground (arith, t.0, t.1, u.0, u.1, v.0, v.1, h, l)

  pub queue_caller-behind :
      (caller dest x : Ptr) (xs : List Ptr)
      → InTable c caller
      → InTable c dest
      → Links c k.talk (k.talk dest).p_callerq (x ∷ xs)
      → length xs ≤ c.procs
      → queue_caller c caller dest k ≡ ok tt (record k { talk = behind_last caller (last_of x xs) })
  queue_caller-behind caller dest x xs t u h le =
      queue_caller-step caller dest (last_of x xs) t u (Links-last (k.talk dest).p_callerq x xs h)
        (λ e. let n : 0 < x = h.1.0 in omega (arith, e, h.0))
        (last_caller-last (suc c.procs) (k.talk dest).p_callerq x xs h (omega arith))
