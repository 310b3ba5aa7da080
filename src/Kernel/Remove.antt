-- ===== src/Kernel/Remove.antt =====
-- `unready_from_group` of kernel/proc.c takes one process out of the queue of its group.
use soi_laboratoria_2025z.Base.{
  ℕ, suc, ◌≡◌, ◌≢◌, refl, sym, ◌∙◌, true, false, List, [], ◌∷◌, arith, ◌==◌, if◌then◌else◌, ok,
  Returns, returns,
}
use soi_laboratoria_2025z.Kernel.Defs.{Ptr, nil_proc, Proc, State, QueueId, write, same_queue}
use soi_laboratoria_2025z.Kernel.Sched.{unlink}
use soi_laboratoria_2025z.Kernel.Chain.{Chain}
use soi_laboratoria_2025z.Kernel.Estimate.{Fresh, Once, Fresh-In}
use soi_laboratoria_2025z.Kernel.Rotate.{last_of, last_of-In}
use soi_laboratoria_2025z.Kernel.Enqueue.{same_queue_refl}

-- The list without the first `rp` in it.
unfoldable pub without : Ptr → List Ptr → List Ptr
without rp [] = []
without rp (x ∷ xs) = let rest = without rp xs in if x == rp then xs else x ∷ rest

pub without_here : (rp x : Ptr) (xs : List Ptr) → x ≡ rp → without rp (x ∷ xs) ≡ xs
unfolding without
without_here rp x xs h = let e : (x == rp) ≡ true = ground arith in rw e refl

pub without_there : (rp x : Ptr) (xs : List Ptr) → x ≢ rp → without rp (x ∷ xs) ≡ x ∷ without rp xs
unfolding without
without_there rp x xs h = let e : (x == rp) ≡ false = ground arith in rw e refl

pub without_nil : (rp : Ptr) → without rp [] ≡ []
unfolding without
without_nil rp = refl

-- The table after what follows `xp` is what followed `rp`.
bypassed : (Ptr → Proc) → (rp xp : Ptr) → Ptr → Proc
bypassed t rp xp = write t xp (record (t xp) { p_nextready = (t rp).p_nextready })

bypassed_other : (t : Ptr → Proc) (rp xp a : Ptr) → a ≢ xp → bypassed t rp xp a ≡ t a
unfolding bypassed write
bypassed_other t rp xp a h = ground arith

bypassed_next :
    (t : Ptr → Proc) (rp xp : Ptr) → (bypassed t rp xp xp).p_nextready ≡ (t rp).p_nextready
unfolding bypassed write
bypassed_next t rp xp = ground arith

bypassed_priority :
    (t : Ptr → Proc) (rp xp a : Ptr) → (bypassed t rp xp a).p_priority ≡ (t a).p_priority
unfolding bypassed write
bypassed_priority t rp xp a = ground arith

bypassed-Chain :
    (t : Ptr → Proc) (rp xp p : Ptr) (xs : List Ptr)
    → Fresh xp xs
    → Chain t p xs
    → Chain (bypassed t rp xp) p xs
bypassed-Chain t rp xp p [] f c = c
bypassed-Chain t rp xp p (x ∷ xs) f c = (
  c.0,
  c.1,
  rw (bypassed_other t rp xp x (λ e. f.0 (sym e)))
      (bypassed-Chain t rp xp (t x).p_nextready xs f.1 c.2),
)

module _ (s : State) (fuel : ℕ) (rp x : Ptr) (q : QueueId) (ne : x ≢ nil_proc)
    (rne : rp ≢ nil_proc) where
  pub unlink_missing : (s.proc x).p_nextready ≡ nil_proc → unlink (suc fuel) rp x q s ≡ ok tt s
  unfolding unlink
  unlink_missing h = ground arith

  pub unlink_step :
      (s.proc x).p_nextready ≢ nil_proc
      → (s.proc x).p_nextready ≢ rp
      → unlink (suc fuel) rp x q s ≡ unlink fuel rp (s.proc x).p_nextready q s
  unfolding unlink
  unlink_step h g = ground arith

  unlink_inner :
      (s.proc x).p_nextready ≡ rp
      → (s.queue q).tail ≢ rp
      → unlink (suc fuel) rp x q s ≡ ok tt (record s { proc = bypassed s.proc rp x })
  unfolding unlink bypassed
  unlink_inner h g = ground arith

  unlink_last :
      (s.proc x).p_nextready ≡ rp
      → (s.queue q).tail ≡ rp
      → unlink (suc fuel) rp x q s
        ≡ ok tt (record s {
          proc = bypassed s.proc rp x;
          queue = λ j. if same_queue j q then record (s.queue q) { tail = x } else s.queue j;
        })
  unfolding unlink bypassed
  unlink_last h g = ground arith

-- What the search from `x` on, with `xs` behind it, leaves.
abbrev pub Unlinked : State → QueueId → (rp x : Ptr) → List Ptr → State → Type 0
Unlinked s q rp x xs s' =
    Chain s'.proc x (x ∷ without rp xs)
    × ((a : Ptr) → Fresh a (x ∷ xs) → s'.proc a ≡ s.proc a)
    × ((s'.queue q).head ≡ (s.queue q).head)
    × ((s'.queue q).tail ≡ last_of x (without rp xs))
    × ((j : QueueId) → same_queue j q ≡ false → s'.queue j ≡ s.queue j)
    × ((a : Ptr) → (s'.proc a).p_priority ≡ (s.proc a).p_priority)

module _ (s : State) (rp : Ptr) (q : QueueId) (rne : rp ≢ nil_proc) where
  pub unlink_found :
      (fuel : ℕ) (x : Ptr) (ys : List Ptr)
      → Chain s.proc x (x ∷ rp ∷ ys)
      → Once (x ∷ rp ∷ ys)
      → (s.queue q).tail ≡ last_of rp ys
      → Returns (λ _ s'. Unlinked s q rp x (rp ∷ ys) s') (unlink (suc fuel) rp x q s)
  unlink_found fuel x [] c o last =
      rw (unlink_last s fuel rp x q c.1 rne c.2.0 last, without_here rp rp [] refl)
        (returns (
          (refl, c.1, bypassed_next s.proc rp x ∙ c.2.2),
          (λ a f. bypassed_other s.proc rp x a f.0),
          rw (same_queue_refl q) refl,
          rw (same_queue_refl q) refl,
          (λ j n. rw n refl),
          bypassed_priority s.proc rp x,
        ))
  unlink_found fuel x (z ∷ zs) c o last =
      let kept : (s.queue q).tail ≢ rp =
        λ e. Fresh-In rp (last_of z zs) (z ∷ zs) o.1.0 (last_of-In z zs) (sym last ∙ e) in
      rw (unlink_inner s fuel rp x q c.1 rne c.2.0 kept, without_here rp rp (z ∷ zs) refl)
        (returns (
          (
            refl,
            c.1,
            rw (bypassed_next s.proc rp x)
                (bypassed-Chain s.proc rp x (s.proc rp).p_nextready (z ∷ zs) o.0.1 c.2.2),
          ),
          (λ a f. bypassed_other s.proc rp x a f.0),
          refl,
          last,
          (λ j n. refl),
          bypassed_priority s.proc rp x,
        ))
