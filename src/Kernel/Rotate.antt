-- ===== src/Kernel/Rotate.antt =====
-- Round robin: `sched` of kernel/proc.c for a running process of group 1.
use soi_laboratoria_2025z.Base.{
  ℕ, ◌≡◌, ◌≢◌, inl, inr, refl, sym, ◌∙◌, List, [], ◌∷◌, ◌++◌, arith, if◌then◌else◌, ok, Returns,
  returns,
}
use soi_laboratoria_2025z.Kernel.Defs.{
  Ptr, nil_proc, Proc, State, task_q, server_q, g1, ppri_user, write, same_queue, is_user,
  pick_proc,
}
use soi_laboratoria_2025z.Kernel.Sched.{sched, rotate_group1}
use soi_laboratoria_2025z.Kernel.Chain.{Chain, In}
use soi_laboratoria_2025z.Kernel.Estimate.{Fresh, Once, Fresh-In}
use soi_laboratoria_2025z.Kernel.Pick.{pick_proc_of_user, pick_user_of_group1}

-- The last of `x` and the list behind it.
abbrev pub last_of : Ptr → List Ptr → Ptr
last_of x [] = x
last_of x (y ∷ ys) = last_of y ys

pub last_of-In : (x : Ptr) (xs : List Ptr) → In (last_of x xs) (x ∷ xs)
last_of-In x [] = inl refl
last_of-In x (y ∷ ys) = inr (last_of-In y ys)

pub last_of_ne :
    (t : Ptr → Proc) (p x : Ptr) (xs : List Ptr) → Chain t p (x ∷ xs) → last_of x xs ≢ nil_proc
last_of_ne t p x [] c = c.1
last_of_ne t p x (y ∷ ys) c = last_of_ne t (t x).p_nextready y ys c.2

-- A table `t'` that differs from `t` in that the last process of a chain is followed by `rp`.
pub append-Chain :
    (t t' : Ptr → Proc) (rp p x : Ptr) (xs : List Ptr)
    → rp ≢ nil_proc
    → Chain t p (x ∷ xs)
    → Once (x ∷ xs)
    → Fresh rp (x ∷ xs)
    → (t' (last_of x xs)).p_nextready ≡ rp
    → (t' rp).p_nextready ≡ nil_proc
    → ((a : Ptr) → a ≢ last_of x xs → a ≢ rp → (t' a).p_nextready ≡ (t a).p_nextready)
    → Chain t' p (x ∷ (xs ++ (rp ∷ [])))
append-Chain t t' rp p x [] ne c o f hl hr ho = (c.0, c.1, (hl, ne, hr))
append-Chain t t' rp p x (y ∷ ys) ne c o f hl hr ho = (
  c.0,
  c.1,
  rw
      (ho x (λ e. Fresh-In x (last_of y ys) (y ∷ ys) o.0 (last_of-In y ys) (sym e))
        (λ e. f.0 (sym e)))
      (append-Chain t t' rp (t x).p_nextready y ys ne c.2 o.1 f.1 hl hr ho),
)

-- The table after `x` has gone behind `l`, with its quantum begun again.
rotated : (Ptr → Proc) → (l x : Ptr) → Ptr → Proc
rotated t l x =
    write (write t l (record (t l) { p_nextready = x })) x
      (record (t x) { p_nextready = nil_proc; rr_counter = 0 })

module _ (t : Ptr → Proc) (l x : Ptr) (apart : l ≢ x) where
  rotated_next : (rotated t l x l).p_nextready ≡ x
  unfolding rotated write
  rotated_next = ground arith

  rotated_end : ((rotated t l x x).p_nextready ≡ nil_proc) × ((rotated t l x x).rr_counter ≡ 0)
  unfolding rotated write
  rotated_end = (ground arith, ground arith)

  rotated_other : (a : Ptr) → a ≢ l → a ≢ x → (rotated t l x a).p_nextready ≡ (t a).p_nextready
  unfolding rotated write
  rotated_other a h g = ground arith

abbrev after_rotation : State → (l x y : Ptr) → State
after_rotation s l x y = record s {
  proc = rotated s.proc l x;
  queue = λ j. if same_queue j g1 then record { head = y; tail = x } else s.queue j;
}

module _ (s : State) (fuel : ℕ) (x y l : Ptr) where
  rotate_group1_run :
      (s.queue g1).head ≡ x
      → (s.queue g1).tail ≡ l
      → (s.proc x).p_nextready ≡ y
      → x ≢ nil_proc
      → y ≢ nil_proc
      → l ≢ nil_proc
      → l ≢ x
      → rotate_group1 fuel x s ≡ pick_proc fuel (after_rotation s l x y)
  unfolding rotate_group1 rotated
  rotate_group1_run a b c d e f g = ground arith

  sched_of_group1 :
      s.proc_ptr ≡ x
      → x ≢ nil_proc
      → (s.proc x).p_priority ≡ ppri_user
      → (s.proc x).sched_group ≡ 1
      → sched fuel s ≡ rotate_group1 fuel x s
  unfolding sched is_user
  sched_of_group1 a b c d = ground arith

  pick_after :
      (s.queue task_q).head ≡ nil_proc
      → (s.queue server_q).head ≡ nil_proc
      → y ≢ nil_proc
      → pick_proc fuel (after_rotation s l x y)
        ≡ ok tt (record (after_rotation s l x y) { proc_ptr = y; bill_ptr = y })
  unfolding same_queue
  pick_after a b c =
      pick_proc_of_user (after_rotation s l x y) fuel a b
      ∙ pick_user_of_group1 (after_rotation s l x y) fuel c

-- With the processes `x`, `y` and `ys` in the queue of group 1, `x` running, its quantum over and no task
-- or server ready, `sched` returns with `x` at the end of the queue and its counter at 0, and `y` runs.
pub sched-rotates :
    (s : State) (fuel : ℕ) (x y : Ptr) (ys : List Ptr)
    → s.proc_ptr ≡ x
    → (s.proc x).p_priority ≡ ppri_user
    → (s.proc x).sched_group ≡ 1
    → Chain s.proc (s.queue g1).head (x ∷ y ∷ ys)
    → Once (x ∷ y ∷ ys)
    → (s.queue g1).tail ≡ last_of y ys
    → (s.queue task_q).head ≡ nil_proc
    → (s.queue server_q).head ≡ nil_proc
    → Returns
        (λ _ s'.
          Chain s'.proc (s'.queue g1).head (y ∷ (ys ++ (x ∷ [])))
          × ((s'.queue g1).tail ≡ x)
          × (s'.proc_ptr ≡ y)
          × (s'.bill_ptr ≡ y)
          × ((s'.proc x).rr_counter ≡ 0))
        (sched fuel s)
unfolding same_queue
sched-rotates s fuel x y ys running user one c o last task server =
    let l = last_of y ys in
    let apart : l ≢ x = Fresh-In x l (y ∷ ys) o.0 (last_of-In y ys) in
    let l_ne : l ≢ nil_proc = last_of_ne s.proc (s.proc x).p_nextready y ys c.2 in
    rw
      (
        sched_of_group1 s fuel x y l running c.1 user one,
        rotate_group1_run s fuel x y l c.0 last c.2.0 c.1 c.2.1 l_ne apart,
        pick_after s fuel x y l task server c.2.1,
      )
      (returns (
        append-Chain s.proc (rotated s.proc l x) x y y ys c.1 (refl, c.2.1, c.2.2) o.1 o.0
            (rotated_next s.proc l x apart) (rotated_end s.proc l x apart).0
            (rotated_other s.proc l x apart),
        refl,
        refl,
        refl,
        (rotated_end s.proc l x apart).1,
      ))
