-- ===== src/Kernel/Pick.antt =====
-- Which process `pick_proc` of kernel/proc.c runs next.
use soi_laboratoria_2025z.Base.{
  ℕ, ◌<◌, ◌≡◌, ◌≢◌, ◌⊎◌, inl, inr, refl, ◌∙◌, true, false, List, [], ◌∷◌, arith, ◌==◌, Bool-cases,
  ok, length, Returns, returns,
}
use soi_laboratoria_2025z.Kernel.Defs.{
  Ptr, nil_proc, State, task_q, server_q, user_q, g1, g2, g3, write, longest_wait, pick_group2,
  pick_last, pick_user, pick_proc,
}
use soi_laboratoria_2025z.Kernel.Chain.{Chain, In, Waits, longest_wait-result}

-- The states that `pick_proc` may leave, with `twos` as the queue of group 2: the first of tasks, servers,
-- group 1, group 2, group 3, other users and the idle process that is ready runs, and user processes and
-- the idle process are billed. Of group 2 it is a process that no other outwaits, and its wait is over.
pub data Picked (s : State) (twos : List Ptr) : State → Type 0 where
  task :
      (s.queue task_q).head ≢ nil_proc
      → Picked s twos (record s { proc_ptr = (s.queue task_q).head })
  server :
      (s.queue task_q).head ≡ nil_proc
      → (s.queue server_q).head ≢ nil_proc
      → Picked s twos (record s { proc_ptr = (s.queue server_q).head })
  group1 :
      (s.queue task_q).head ≡ nil_proc
      → (s.queue server_q).head ≡ nil_proc
      → (s.queue g1).head ≢ nil_proc
      → Picked s twos (record s { proc_ptr = (s.queue g1).head; bill_ptr = (s.queue g1).head })
  group2 :
      (p : Ptr)
      → (s.queue task_q).head ≡ nil_proc
      → (s.queue server_q).head ≡ nil_proc
      → (s.queue g1).head ≡ nil_proc
      → In p twos
      → Waits s.proc (s.proc p).wait_ticks twos
      → Picked s twos (record s {
        proc = write s.proc p (record (s.proc p) { wait_ticks = 0 });
        proc_ptr = p;
        bill_ptr = p;
      })
  group3 :
      (s.queue task_q).head ≡ nil_proc
      → (s.queue server_q).head ≡ nil_proc
      → (s.queue g1).head ≡ nil_proc
      → twos ≡ []
      → (s.queue g3).head ≢ nil_proc
      → Picked s twos (record s { proc_ptr = (s.queue g3).head; bill_ptr = (s.queue g3).head })
  user :
      (s.queue task_q).head ≡ nil_proc
      → (s.queue server_q).head ≡ nil_proc
      → (s.queue g1).head ≡ nil_proc
      → twos ≡ []
      → (s.queue g3).head ≡ nil_proc
      → (s.queue user_q).head ≢ nil_proc
      → Picked s twos
          (record s { proc_ptr = (s.queue user_q).head; bill_ptr = (s.queue user_q).head })
  idles :
      (s.queue task_q).head ≡ nil_proc
      → (s.queue server_q).head ≡ nil_proc
      → (s.queue g1).head ≡ nil_proc
      → twos ≡ []
      → (s.queue g3).head ≡ nil_proc
      → (s.queue user_q).head ≡ nil_proc
      → Picked s twos (record s { proc_ptr = s.idle; bill_ptr = s.idle })

module _ (s : State) (fuel : ℕ) where
  pick_proc_of_task :
      (s.queue task_q).head ≢ nil_proc
      → pick_proc fuel s ≡ ok tt (record s { proc_ptr = (s.queue task_q).head })
  unfolding pick_proc
  pick_proc_of_task h = ground arith

  pick_proc_of_server :
      (s.queue task_q).head ≡ nil_proc
      → (s.queue server_q).head ≢ nil_proc
      → pick_proc fuel s ≡ ok tt (record s { proc_ptr = (s.queue server_q).head })
  unfolding pick_proc
  pick_proc_of_server t h = ground arith

  pub pick_proc_of_user :
      (s.queue task_q).head ≡ nil_proc
      → (s.queue server_q).head ≡ nil_proc
      → pick_proc fuel s ≡ pick_user fuel s
  unfolding pick_proc
  pick_proc_of_user t v = ground arith

  pub pick_user_of_group1 :
      (s.queue g1).head ≢ nil_proc
      → pick_user fuel s
        ≡ ok tt (record s { proc_ptr = (s.queue g1).head; bill_ptr = (s.queue g1).head })
  unfolding pick_user
  pick_user_of_group1 h = ground arith

  pick_user_of_group2 :
      (s.queue g1).head ≡ nil_proc
      → (s.queue g2).head ≢ nil_proc
      → pick_user fuel s ≡ pick_group2 fuel (s.queue g2).head s
  unfolding pick_user
  pick_user_of_group2 o h = ground arith

  pick_user_of_last :
      (s.queue g1).head ≡ nil_proc → (s.queue g2).head ≡ nil_proc → pick_user fuel s ≡ pick_last s
  unfolding pick_user
  pick_user_of_last o w = ground arith

  pick_group2_run :
      (head r : Ptr)
      → longest_wait fuel head head s ≡ ok r s
      → r ≢ nil_proc
      → pick_group2 fuel head s
        ≡ ok tt (record s {
          proc = write s.proc r (record (s.proc r) { wait_ticks = 0 });
          proc_ptr = r;
          bill_ptr = r;
        })
  unfolding pick_group2
  pick_group2_run head r run ne = rw run (ground arith)

nil_or : (p : Ptr) → (p ≡ nil_proc) ⊎ (p ≢ nil_proc)
nil_or p = elim (Bool-cases (p == nil_proc)) [
  | inl e ↦ inl (ground arith)
  | inr e ↦ inr (λ h. ground arith)
]

-- `Picked` for the runs of `pick_last`, which looks at group 3 and the users of no group.
pick_last-Picked :
    (s : State)
    → (s.queue task_q).head ≡ nil_proc
    → (s.queue server_q).head ≡ nil_proc
    → (s.queue g1).head ≡ nil_proc
    → Returns (λ _ s'. Picked s [] s') (pick_last s)
unfolding pick_last
pick_last-Picked s t v o = elim (nil_or (s.queue g3).head) [
  | inr g ↦ rw (not_nil (s.queue g3).head g) (returns (group3 t v o refl g))
  | inl g ↦ elim (nil_or (s.queue user_q).head) [
    | inr u ↦
        rw (is_nil (s.queue g3).head g, not_nil (s.queue user_q).head u)
          (returns (user t v o refl g u))
    | inl u ↦
        rw (is_nil (s.queue g3).head g, is_nil (s.queue user_q).head u)
          (returns (idles t v o refl g u))
  ]
]
  where
    is_nil : (p : Ptr) → p ≡ nil_proc → (p == nil_proc) ≡ true
    is_nil p h = ground arith

    not_nil : (p : Ptr) → p ≢ nil_proc → (p == nil_proc) ≡ false
    not_nil p h = ground arith

pick_user-Picked :
    (s : State) (fuel : ℕ) (twos : List Ptr)
    → Chain s.proc (s.queue g2).head twos
    → length twos < fuel
    → (s.queue task_q).head ≡ nil_proc
    → (s.queue server_q).head ≡ nil_proc
    → (s.queue g1).head ≡ nil_proc
    → Returns (λ _ s'. Picked s twos s') (pick_user fuel s)
pick_user-Picked s fuel [] c lt t v o = rw (pick_user_of_last s fuel o c) (pick_last-Picked s t v o)
pick_user-Picked s fuel (x ∷ xs) c lt t v o =
    let head_ne : (s.queue g2).head ≢ nil_proc = rw c.0 c.1 in
    let (r, run, ne, place, le, all) =
      longest_wait-result s (x ∷ xs) fuel (s.queue g2).head (s.queue g2).head c head_ne lt in
    rw (pick_user_of_group2 s fuel o head_ne, pick_group2_run s fuel (s.queue g2).head r run ne)
      (returns (group2 r t v o (within place) all))
  where
    within : {r : Ptr} → (r ≡ (s.queue g2).head) ⊎ In r (x ∷ xs) → In r (x ∷ xs)
    within (inl e) = inl (e ∙ c.0)
    within (inr e) = e

-- With `twos` as the queue of group 2, and fuel above its length, `pick_proc` returns and leaves the state
-- that `Picked` tells: it follows no null pointer, takes the classes of processes in their order, and in
-- group 2 a process that has waited longest, whose wait is over.
pub pick_proc-Picked :
    (s : State) (fuel : ℕ) (twos : List Ptr)
    → Chain s.proc (s.queue g2).head twos
    → length twos < fuel
    → Returns (λ _ s'. Picked s twos s') (pick_proc fuel s)
pick_proc-Picked s fuel twos c lt = elim (nil_or (s.queue task_q).head) [
  | inr h ↦ rw (pick_proc_of_task s fuel h) (returns (task h))
  | inl t ↦ elim (nil_or (s.queue server_q).head) [
    | inr h ↦ rw (pick_proc_of_server s fuel t h) (returns (server t h))
    | inl v ↦ elim (nil_or (s.queue g1).head) [
      | inr h ↦
          rw (pick_proc_of_user s fuel t v, pick_user_of_group1 s fuel h) (returns (group1 t v h))
      | inl o ↦ rw (pick_proc_of_user s fuel t v) (pick_user-Picked s fuel twos c lt t v o)
    ]
  ]
]
