-- ===== src/System/Loop.antt =====
-- The loop of `do_xit` in kernel/system.c that takes a process out of the caller queue it is in.
use soi_laboratoria_2025z.Base.{
  ℕ, zero, suc, ◌<◌, ◌≡◌, ◌≢◌, inl, inr, refl, sym, ◌∙◌, List, [], ◌∷◌, ◌++◌, length, arith, ok,
}
use soi_laboratoria_2025z.Kernel.Defs.{Ptr, nil_proc}
use soi_laboratoria_2025z.Kernel.Chain.{In}
use soi_laboratoria_2025z.Kernel.Rotate.{last_of}
use soi_laboratoria_2025z.Messages.Defs.{Talk, Kernel, Config, load_talk, store_talk, write_talk}
use soi_laboratoria_2025z.Messages.Path.{InTable}
use soi_laboratoria_2025z.Messages.Queues.{Links}
use soi_laboratoria_2025z.System.Defs.{leave_middle, leave_queues}

-- The table when `rc` is no longer behind `prev`, and when it is no longer the first in the queue of `d`.
abbrev pub bypassed : (Ptr → Talk) → (rc prev : Ptr) → Ptr → Talk
bypassed t rc prev = write_talk t prev (record (t prev) { p_sendlink = (t rc).p_sendlink })

abbrev pub beheaded : (Ptr → Talk) → (rc d : Ptr) → Ptr → Talk
beheaded t rc d = write_talk t d (record (t d) { p_callerq = (t rc).p_sendlink })

module _ (c : Config) (k : Kernel) (rc : Ptr) where
  leave_middle_end :
      (fuel : ℕ) (x : Ptr)
      → InTable c x
      → (k.talk x).p_sendlink ≡ nil_proc
      → leave_middle c (suc fuel) rc x k ≡ ok tt k
  unfolding leave_middle load_talk
  leave_middle_end fuel x t h = ground (arith, t.0, t.1, h)

  leave_middle_step :
      (fuel : ℕ) (x : Ptr)
      → InTable c x
      → (k.talk x).p_sendlink ≢ nil_proc
      → (k.talk x).p_sendlink ≢ rc
      → leave_middle c (suc fuel) rc x k ≡ leave_middle c fuel rc (k.talk x).p_sendlink k
  unfolding leave_middle load_talk
  leave_middle_step fuel x t h g = ground (arith, t.0, t.1, h, g)

  leave_middle_found :
      (fuel : ℕ) (x : Ptr)
      → InTable c x
      → InTable c rc
      → (k.talk x).p_sendlink ≡ rc
      → leave_middle c (suc fuel) rc x k ≡ ok tt (record k { talk = bypassed k.talk rc x })
  unfolding leave_middle load_talk store_talk
  leave_middle_found fuel x t u h = ground (arith, t.0, t.1, u.0, u.1, h)

  pub leave_middle_misses :
      (xs : List Ptr) (fuel : ℕ) (x : Ptr)
      → Links c k.talk x (x ∷ xs)
      → (In rc xs → ⊥)
      → length xs < fuel
      → leave_middle c fuel rc x k ≡ ok tt k
  leave_middle_misses xs zero x h n lt = absurd (omega arith)
  leave_middle_misses [] (suc fuel) x h n lt = leave_middle_end fuel x h.1 h.2
  leave_middle_misses (y ∷ ys) (suc fuel) x h n lt =
      rw
        (
          leave_middle_step fuel x h.1 (λ e. let p : 0 < y = h.2.1.0 in omega (arith, e, h.2.0))
              (λ e. n (inl (sym e ∙ h.2.0))),
          h.2.0,
        )
        (leave_middle_misses ys fuel y (refl, h.2.1, h.2.2) (λ i. n (inr i)) (omega arith))

  pub leave_middle_finds :
      (ys after : List Ptr) (fuel : ℕ) (y : Ptr)
      → InTable c rc
      → Links c k.talk y ((y ∷ ys) ++ (rc ∷ after))
      → (In rc ys → ⊥)
      → length ys < fuel
      → leave_middle c fuel rc y k ≡ ok tt (record k { talk = bypassed k.talk rc (last_of y ys) })
  leave_middle_finds ys after zero y u h n lt = absurd (omega arith)
  leave_middle_finds [] after (suc fuel) y u h n lt = leave_middle_found fuel y h.1 u h.2.0
  leave_middle_finds (z ∷ zs) after (suc fuel) y u h n lt =
      rw
        (
          leave_middle_step fuel y h.1 (λ e. let p : 0 < z = h.2.1.0 in omega (arith, e, h.2.0))
              (λ e. n (inl (sym e ∙ h.2.0))),
          h.2.0,
        )
        (leave_middle_finds zs after fuel z u (refl, h.2.1, h.2.2) (λ i. n (inr i)) (omega arith))

  pub leave_queues_none :
      (n : ℕ) (d : Ptr)
      → InTable c d
      → (k.talk d).p_callerq ≡ nil_proc
      → leave_queues c (suc n) rc d k ≡ leave_queues c n rc (suc d) k
  unfolding leave_queues load_talk
  leave_queues_none n d t h = ground (arith, t.0, t.1, h)

  pub leave_queues_front :
      (n : ℕ) (d : Ptr)
      → InTable c d
      → InTable c rc
      → (k.talk d).p_callerq ≡ rc
      → leave_queues c (suc n) rc d k ≡ ok tt (record k { talk = beheaded k.talk rc d })
  unfolding leave_queues load_talk store_talk
  leave_queues_front n d t u h = ground (arith, t.0, t.1, u.0, u.1, h)

  pub leave_queues_middle :
      (n : ℕ) (d : Ptr) (k' : Kernel)
      → InTable c d
      → (k.talk d).p_callerq ≢ nil_proc
      → (k.talk d).p_callerq ≢ rc
      → leave_middle c (suc c.procs) rc (k.talk d).p_callerq k ≡ ok tt k'
      → leave_queues c (suc n) rc d k ≡ leave_queues c n rc (suc d) k'
  unfolding leave_queues load_talk
  leave_queues_middle n d k' t h g e = ground (arith, t.0, t.1, h, g, e)
