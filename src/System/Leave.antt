-- ===== src/System/Leave.antt =====
-- What the loop of `do_xit` over all caller queues in kernel/system.c does.
use soi_laboratoria_2025z.Base.{
  ℕ, zero, suc, ◌+◌, ◌≤◌, ◌<◌, ◌≡◌, ◌≢◌, inl, inr, refl, sym, subst, ◌∙◌, List, [], ◌∷◌, ◌++◌,
  length, arith, ok,
}
use soi_laboratoria_2025z.Kernel.Defs.{Ptr}
use soi_laboratoria_2025z.Kernel.Chain.{In}
use soi_laboratoria_2025z.Kernel.Estimate.{Once, Fresh-In}
use soi_laboratoria_2025z.Kernel.Rotate.{last_of, last_of-In}
use soi_laboratoria_2025z.Messages.Defs.{Talk, Kernel, Config, write_talk}
use soi_laboratoria_2025z.Messages.Pigeons.{length-Within}
use soi_laboratoria_2025z.Messages.Path.{InTable}
use soi_laboratoria_2025z.Messages.Queues.{Links, Links-frame, Callers}
use soi_laboratoria_2025z.Messages.Joined.{same_or}
use soi_laboratoria_2025z.Messages.Left.{In-front, In-place, Once-gone}
use soi_laboratoria_2025z.Messages.Send.{Links-Within}
use soi_laboratoria_2025z.System.Defs.{leave_middle, leave_queues}
use soi_laboratoria_2025z.System.Loop.{
  bypassed, beheaded, leave_middle_misses, leave_middle_finds, leave_queues_none,
  leave_queues_front, leave_queues_middle,
}

-- The queue of the slot `d`, which has a process for each slot at most.
abbrev ShortQueue : Config → (Ptr → Talk) → Ptr → List Ptr → Type 0
ShortQueue c t d xs = Links c t (t d).p_callerq xs × (length xs ≤ c.procs)

-- The table when `rc` has left the queue of `d`, where it was behind `before`.
abbrev pub gone : (Ptr → Talk) → (rc d : Ptr) → (before : List Ptr) → Ptr → Talk
gone t rc d [] = beheaded t rc d
gone t rc d (y ∷ ys) = bypassed t rc (last_of y ys)

leave_queues_end : (c : Config) (k : Kernel) (rc d : Ptr) → leave_queues c zero rc d k ≡ ok tt k
unfolding leave_queues
leave_queues_end c k rc d = refl

module _ (c : Config) (k : Kernel) (rc : Ptr) where
  slot_missed :
      (n : ℕ) (d : Ptr) (xs : List Ptr)
      → InTable c d
      → ShortQueue c k.talk d xs
      → (In rc xs → ⊥)
      → leave_queues c (suc n) rc d k ≡ leave_queues c n rc (suc d) k
  slot_missed n d [] t h m = leave_queues_none c k rc n d t h.0
  slot_missed n d (x ∷ xs) t h m =
      let at : (k.talk d).p_callerq ≡ x = h.0.0 in
      leave_queues_middle c k rc n d k t (λ e. let p : 0 < x = h.0.1.0 in omega (arith, e, at))
        (λ e. m (inl (sym e ∙ at)))
        (rw at (
          leave_middle_misses c k rc xs (suc c.procs) x (refl, h.0.1, h.0.2) (λ i. m (inr i))
            (omega arith)))

  leave_queues_misses :
      (lists : Ptr → List Ptr) (n : ℕ) (d : Ptr)
      → 0 < d
      → d + n ≤ suc c.procs
      → ((e : Ptr) → d ≤ e → InTable c e → ShortQueue c k.talk e (lists e) × (In rc (lists e) → ⊥))
      → leave_queues c n rc d k ≡ ok tt k
  leave_queues_misses lists zero d lo hi all = leave_queues_end c k rc d
  leave_queues_misses lists (suc n) d lo hi all =
      let (slot, miss) = all d (omega arith) (lo, omega arith) in
      slot_missed n d (lists d) (lo, omega arith) slot miss
      ∙ leave_queues_misses lists n (suc d) (omega arith) (omega arith)
          (λ e le t. all e (omega arith) t)

module _ (t : Ptr → Talk) (rc p : Ptr) where
  pub bypassed_callerq : (e : Ptr) → (bypassed t rc p e).p_callerq ≡ (t e).p_callerq
  unfolding write_talk
  bypassed_callerq e = ground arith

  pub bypassed_link : (x : Ptr) → x ≢ p → (bypassed t rc p x).p_sendlink ≡ (t x).p_sendlink
  unfolding write_talk
  bypassed_link x n = ground arith

front_length : (ys zs : List Ptr) → length ys ≤ length (ys ++ zs)
front_length [] zs = omega arith
front_length (y ∷ ys) zs = omega (arith, front_length ys zs)

module _ (c : Config) (k : Kernel) (lists : Ptr → List Ptr) (q : Callers c k lists) where
  Callers-ShortQueue : (d : Ptr) → InTable c d → ShortQueue c k.talk d (lists d)
  Callers-ShortQueue d t = (
    q.links d t,
    length-Within c.procs (lists d) (q.once d t)
        (Links-Within c k.talk (k.talk d).p_callerq (lists d) (q.links d t)),
  )

  -- No process stands in two queues.
  queues_apart : (d e x : Ptr) → InTable c d → InTable c e → In x (lists d) → In x (lists e) → d ≡ e
  queues_apart d e x t u i j = sym (q.sends d x t i).1 ∙ (q.sends e x u j).1

  module _ (rc d : Ptr) (u : InTable c rc) (t : InTable c d) (after : List Ptr) where
    slot_found :
        (before : List Ptr) (n : ℕ)
        → lists d ≡ before ++ (rc ∷ after)
        → d + suc n ≤ suc c.procs
        → leave_queues c (suc n) rc d k ≡ ok tt (record k { talk = gone k.talk rc d before })
    slot_found [] n split hi = leave_queues_front c k rc n d t u (rw split at (q.links d t)).0
    slot_found (y ∷ ys) n split hi =
        let h : Links c k.talk (k.talk d).p_callerq ((y ∷ ys) ++ (rc ∷ after)) =
          rw split at (q.links d t) in
        let o : Once ((y ∷ ys) ++ (rc ∷ after)) = rw split at (q.once d t) in
        let k' : Kernel = record k { talk = bypassed k.talk rc (last_of y ys) } in
        let found : leave_middle c (suc c.procs) rc y k ≡ ok tt k' =
          leave_middle_finds c k rc ys after (suc c.procs) y u (refl, h.1, h.2)
            (λ i. Once-gone rc after ys o.1 (In-front rc ys after i))
            (omega (arith, front_length ys (rc ∷ after), rw split at (Callers-ShortQueue d t).1)) in
        leave_queues_middle c k rc n d k' t (λ e. let p : 0 < y = h.1.0 in omega (arith, e, h.0))
          (λ e. Fresh-In y rc (ys ++ (rc ∷ after)) o.0 (In-place rc after ys) (sym e ∙ h.0))
          (rw h.0 found)
        ∙ leave_queues_misses c k' rc lists n (suc d) (omega arith) (omega arith) (λ e le v.
          let other : e ≢ d = λ g. omega (arith, g) in
          (
            (
              rw (bypassed_callerq k.talk rc (last_of y ys) e) (
                  Links-frame c k.talk k'.talk (k.talk e).p_callerq (lists e)
                    (λ x i. bypassed_link k.talk rc (last_of y ys) x (λ g. other (
                      queues_apart e d x v t i (
                        rw split (
                          subst (λ w. In w ((y ∷ ys) ++ (rc ∷ after))) (sym g)
                            (In-front (last_of y ys) (y ∷ ys) (rc ∷ after) (last_of-In y ys)))))))
                    (Callers-ShortQueue e v).0),
              (Callers-ShortQueue e v).1,
            ),
            λ i. other (queues_apart e d rc v t i (rw split (In-place rc after (y ∷ ys)))),
          ))

    -- The loop from the slot `e` on, which comes to `d`.
    pub leave_queues-gone :
        (before : List Ptr) (n : ℕ) (e : Ptr)
        → lists d ≡ before ++ (rc ∷ after)
        → 0 < e
        → e ≤ d
        → d < e + n
        → e + n ≤ suc c.procs
        → leave_queues c n rc e k ≡ ok tt (record k { talk = gone k.talk rc d before })
    leave_queues-gone before zero e split lo le lt hi = absurd (omega arith)
    leave_queues-gone before (suc n) e split lo le lt hi = elim (same_or e d) [
      | inl h ↦ rw h (slot_found before n split (omega (arith, h)))
      | inr apart ↦
          let v : InTable c e = (lo, omega arith) in
          slot_missed c k rc n e (lists e) v (Callers-ShortQueue e v)
            (λ i. apart (queues_apart e d rc v t i (rw split (In-place rc after before))))
          ∙ leave_queues-gone before n (suc e) split (omega arith) (ground (arith, apart))
              (omega arith) (omega arith)
    ]
