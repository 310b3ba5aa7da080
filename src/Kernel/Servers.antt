-- ===== src/Kernel/Servers.antt =====
-- `unready` and `ready` of kernel/proc.c for a server.
use soi_laboratoria_2025z.Base.{
  ℕ, ◌≡◌, ◌≢◌, inl, inr, refl, sym, ap, subst, ◌∙◌, true, false, List, [], ◌∷◌, arith, ◌==◌,
  if◌then◌else◌, ok, Returns, returns, mono,
}
use soi_laboratoria_2025z.Kernel.Defs.{
  Ptr, nil_proc, ppri_server, Proc, State, server_q, g2, same_queue, write, enqueue, load,
}
use soi_laboratoria_2025z.Kernel.Sched.{unready_from, unready, ready}
use soi_laboratoria_2025z.Kernel.Chain.{Chain, In}
use soi_laboratoria_2025z.Kernel.Rotate.{last_of, last_of-In, last_of_ne}
use soi_laboratoria_2025z.Kernel.Enqueue.{InQueue, same_queue_refl}
use soi_laboratoria_2025z.Kernel.Remove.{without, without_here, without_there, without_nil}
use soi_laboratoria_2025z.Kernel.Unready.{same_or, unlink-Unlinked}
use soi_laboratoria_2025z.Kernel.UnreadyFrom.{
  headless, unready_from_empty, unready_from_head, unready_from_behind,
}
use soi_laboratoria_2025z.Kernel.Serving.{
  Serving, SamePriority, Chain-frame, pick_proc-Serving, In-without, Once-without, length-without,
  two_other, fresh_apart,
}

module _ (s : State) (n : ℕ) (rp : Ptr) (ne : rp ≢ nil_proc)
    (is_server : (s.proc rp).p_priority ≡ ppri_server) where
  unready_server : unready n rp s ≡ unready_from n true rp server_q s
  unfolding unready load
  unready_server = let e : (rp == 0) ≡ false = ground (arith, ne) in rw (e, is_server) refl

  headless-InQueue :
      (xs : List Ptr)
      → Chain s.proc (s.proc rp).p_nextready xs
      → (s.queue server_q).tail ≡ last_of rp xs
      → InQueue (headless s n rp ne server_q) server_q xs
  headless-InQueue [] c last = rw (same_queue_refl server_q) c
  headless-InQueue (y ∷ ys) c last = rw (same_queue_refl server_q) (c, last)

  rest-Serving :
      (servers rest twos : List Ptr) (s' : State)
      → Serving s n rp servers twos
      → rest ≡ without rp servers
      → InQueue s' server_q rest
      → Chain s'.proc (s'.queue g2).head twos
      → Serving s' n rp rest twos
  rest-Serving servers rest twos s' h e serves two = record {
    serves = serves;
    once = rw e (Once-without rp servers h.once);
    short = rw e (omega (arith, length-without rp servers, h.short));
    two = two;
    two_short = h.two_short;
    apart = λ x i. h.apart x (In-without rp x servers (rw e at i));
    out = h.out;
  }

  -- The queues when a server has been made unready.
  pub unready-Serving :
      (servers twos : List Ptr)
      → Serving s n rp servers twos
      → Returns
          (λ _ s'. Serving s' n rp (without rp servers) twos × SamePriority s s')
          (unready n rp s)
  unready-Serving [] twos h =
      rw (unready_server, unready_from_empty s n rp ne true server_q h.serves, without_nil rp)
        (returns (h, λ a. refl))
  unready-Serving (x ∷ xs) twos h = elim (same_or x rp) [
    | inl e ↦
        rw
          (
            unready_server,
            unready_from_head s n rp ne true server_q (h.serves.0.0 ∙ e),
            without_here rp x xs e,
          )
          (pick_proc-Serving (headless s n rp ne server_q) n rp xs twos (
            rest-Serving (x ∷ xs) xs twos (headless s n rp ne server_q) h
              (sym (without_here rp x xs e))
              (headless-InQueue xs (rw e at h.serves.0.2) (rw e at h.serves.1))
              (rw two_other h.two)))
    | inr m ↦
        rw
          (
            unready_server,
            unready_from_behind s n rp ne true server_q (λ z. h.serves.0.1 (sym h.serves.0.0 ∙ z))
                (λ z. m (sym h.serves.0.0 ∙ z)),
            h.serves.0.0,
          )
          (mono
            (unlink-Unlinked s rp server_q ne xs n x (refl, h.serves.0.1, h.serves.0.2) h.once
              h.serves.1 (omega (arith, h.short)))
            (λ _ s' (chain, kept, head, tail, others, pri).
              subst (λ zs. Serving s' n rp zs twos × SamePriority s s')
                (sym (without_there rp x xs m))
                (
                  rest-Serving (x ∷ xs) (x ∷ without rp xs) twos s' h
                      (sym (without_there rp x xs m)) (rw (head, h.serves.0.0) chain, tail)
                      (rw (others g2 two_other) (
                        Chain-frame s.proc s'.proc (s.queue g2).head twos
                          (λ a i.
                            ap (λ p. p.p_nextready)
                              (kept a (fresh_apart a (x ∷ xs) (λ j. h.apart a j i))))
                          h.two)),
                  pri,
                )))
  ]

  ready_server : ready n rp s ≡ enqueue server_q rp s
  unfolding ready load
  ready_server = let e : (rp == 0) ≡ false = ground (arith, ne) in rw (e, is_server) refl

  enqueue_server_first :
      (s.queue server_q).head ≡ nil_proc
      → enqueue server_q rp s
        ≡ ok tt (record s {
          proc = write s.proc rp (record (s.proc rp) { p_nextready = nil_proc });
          queue = λ j. if same_queue j server_q then record { head = rp; tail = rp } else s.queue j;
        })
  unfolding enqueue
  enqueue_server_first h = ground arith

  abbrev behind : (l : Ptr) → Ptr → Proc
  behind l =
      let t = write s.proc l (record (s.proc l) { p_nextready = rp }) in
      write t rp (record (t rp) { p_nextready = nil_proc })

  enqueue_server_behind :
      (l : Ptr)
      → (s.queue server_q).head ≢ nil_proc
      → (s.queue server_q).tail ≡ l
      → l ≢ nil_proc
      → enqueue server_q rp s
        ≡ ok tt (record s {
          proc = behind l;
          queue = λ j.
              if same_queue j server_q then record (s.queue server_q) { tail = rp } else s.queue j;
        })
  unfolding enqueue
  enqueue_server_behind l h e m =
      let a : ((s.queue server_q).head == 0) ≡ false = ground (arith, h) in
      let b : (l == 0) ≡ false = ground (arith, m) in
      let d : (rp == 0) ≡ false = ground (arith, ne) in rw (a, e, b, b, d, d) refl

  behind_next : (l a : Ptr) → a ≢ l → a ≢ rp → (behind l a).p_nextready ≡ (s.proc a).p_nextready
  unfolding write
  behind_next l a n m = ground (arith, n, m)

  alone_next :
      (a : Ptr)
      → a ≢ rp
      → (write s.proc rp (record (s.proc rp) { p_nextready = nil_proc }) a).p_nextready
        ≡ (s.proc a).p_nextready
  unfolding write
  alone_next a m = ground (arith, m)

  -- The queue of group 2 when a server has been made ready again.
  pub ready-two :
      (servers twos : List Ptr)
      → Serving s n rp servers twos
      → Returns (λ _ s'. Chain s'.proc (s'.queue g2).head twos) (ready n rp s)
  ready-two [] twos h =
      rw (ready_server, enqueue_server_first h.serves)
        (returns (
          rw two_other (
            Chain-frame s.proc (write s.proc rp (record (s.proc rp) { p_nextready = nil_proc }))
              (s.queue g2).head twos (λ a i. alone_next a (λ e. h.out (subst (λ z. In z twos) e i)))
              h.two)))
  ready-two (x ∷ xs) twos h =
      let l = last_of x xs in
      let there : In l (x ∷ xs) = last_of-In x xs in
      rw
        (
          ready_server,
          enqueue_server_behind l (λ z. h.serves.0.1 (sym h.serves.0.0 ∙ z)) h.serves.1
              (last_of_ne s.proc (s.queue server_q).head x xs h.serves.0),
        )
        (returns (
          rw two_other (
            Chain-frame s.proc (behind l) (s.queue g2).head twos
              (λ a i.
                behind_next l a (λ e. h.apart l there (subst (λ z. In z twos) e i))
                  (λ e. h.out (subst (λ z. In z twos) e i)))
              h.two)))
