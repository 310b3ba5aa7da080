-- ===== src/Messages/Search.antt =====
-- The search of `mini_rec` in kernel/proc.c for a message, and the removal of its sender from the queue.
use soi_laboratoria_2025z.Base.{
  ℕ, zero, suc, ◌<◌, ◌≡◌, ◌≢◌, ◌⊎◌, inl, inr, refl, ap, Bool, true, false, List, [], ◌∷◌, ◌++◌,
  length, arith, ◌==◌, ◌||◌, if◌then◌else◌, Bool-cases, ok,
}
use soi_laboratoria_2025z.Kernel.Defs.{Ptr, nil_proc}
use soi_laboratoria_2025z.Kernel.Rotate.{last_of}
use soi_laboratoria_2025z.Messages.Defs.{
  Talk, Kernel, Config, load_talk, store_talk, write_talk, find_sender,
}
use soi_laboratoria_2025z.Messages.Calls.{leave_queue}
use soi_laboratoria_2025z.Messages.Path.{InTable}
use soi_laboratoria_2025z.Messages.Queues.{Links}

abbrev pub is_acceptable : Config → (src : ℕ) → Ptr → Bool
is_acceptable c src x = (src == c.any) || (src == x)

abbrev pub NoneAcceptable : Config → (src : ℕ) → List Ptr → Type 0
NoneAcceptable c src [] = Unit
NoneAcceptable c src (x ∷ xs) = (is_acceptable c src x ≡ false) × NoneAcceptable c src xs

-- The first acceptable process of a list, with what stands before and after it.
pub record First (c : Config) (src : ℕ) (xs : List Ptr) : Type 0 where
  pub before : List Ptr
  pub sender : Ptr
  pub after : List Ptr
  pub split : xs ≡ before ++ (sender ∷ after)
  pub refused : NoneAcceptable c src before
  pub acceptable : is_acceptable c src sender ≡ true
  pub in_table : InTable c sender

module _ (c : Config) (k : Kernel) (src : ℕ) where
  find_sender-end :
      (fuel : ℕ) (prev : Ptr) → find_sender c (suc fuel) src prev nil_proc k ≡ ok (prev, nil_proc) k
  unfolding find_sender
  find_sender-end fuel prev = refl

  find_sender-step :
      (fuel : ℕ) (prev x : Ptr)
      → InTable c x
      → find_sender c (suc fuel) src prev x k ≡ (
          if is_acceptable c src x
          then ok (prev, x) k
          else find_sender c fuel src x (k.talk x).p_sendlink k)
  unfolding find_sender load_talk
  find_sender-step fuel prev x t = ground (arith, t.0, t.1)

  -- What the search gives: no process, or the first one that is acceptable, with the one before it.
  abbrev pub Search : List Ptr → Ptr → Ptr → Ptr × Ptr → Type 0
  Search xs prev p r =
      (NoneAcceptable c src xs × (r.1 ≡ nil_proc))
      ⊎ ((f : First c src xs) × (r ≡ (last_of prev f.before, f.sender)))

  pub find_sender-Search :
      (fuel : ℕ) (prev p : Ptr) (xs : List Ptr)
      → Links c k.talk p xs
      → length xs < fuel
      → (r : Ptr × Ptr) × (find_sender c fuel src prev p k ≡ ok r k) × Search xs prev p r
  find_sender-Search zero prev p xs h lt = absurd (omega arith)
  find_sender-Search (suc fuel) prev p [] h lt =
      ((prev, nil_proc), rw h (find_sender-end fuel prev), inl (tt, refl))
  find_sender-Search (suc fuel) prev p (x ∷ xs) h lt = elim (Bool-cases (is_acceptable c src x)) [
    | inl hit ↦ (
      (prev, x),
      rw (h.0, find_sender-step fuel prev x h.1, hit) refl,
      inr (
        record {
          before = [];
          sender = x;
          after = xs;
          split = refl;
          refused = tt;
          acceptable = hit;
          in_table = h.1;
        },
        refl,
      ),
    )
    | inr miss ↦
        let (r, e, found) = find_sender-Search fuel x (k.talk x).p_sendlink xs h.2 (omega arith) in
        (r, rw (h.0, find_sender-step fuel prev x h.1, miss) e, later r x xs miss found)
  ]
    where
      later :
          (r : Ptr × Ptr) (x : Ptr) (xs : List Ptr)
          → is_acceptable c src x ≡ false
          → Search xs x (k.talk x).p_sendlink r
          → Search (x ∷ xs) prev p r
      later r x xs miss (inl (none, e)) = inl ((miss, none), e)
      later r x xs miss (inr (f, e)) = inr (
        record {
          before = x ∷ f.before;
          sender = f.sender;
          after = f.after;
          split = ap (◌∷◌ x) f.split;
          refused = (miss, f.refused);
          acceptable = f.acceptable;
          in_table = f.in_table;
        },
        e,
      )

module _ (c : Config) (k : Kernel) (caller x : Ptr) (t : InTable c caller) (u : InTable c x) where
  abbrev pub without_first : Ptr → Talk
  without_first =
      write_talk k.talk caller (record (k.talk caller) { p_callerq = (k.talk x).p_sendlink })

  abbrev pub without_next : (prev : Ptr) → Ptr → Talk
  without_next prev =
      write_talk k.talk prev (record (k.talk prev) { p_sendlink = (k.talk x).p_sendlink })

  pub leave_queue-first :
      (prev : Ptr)
      → (k.talk caller).p_callerq ≡ x
      → leave_queue c caller prev x k ≡ ok tt (record k { talk = without_first })
  unfolding leave_queue load_talk store_talk
  leave_queue-first prev h = ground (arith, t.0, t.1, u.0, u.1, h)

  pub leave_queue-behind :
      (prev : Ptr)
      → InTable c prev
      → (k.talk caller).p_callerq ≢ x
      → leave_queue c caller prev x k ≡ ok tt (record k { talk = without_next prev })
  unfolding leave_queue load_talk store_talk
  leave_queue-behind prev v h = ground (arith, t.0, t.1, u.0, u.1, v.0, v.1, h)
