-- ===== src/Messages/Left.antt =====
-- A sender whose message is received by `mini_rec` of kernel/proc.c leaves the caller queue.
use soi_laboratoria_2025z.Base.{
  ◌≡◌, ◌≢◌, inl, inr, refl, sym, subst, ◌∙◌, true, false, List, [], ◌∷◌, ◌++◌, arith, ◌==◌,
  if◌then◌else◌,
}
use soi_laboratoria_2025z.Kernel.Defs.{Ptr}
use soi_laboratoria_2025z.Kernel.Chain.{In}
use soi_laboratoria_2025z.Kernel.Estimate.{Fresh, Once, Fresh-In}
use soi_laboratoria_2025z.Kernel.Rotate.{last_of, last_of-In}
use soi_laboratoria_2025z.Messages.Defs.{Talk, Kernel, Config}
use soi_laboratoria_2025z.Messages.Path.{InTable, is_sending, SendPath, NoCycle}
use soi_laboratoria_2025z.Messages.Queues.{Links, Links-frame, Callers}
use soi_laboratoria_2025z.Messages.Joined.{same_or}

-- The queues with that of `d` replaced.
abbrev pub with_list : (Ptr → List Ptr) → (d : Ptr) → List Ptr → Ptr → List Ptr
with_list lists d xs p = if p == d then xs else lists p

with_list_here : (lists : Ptr → List Ptr) (d : Ptr) (xs : List Ptr) → with_list lists d xs d ≡ xs
with_list_here lists d xs = let e : (d == d) ≡ true = ground arith in rw e refl

with_list_other :
    (lists : Ptr → List Ptr) (d : Ptr) (xs : List Ptr) (p : Ptr)
    → p ≢ d
    → with_list lists d xs p ≡ lists p
with_list_other lists d xs p h = let e : (p == d) ≡ false = ground arith in rw e refl

module _ (x : Ptr) (after : List Ptr) where
  In-skip : (y : Ptr) (before : List Ptr) → In y (before ++ after) → In y (before ++ (x ∷ after))
  In-skip y [] i = inr i
  In-skip y (b ∷ bs) (inl e) = inl e
  In-skip y (b ∷ bs) (inr i) = inr (In-skip y bs i)

  In-kept :
      (y : Ptr) (before : List Ptr) → In y (before ++ (x ∷ after)) → y ≢ x → In y (before ++ after)
  In-kept y [] (inl e) n = absurd (n e)
  In-kept y [] (inr i) n = i
  In-kept y (b ∷ bs) (inl e) n = inl e
  In-kept y (b ∷ bs) (inr i) n = inr (In-kept y bs i n)

  pub In-place : (before : List Ptr) → In x (before ++ (x ∷ after))
  In-place [] = inl refl
  In-place (b ∷ bs) = inr (In-place bs)

  Fresh-skip :
      (p : Ptr) (before : List Ptr) → Fresh p (before ++ (x ∷ after)) → Fresh p (before ++ after)
  Fresh-skip p [] f = f.1
  Fresh-skip p (b ∷ bs) f = (f.0, Fresh-skip p bs f.1)

  pub Once-skip : (before : List Ptr) → Once (before ++ (x ∷ after)) → Once (before ++ after)
  Once-skip [] o = o.1
  Once-skip (b ∷ bs) o = (Fresh-skip b bs o.0, Once-skip bs o.1)

  -- The process that is taken out stands nowhere else.
  pub Once-gone : (before : List Ptr) → Once (before ++ (x ∷ after)) → In x (before ++ after) → ⊥
  Once-gone [] o i = Fresh-In x x after o.0 i refl
  Once-gone (b ∷ bs) o (inl e) = Fresh-In b x (bs ++ (x ∷ after)) o.0 (In-place bs) e
  Once-gone (b ∷ bs) o (inr i) = Once-gone bs o.1 i

pub In-front : (y : Ptr) (xs ys : List Ptr) → In y xs → In y (xs ++ ys)
In-front y [] ys i = absurd i
In-front y (x ∷ xs) ys (inl e) = inl e
In-front y (x ∷ xs) ys (inr i) = inr (In-front y xs ys i)

-- The queue without the process `x` behind `last_of y ys`.
pub Links-without :
    (c : Config) (t t' : Ptr → Talk) (p y x : Ptr) (ys after : List Ptr)
    → Once ((y ∷ ys) ++ (x ∷ after))
    → (t' (last_of y ys)).p_sendlink ≡ (t x).p_sendlink
    → ((z : Ptr) → z ≢ last_of y ys → (t' z).p_sendlink ≡ (t z).p_sendlink)
    → Links c t p ((y ∷ ys) ++ (x ∷ after))
    → Links c t' p ((y ∷ ys) ++ after)
Links-without c t t' p y x [] after o last same h = (
  h.0,
  h.1,
  rw last (
      Links-frame c t t' (t x).p_sendlink after (λ z i. same z (Fresh-In y z after o.0.1 i)) h.2.2),
)
Links-without c t t' p y x (z ∷ zs) after o last same h =
    let apart : y ≢ last_of z zs = λ e.
      Fresh-In y (last_of z zs) ((z ∷ zs) ++ (x ∷ after)) o.0
        (In-front (last_of z zs) (z ∷ zs) (x ∷ after) (last_of-In z zs)) (sym e) in
    (
      h.0,
      h.1,
      rw (same y apart) (Links-without c t t' (t y).p_sendlink z x zs after o.1 last same h.2),
    )

-- What the end of the SENDING of the process `x` does to the process table.
pub record Left (c : Config) (k : Kernel) (xs xs' : List Ptr) (caller x : Ptr) (k' : Kernel)
    : Type 0 where
  pub sending_x : is_sending k' x ≡ false
  pub sending_other : (y : Ptr) → y ≢ x → is_sending k' y ≡ is_sending k y
  pub sendto : (y : Ptr) → (k'.talk y).p_sendto ≡ (k.talk y).p_sendto
  pub queue : Links c k'.talk (k'.talk caller).p_callerq xs'
  pub queue_other : (d : Ptr) → d ≢ caller → (k'.talk d).p_callerq ≡ (k.talk d).p_callerq
  pub link_other : (y : Ptr) → (In y xs → ⊥) → (k'.talk y).p_sendlink ≡ (k.talk y).p_sendlink

module _ (c : Config) (k k' : Kernel) (lists : Ptr → List Ptr) (caller x : Ptr)
    (before after : List Ptr) (at_caller : InTable c caller) (q : Callers c k lists)
    (split : lists caller ≡ before ++ (x ∷ after))
    (l : Left c k (lists caller) (before ++ after) caller x k') where
  x-sends : (is_sending k x ≡ true) × ((k.talk x).p_sendto ≡ caller)
  x-sends = q.sends caller x at_caller (rw split (In-place x after before))

  queue-Once : Once (before ++ (x ∷ after))
  queue-Once = rw (← split) (q.once caller at_caller)

  kept-sends :
      (d y : Ptr)
      → InTable c d
      → In y (lists d)
      → y ≢ x
      → (is_sending k' y ≡ true) × ((k'.talk y).p_sendto ≡ d)
  kept-sends d y t i n =
      (l.sending_other y n ∙ (q.sends d y t i).0, l.sendto y ∙ (q.sends d y t i).1)

  pub Left-Callers : Callers c k' (with_list lists caller (before ++ after))
  Left-Callers = record {
    links = λ d t. elim (same_or d caller) [
      | inl e ↦ rw (e, with_list_here lists caller (before ++ after)) l.queue
      | inr n ↦
          rw (with_list_other lists caller (before ++ after) d n, l.queue_other d n)
            (Links-frame c k.talk k'.talk (k.talk d).p_callerq (lists d)
              (λ y i.
                l.link_other y
                  (λ j. n (sym (q.sends d y t i).1 ∙ (q.sends caller y at_caller j).1)))
              (q.links d t))
    ];
    once = λ d t. elim (same_or d caller) [
      | inl e ↦
          rw (e, with_list_here lists caller (before ++ after))
            (Once-skip x after before queue-Once)
      | inr n ↦ rw (with_list_other lists caller (before ++ after) d n) (q.once d t)
    ];
    sends = λ d y t. elim (same_or d caller) [
      | inl e ↦
          rw (e, with_list_here lists caller (before ++ after))
            (λ i.
              kept-sends caller y at_caller (rw split (In-skip x after y before i)) (λ h.
                Once-gone x after before queue-Once (subst (λ z. In z (before ++ after)) h i)))
      | inr n ↦
          rw (with_list_other lists caller (before ++ after) d n)
            (λ i. kept-sends d y t i (λ h. n (sym (q.sends d y t i).1 ∙ rw h x-sends.1)))
    ];
    waits = λ y t s.
        let n : y ≢ x =
          λ e. let h : is_sending k' x ≡ true = rw (← e) s in let g = l.sending_x in cc in
        let old = q.waits y t (sym (l.sending_other y n) ∙ s) in
        rw (l.sendto y) (elim (same_or (k.talk y).p_sendto caller) [
          | inl e ↦
              rw (e, with_list_here lists caller (before ++ after))
                (In-kept x after y before (rw (← split, ← e) old) n)
          | inr m ↦ rw (with_list_other lists caller (before ++ after) (k.talk y).p_sendto m) old
        ]);
  }

  -- A path now ends at `x` when it comes by it.
  path_cut : (p : Ptr) (qs : List Ptr) → SendPath c k p qs → (rs : List Ptr) × SendPath c k' p rs
  path_cut p [] h = elim (same_or p x) [
    | inl e ↦ ([], rw e l.sending_x)
    | inr n ↦ ([], l.sending_other p n ∙ h)
  ]
  path_cut p (r ∷ rs) h = elim (same_or p x) [
    | inl e ↦ ([], rw e l.sending_x)
    | inr n ↦
        let (ts, rest) = path_cut r rs h.3 in
        (r ∷ ts, (l.sending_other p n ∙ h.0, l.sendto p ∙ h.1, h.2, rest))
  ]

  pub Left-NoCycle : NoCycle c k → NoCycle c k'
  Left-NoCycle all p t = let (qs, h) = all p t in path_cut p qs h
