-- ===== src/Messages/Joined.antt =====
-- A process that blocks in `mini_send` of kernel/proc.c joins the caller queue of its destination, and no
-- others change.
use soi_laboratoria_2025z.Base.{
  ◌≡◌, ◌≢◌, ◌⊎◌, inl, inr, refl, sym, subst, ◌∙◌, true, false, List, [], ◌∷◌, ◌++◌, arith, ◌==◌,
  if◌then◌else◌, Bool-cases,
}
use soi_laboratoria_2025z.Kernel.Defs.{Ptr}
use soi_laboratoria_2025z.Kernel.Chain.{In}
use soi_laboratoria_2025z.Kernel.Estimate.{Fresh, Once}
use soi_laboratoria_2025z.Messages.Defs.{Kernel, Config}
use soi_laboratoria_2025z.Messages.Path.{InTable, is_sending, SendPath, NoCycle}
use soi_laboratoria_2025z.Messages.Queues.{Links, Links-frame, Callers}

-- The queues with `x` at the end of that of `dest`.
abbrev pub joined : (Ptr → List Ptr) → (dest x : Ptr) → Ptr → List Ptr
joined lists dest x d = if d == dest then lists d ++ (x ∷ []) else lists d

-- What the blocking of `caller` does to the process table.
pub record Blocked (c : Config) (k : Kernel) (xs : List Ptr) (caller dest : Ptr) (k' : Kernel)
    : Type 0 where
  pub sending_caller : is_sending k' caller ≡ true
  pub sendto_caller : (k'.talk caller).p_sendto ≡ dest
  pub sending_other : (x : Ptr) → x ≢ caller → is_sending k' x ≡ is_sending k x
  pub sendto_other : (x : Ptr) → x ≢ caller → (k'.talk x).p_sendto ≡ (k.talk x).p_sendto
  pub queue : Links c k'.talk (k'.talk dest).p_callerq (xs ++ (caller ∷ []))
  pub queue_other : (d : Ptr) → d ≢ dest → (k'.talk d).p_callerq ≡ (k.talk d).p_callerq
  pub link_other :
      (x : Ptr) → x ≢ caller → (In x xs → ⊥) → (k'.talk x).p_sendlink ≡ (k.talk x).p_sendlink

In-append : (x y : Ptr) (xs : List Ptr) → In x (xs ++ (y ∷ [])) → In x xs ⊎ (x ≡ y)
In-append x y [] (inl e) = inr e
In-append x y [] (inr i) = absurd i
In-append x y (z ∷ zs) (inl e) = inl (inl e)
In-append x y (z ∷ zs) (inr i) = elim (In-append x y zs i) [ inl j ↦ inl (inr j) | inr e ↦ inr e ]

append-In : (x y : Ptr) (xs : List Ptr) → In x xs → In x (xs ++ (y ∷ []))
append-In x y [] i = absurd i
append-In x y (z ∷ zs) (inl e) = inl e
append-In x y (z ∷ zs) (inr i) = inr (append-In x y zs i)

last-In : (y : Ptr) (xs : List Ptr) → In y (xs ++ (y ∷ []))
last-In y [] = inl refl
last-In y (z ∷ zs) = inr (last-In y zs)

Fresh-append : (p y : Ptr) (xs : List Ptr) → Fresh p xs → p ≢ y → Fresh p (xs ++ (y ∷ []))
Fresh-append p y [] f n = (n, tt)
Fresh-append p y (x ∷ xs) f n = (f.0, Fresh-append p y xs f.1 n)

Once-append : (y : Ptr) (xs : List Ptr) → Once xs → (In y xs → ⊥) → Once (xs ++ (y ∷ []))
Once-append y [] o n = (tt, tt)
Once-append y (x ∷ xs) o n =
    (Fresh-append x y xs o.0 (λ e. n (inl (sym e))), Once-append y xs o.1 (λ i. n (inr i)))

joined_here : (lists : Ptr → List Ptr) (d x : Ptr) → joined lists d x d ≡ lists d ++ (x ∷ [])
joined_here lists d x = let e : (d == d) ≡ true = ground arith in rw e refl

joined_other : (lists : Ptr → List Ptr) (d x a : Ptr) → a ≢ d → joined lists d x a ≡ lists a
joined_other lists d x a h = let e : (a == d) ≡ false = ground arith in rw e refl

pub same_or : (p q : Ptr) → (p ≡ q) ⊎ (p ≢ q)
same_or p q = elim (Bool-cases (p == q)) [
  | inl e ↦ inl (ground arith)
  | inr e ↦ inr (λ h. ground arith)
]

module _ (c : Config) (k k' : Kernel) (lists : Ptr → List Ptr) (caller dest : Ptr)
    (at_caller : InTable c caller) (at_dest : InTable c dest) (q : Callers c k lists)
    (idle : is_sending k caller ≡ false) (b : Blocked c k (lists dest) caller dest k') where
  -- The caller stood in no queue.
  caller_nowhere : (d : Ptr) → InTable c d → In caller (lists d) → ⊥
  caller_nowhere d t i = let h = (q.sends d caller t i).0 in cc

  not_caller : (d x : Ptr) → InTable c d → In x (lists d) → x ≢ caller
  not_caller d x t i = λ e. caller_nowhere d t (subst (λ z. In z (lists d)) e i)

  joined-sends :
      (d x : Ptr)
      → InTable c d
      → In x (lists d)
      → (is_sending k' x ≡ true) × ((k'.talk x).p_sendto ≡ d)
  joined-sends d x t i =
      let n = not_caller d x t i in
      (b.sending_other x n ∙ (q.sends d x t i).0, b.sendto_other x n ∙ (q.sends d x t i).1)

  pub Blocked-Callers : Callers c k' (joined lists dest caller)
  Blocked-Callers = record {
    links = λ d t. elim (same_or d dest) [
      | inl e ↦ rw (e, joined_here lists dest caller) b.queue
      | inr n ↦
          rw (joined_other lists dest caller d n, b.queue_other d n)
            (Links-frame c k.talk k'.talk (k.talk d).p_callerq (lists d)
              (λ x i.
                b.link_other x (not_caller d x t i)
                  (λ j. n (sym (q.sends d x t i).1 ∙ (q.sends dest x at_dest j).1)))
              (q.links d t))
    ];
    once = λ d t. elim (same_or d dest) [
      | inl e ↦
          rw (e, joined_here lists dest caller)
            (Once-append caller (lists dest) (q.once dest at_dest) (caller_nowhere dest at_dest))
      | inr n ↦ rw (joined_other lists dest caller d n) (q.once d t)
    ];
    sends = λ d x t. elim (same_or d dest) [
      | inl e ↦
          rw (e, joined_here lists dest caller)
            (λ i. elim (In-append x caller (lists dest) i) [
              | inl j ↦ joined-sends dest x at_dest j
              | inr h ↦ rw h (b.sending_caller, b.sendto_caller)
            ])
      | inr n ↦ rw (joined_other lists dest caller d n) (joined-sends d x t)
    ];
    waits = λ x t s. elim (same_or x caller) [
      | inl e ↦ rw (e, b.sendto_caller, joined_here lists dest caller) (last-In caller (lists dest))
      | inr n ↦
          let old : In x (lists (k.talk x).p_sendto) =
            q.waits x t (sym (b.sending_other x n) ∙ s) in
          rw (b.sendto_other x n) (elim (same_or (k.talk x).p_sendto dest) [
            | inl e ↦
                rw (e, joined_here lists dest caller)
                  (append-In x caller (lists dest) (rw e at old))
            | inr m ↦ rw (joined_other lists dest caller (k.talk x).p_sendto m) old
          ])
    ];
  }

  -- A path that does not come by the caller stays.
  path_apart :
      (p : Ptr) (qs : List Ptr)
      → p ≢ caller
      → (In caller qs → ⊥)
      → SendPath c k p qs
      → SendPath c k' p qs
  path_apart p [] n m h = b.sending_other p n ∙ h
  path_apart p (r ∷ rs) n m h = (
    b.sending_other p n ∙ h.0,
    b.sendto_other p n ∙ h.1,
    h.2,
    path_apart r rs (λ e. m (inl (sym e))) (λ i. m (inr i)) h.3,
  )

  -- A path that comes to the caller goes on to the destination, and from there as before.
  path_through :
      (ds : List Ptr)
      → SendPath c k' dest ds
      → (p : Ptr) (qs : List Ptr) → SendPath c k p qs
      → (rs : List Ptr) × SendPath c k' p rs
  path_through ds path p [] h = elim (same_or p caller) [
    | inl e ↦ (dest ∷ ds, rw e (b.sending_caller, b.sendto_caller, at_dest, path))
    | inr n ↦ ([], b.sending_other p n ∙ h)
  ]
  path_through ds path p (r ∷ rs) h =
      let n : p ≢ caller = λ e. let i : is_sending k caller ≡ true = rw (← e) h.0 in cc in
      let (ts, rest) = path_through ds path r rs h.3 in
      (r ∷ ts, (b.sending_other p n ∙ h.0, b.sendto_other p n ∙ h.1, h.2, rest))

  pub Blocked-NoCycle :
      (ds : List Ptr)
      → SendPath c k dest ds
      → caller ≢ dest
      → (In caller ds → ⊥)
      → NoCycle c k
      → NoCycle c k'
  Blocked-NoCycle ds path n m all p t =
      let (qs, h) = all p t in path_through ds (path_apart dest ds (λ e. n (sym e)) m path) p qs h
