-- ===== src/Messages/Path.antt =====
-- Who sends to whom in kernel/proc.c, and the check of `mini_send` for a deadlock.
use soi_laboratoria_2025z.Base.{
  ℕ, zero, suc, ◌≤◌, ◌<◌, ◌≡◌, inl, inr, refl, sym, subst, ap, ◌∙◌, Bool, true, false, List, [],
  ◌∷◌, length, arith, ◌==◌, ◌||◌, if◌then◌else◌, Bool-cases, ok,
}
use soi_laboratoria_2025z.Kernel.Defs.{Ptr}
use soi_laboratoria_2025z.Kernel.Chain.{In}
use soi_laboratoria_2025z.Kernel.Estimate.{Fresh, Once}
use soi_laboratoria_2025z.Messages.Pigeons.{Within, length-Within}
use soi_laboratoria_2025z.Messages.Defs.{Kernel, Config, comes_to, is_locked, load_talk, load_proc}

abbrev pub InTable : Config → Ptr → Type 0
InTable c p = (0 < p) × (p ≤ c.procs)

abbrev pub is_sending : Kernel → Ptr → Bool
is_sending k p = (k.sched.proc p).p_flags.sending

-- The processes `qs`, each the destination of the one before, from that of `p` on; the last does not send.
abbrev pub SendPath : Config → Kernel → Ptr → List Ptr → Type 0
SendPath c k p [] = is_sending k p ≡ false
SendPath c k p (q ∷ qs) =
    (is_sending k p ≡ true) × ((k.talk p).p_sendto ≡ q) × InTable c q × SendPath c k q qs

-- No processes send to each other in a circle.
abbrev pub NoCycle : Config → Kernel → Type 0
NoCycle c k = (p : Ptr) → InTable c p → (qs : List Ptr) × SendPath c k p qs

path_length :
    (c : Config) (k : Kernel) (p : Ptr) (xs ys : List Ptr)
    → SendPath c k p xs
    → SendPath c k p ys
    → length xs ≡ length ys
path_length c k p [] [] h g = refl
path_length c k p [] (y ∷ ys) h g = cc
path_length c k p (x ∷ xs) [] h g = cc
path_length c k p (x ∷ xs) (y ∷ ys) h g =
    ap suc (path_length c k x xs ys h.3 (subst (λ z. SendPath c k z ys) (sym g.1 ∙ h.1) g.3))

-- From each process on the path goes a shorter one.
path_rest :
    (c : Config) (k : Kernel) (p r : Ptr) (qs : List Ptr)
    → SendPath c k p qs
    → In r qs
    → (ys : List Ptr) × SendPath c k r ys × (length ys < length qs) × InTable c r
path_rest c k p r [] h i = absurd i
path_rest c k p r (q ∷ qs) h (inl e) = (qs, rw e h.3, omega arith, rw e h.2)
path_rest c k p r (q ∷ qs) h (inr i) =
    let (ys, path, lt, t) = path_rest c k q r qs h.3 i in (ys, path, omega arith, t)

path_misses : (c : Config) (k : Kernel) (p : Ptr) (qs : List Ptr) → SendPath c k p qs → In p qs → ⊥
path_misses c k p qs h i =
    let (ys, path, lt, t) = path_rest c k p p qs h i in
    omega (arith, path_length c k p ys qs path h)

pub fresh_unless : (p : Ptr) (qs : List Ptr) → (In p qs → ⊥) → Fresh p qs
fresh_unless p [] h = tt
fresh_unless p (q ∷ qs) h = ((λ e. h (inl e)), fresh_unless p qs (λ i. h (inr i)))

path-Once : (c : Config) (k : Kernel) (p : Ptr) (qs : List Ptr) → SendPath c k p qs → Once (p ∷ qs)
path-Once c k p [] h = (tt, tt)
path-Once c k p (q ∷ qs) h =
    (fresh_unless p (q ∷ qs) (path_misses c k p (q ∷ qs) h), path-Once c k q qs h.3)

path-Within :
    (c : Config) (k : Kernel) (p : Ptr) (qs : List Ptr) → SendPath c k p qs → Within c.procs qs
path-Within c k p [] h = tt
path-Within c k p (q ∷ qs) h = (h.2.0, h.2.1, path-Within c k q qs h.3)

-- A path is no longer than the process table.
pub length-SendPath :
    (c : Config) (k : Kernel) (p : Ptr) (qs : List Ptr) → SendPath c k p qs → length qs ≤ c.procs
length-SendPath c k p qs h =
    length-Within c.procs qs (path-Once c k p qs h).1 (path-Within c k p qs h)

-- `mini_send`'s loop decides by this whether it comes to `p`.
abbrev pub member : Ptr → List Ptr → Bool
member p [] = false
member p (q ∷ qs) = (q == p) || member p qs

module _ (c : Config) (k : Kernel) (caller : Ptr) where
  comes_to-step :
      (fuel : ℕ) (next : Ptr)
      → InTable c next
      → comes_to c (suc fuel) caller next k ≡ (
          if next == caller
          then ok true k
          else if is_sending k next
          then comes_to c fuel caller (k.talk next).p_sendto k
          else ok false k)
  unfolding comes_to load_talk load_proc
  comes_to-step fuel next t = ground (arith, t.0, t.1)

  -- The loop goes along the path, and stops at `caller` or at the end.
  comes_to-member :
      (fuel : ℕ) (next : Ptr) (qs : List Ptr)
      → InTable c next
      → SendPath c k next qs
      → length qs < fuel
      → comes_to c fuel caller next k ≡ ok (member caller (next ∷ qs)) k
  comes_to-member zero next qs t h lt = absurd (omega arith)
  comes_to-member (suc fuel) next [] t h lt = rw (comes_to-step fuel next t) (ground (arith, h))
  comes_to-member (suc fuel) next (q ∷ qs) t h lt =
      rw (comes_to-step fuel next t, h.0, h.1)
        (elim (Bool-cases (next == caller)) [
          | inl here ↦ rw here refl
          | inr on ↦ rw on (comes_to-member fuel q qs h.2 h.3 (omega arith))
        ])

  is_locked-member :
      (fuel : ℕ) (dest : Ptr) (qs : List Ptr)
      → InTable c dest
      → SendPath c k dest qs
      → length qs ≤ fuel
      → is_locked c fuel caller dest k ≡ ok (member caller qs) k
  unfolding is_locked load_talk load_proc
  is_locked-member fuel dest [] t h le = ground (arith, t.0, t.1, h)
  is_locked-member fuel dest (q ∷ qs) t h le =
      ground (arith, t.0, t.1, h.0, h.1, comes_to-member fuel q qs h.2 h.3 (omega arith))

-- When no processes send to each other in a circle, the loop of `mini_send` ends within NR_TASKS + NR_PROCS
-- rounds, and finds a deadlock exactly when the caller is on the way from `dest`, each process of which is
-- the one that the last sends to.
pub is_locked-decides :
    (c : Config) (k : Kernel) (caller dest : Ptr)
    → NoCycle c k
    → InTable c dest
    → (qs : List Ptr) × SendPath c k dest qs
      × (is_locked c (suc c.procs) caller dest k ≡ ok (member caller qs) k)
is_locked-decides c k caller dest h t =
    let (qs, path) = h dest t in
    (
      qs,
      path,
      is_locked-member c k caller (suc c.procs) dest qs t path
          (omega (arith, length-SendPath c k dest qs path)),
    )
