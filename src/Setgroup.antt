-- ===== src/Setgroup.antt =====
-- The call that puts a process into a scheduling group: `do_setgroup` of mm/misc.c, and `do_setgroup` of
-- kernel/system.c, which it calls.
pub mod Outcome
pub mod Stays
mod Examples
use soi_laboratoria_2025z.Base.{
  ℕ, suc, ◌+◌, Bool, not, ◌&&◌, ◌||◌, Option, none, some, List, [], ◌∷◌, leb, ◌==◌, if◌then◌else◌,
  Cmd, pure, ◌>>=◌, ◌>>◌, set, get_elem?,
}
use soi_laboratoria_2025z.Kernel.Defs.{Ptr, State, is_user, load, store}

pub data Reply : Type 0 where
  done esrch einval : Reply

-- `do_setgroup` of kernel/system.c, at the process `rp`.
unfoldable pub kernel_setgroup : (rp : Ptr) → (group estimate : ℕ) → Cmd State Reply
unfolding load store is_user
kernel_setgroup rp group estimate = do
  p ← load rp
  if not (is_user p) then pure einval else do
    store rp (record p {
      sched_group = group;
      wait_ticks = 0;
      rr_counter = 0;
      cpu_estimate = if group == 3 then estimate else 100;
    })
    pure done

-- The fields of `struct mproc` that the call uses.
pub record MmProc : Type 0 where
  pub mp_pid : ℕ
  pub mp_sched_group : ℕ

-- The first slot with this process id, from slot `nr` on.
unfoldable pub find_pid : (who : ℕ) → (nr : ℕ) → List MmProc → Option ℕ
find_pid who nr [] = none
find_pid who nr (p ∷ ps) =
    let rest = find_pid who (suc nr) ps in if p.mp_pid == who then some nr else rest

-- The process that is meant: the caller when `who` is 0.
unfoldable pub target : (who mp : ℕ) → List MmProc → Option ℕ
unfolding find_pid
target who mp ps = if who == 0 then some mp else find_pid who 0 ps

-- `group` and `estimate` as they are checked.
unfoldable pub is_accepted : (group estimate : ℕ) → Bool
is_accepted group estimate = leb 1 group && (leb group 3 && (not (group == 3) || leb 1 estimate))

abbrev pub with_group : List MmProc → (nr group : ℕ) → Option MmProc → List MmProc
with_group ps nr group none = ps
with_group ps nr group (some p) = set ps nr (record p { mp_sched_group = group })

-- The end of the call at slot `nr`; `nr_tasks + 1 + nr` is the slot in the kernel's table. The group is
-- noted in the table of the memory manager before the kernel answers.
unfoldable pub set_group_of :
    (nr_tasks : ℕ) → (group estimate : ℕ) → List MmProc → (nr : ℕ) → Cmd State (Reply × List MmProc)
unfolding kernel_setgroup
set_group_of nr_tasks group estimate ps nr = do
  result ← kernel_setgroup (nr_tasks + 1 + nr) group estimate
  pure (result, with_group ps nr group (get_elem? ps nr))

unfoldable pub setgroup_at :
    (nr_tasks : ℕ) → (group estimate : ℕ) → List MmProc → Option ℕ → Cmd State (Reply × List MmProc)
unfolding set_group_of is_accepted
setgroup_at nr_tasks group estimate ps none = pure (esrch, ps)
setgroup_at nr_tasks group estimate ps (some nr) =
    if is_accepted group estimate
    then set_group_of nr_tasks group estimate ps nr
    else pure (einval, ps)

-- `do_setgroup` of mm/misc.c for the caller at slot `mp`. Negative arguments are refused as 0 is, but for
-- a negative estimate of a group other than 3, which the kernel does not use, and a negative process id,
-- which no process has.
unfoldable pub do_setgroup :
    (nr_tasks mp who group estimate : ℕ) → List MmProc → Cmd State (Reply × List MmProc)
unfolding setgroup_at target
do_setgroup nr_tasks mp who group estimate ps =
    setgroup_at nr_tasks group estimate ps (target who mp ps)
