-- ===== src/Alloc/Mm.antt =====
-- The static variables of alloc.c and the fields of `mproc` that it uses, with the allocator and the
-- swapper over them.
use soi_laboratoria_2025z.Base.{
  ℕ, zero, suc, ◌+◌, ◌-◌, ◌*◌, ◌%◌, ◌^◌, Bool, true, false, not, ◌&&◌, ◌||◌, Option, none, some,
  List, ◌∷◌, leb, ◌==◌, if◌then◌else◌, ℤ, is_pos, Run, ok, panic, fault, out_of_fuel, Cmd, pure,
  ◌>>=◌, ◌>>◌,
}
use soi_laboratoria_2025z.Alloc.Table.{
  Ptr, nil_hole, clicks_mod, Table, load, get_head, free_mem, bite, first_fit, worst_fit,
}

-- What the headers and the build configure: NR_PROCS, LOW_USER, NO_MEM and CLICK_SHIFT.
pub record Config : Type 0 where
  pub nr_procs : ℕ
  pub low_user : ℕ
  pub no_mem : ℕ
  pub click_shift : ℕ

-- The bits of `mp_flags` that the swapper reads or writes.
pub record Flags : Type 0 where
  pub paused : Bool
  pub waiting : Bool
  pub sigsuspended : Bool
  pub traced : Bool
  pub reply : Bool
  pub onswap : Bool
  pub swapin : Bool

-- `mp_swapq` is 0 for NULL, and i + 1 for `&mproc[i]`.
pub record Mproc : Type 0 where
  pub flags : Flags
  pub d_phys : ℕ
  pub d_vir : ℕ
  pub s_phys : ℕ
  pub s_vir : ℕ
  pub s_len : ℕ
  pub mp_swapq : Ptr

-- Calls of the kernel and of the file system, in which the swapper's work consists.
pub data Call : Type 0 where
  lseek : (off : ℕ) → Call
  rw_seg : (to_disk : Bool) (proc_nr bytes : ℕ) → Call
  sys_newmap : (proc_nr d_phys s_phys : ℕ) → Call
  check_pending : (proc_nr : ℕ) → Call
  chdir : Call  -- `tell_fs(CHDIR, who, FALSE, 0)`
  close : Call

pub record Mm : Type 0 where
  pub table : Table
  pub wf_mode : ℤ
  pub swap_open : Bool  -- `swap_fd != -1`
  pub swap_offset : ℕ
  pub swap_base : ℕ
  pub swap_maxsize : ℕ
  pub in_queue : Ptr
  pub outswap : ℕ
  pub mproc : ℕ → Mproc
  pub calls : List Call  -- the newest first

-- A run on the table, as a run on the whole state.
unfoldable pub lifted : {A : Type 0} → Mm → Run Table A → Run Mm A
lifted s (ok a t) = ok a (record s { table = t })
lifted s panic = panic
lifted s fault = fault
lifted s out_of_fuel = out_of_fuel

unfoldable pub lift : {A : Type 0} → Cmd Table A → Cmd Mm A
unfolding lifted
lift m s = lifted s (m s.table)

abbrev pub get : Cmd Mm Mm
get s = ok s s

abbrev pub modify : (Mm → Mm) → Cmd Mm (Unit {0})
modify f s = ok tt (f s)

abbrev pub call : Call → Cmd Mm (Unit {0})
call c = modify (λ s. record s { calls = c ∷ s.calls })

unfoldable pub set_proc : ℕ → Mproc → Cmd Mm (Unit {0})
set_proc i p = modify (λ s. record s { mproc = λ j. if j == i then p else s.mproc j })

abbrev pub or_else : {A : Type 0} → Option ℕ → (ℕ → Cmd Mm A) → Cmd Mm A → Cmd Mm A
or_else (some a) f g = f a
or_else none f g = g

-- `mm_in.m1_i1` is the message's first number.
unfoldable pub do_worst_fit : ℤ → Cmd Mm (Unit {0})
do_worst_fit m1_i1 = modify (λ s. record s { wf_mode = m1_i1 })

-- The size of a process from its data segment to the end of its stack.
abbrev pub size_of : Mproc → ℕ
size_of p = (p.s_vir + p.s_len + clicks_mod - p.d_vir % clicks_mod) % clicks_mod

-- The process at its new place.
abbrev pub moved : Mproc → ℕ → Mproc
moved p base = record p {
  d_phys = base;
  s_phys = (base + (p.s_vir + clicks_mod - p.d_vir % clicks_mod)) % clicks_mod;
}

-- May this process go to the swap area?
abbrev pub candidate : Flags → Bool
candidate f = (f.paused || f.waiting || f.sigsuspended) && not (f.traced || f.reply || f.onswap)

-- The search of `swap_out` for a hole in the swap area, with the hole ahead of it.
unfoldable pub swap_hole : (fuel swap_base size : ℕ) → (prev_ptr hp : Ptr) → Cmd Table (Ptr × Ptr)
unfolding load
swap_hole zero swap_base size prev_ptr hp = λ _. out_of_fuel
swap_hole (suc fuel) swap_base size prev_ptr hp = if hp == nil_hole then pure (prev_ptr, hp) else do
  h ← load hp
  if leb swap_base h.h_base && leb size h.h_len
      then pure (prev_ptr, hp)
      else swap_hole fuel swap_base size hp h.h_next

module _ (k : Config) where
  -- One more than NR_HOLES.
  abbrev pub rounds : ℕ
  rounds = suc (2 * k.nr_procs)

  abbrev pub swap_off_set : Mm → ℕ → ℕ
  swap_off_set s base =
      (s.swap_offset + (base + clicks_mod - s.swap_base) * 2 ^ k.click_shift) % 2 ^ 32

  -- The body of the loop of `swap_out` once a candidate is found; false is `continue`.
  unfoldable pub swap_one : ℕ → Cmd Mm Bool
  unfolding lift get_head swap_hole bite free_mem set_proc
  swap_one rmp = do
    s ← get
    let p = s.mproc rmp
    let size = size_of p
    head ← lift get_head
    (prev_ptr, hp) ← lift (swap_hole rounds s.swap_base size nil_hole head)
    if hp == nil_hole then pure false else do
      new_base ← lift (bite prev_ptr hp size)
      call (lseek (swap_off_set s new_base))
      call (rw_seg true rmp (size * 2 ^ k.click_shift % 2 ^ 32))
      let q = moved p new_base
      set_proc rmp q
      call (sys_newmap rmp q.d_phys q.s_phys)
      lift (free_mem rounds p.d_phys size)
      set_proc rmp (record q { flags = record (q.flags) { onswap = true } })
      modify (λ u. record u { outswap = rmp })
      pure true

  -- `if (++rmp == &mproc[NR_PROCS]) rmp = &mproc[LOW_USER];`
  abbrev pub next_proc : ℕ → ℕ
  next_proc rmp = if suc rmp == k.nr_procs then k.low_user else suc rmp

  unfoldable pub swap_out_loop : (fuel rmp : ℕ) → Cmd Mm Bool
  unfolding swap_one
  swap_out_loop zero rmp = λ _. out_of_fuel
  swap_out_loop (suc fuel) rmp = do
    s ← get
    let r = next_proc rmp
    found ← (if candidate (s.mproc r).flags then swap_one r else pure false)
    if found then pure true else if r == s.outswap then pure false else swap_out_loop fuel r

  unfoldable pub swap_out : Cmd Mm Bool
  unfolding swap_out_loop
  swap_out = do s ← get; swap_out_loop (suc k.nr_procs) s.outswap

  -- The `do … while (swap_out())` of `alloc_mem`. Each round but the last swaps a process out.
  unfoldable pub alloc_loop : (fuel clicks : ℕ) → Cmd Mm ℕ
  unfolding lift get_head first_fit swap_out
  alloc_loop zero clicks = λ _. out_of_fuel
  alloc_loop (suc fuel) clicks = do
    s ← get
    head ← lift get_head
    o ← lift (first_fit rounds s.swap_base clicks nil_hole head)
    or_else o pure (do more ← swap_out; if more then alloc_loop fuel clicks else pure k.no_mem)

  unfoldable pub alloc_mem : ℕ → Cmd Mm ℕ
  unfolding lift worst_fit alloc_loop
  alloc_mem clicks = do
    s ← get
    if is_pos s.wf_mode 1
        then (do o ← lift (worst_fit rounds clicks); or_else o pure (pure k.no_mem))
        else alloc_loop (suc k.nr_procs) clicks

  -- A link of the swap-in queue: 0 is `in_queue`, i + 1 is `mproc[i].mp_swapq`.
  abbrev pub read_link : Ptr → Mm → Ptr
  read_link zero s = s.in_queue
  read_link (suc i) s = (s.mproc i).mp_swapq

  abbrev pub write_link : Ptr → Ptr → Cmd Mm (Unit {0})
  write_link zero q s = ok tt (record s { in_queue = q })
  write_link (suc i) q s = set_proc i (record (s.mproc i) { mp_swapq = q }) s
