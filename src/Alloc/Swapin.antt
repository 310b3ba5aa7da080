-- ===== src/Alloc/Swapin.antt =====
-- The rest of alloc.c: the swap-in queue, turning swapping on and off, the start of the hole table,
-- and the map of the holes for the user.
use soi_laboratoria_2025z.Base.{
  ℕ, zero, suc, ◌+◌, ◌-◌, ◌*◌, ◌/◌, ◌%◌, ◌^◌, Bool, true, false, Option, none, some, List, [], ◌∷◌,
  ◌++◌, leb, ltb, ◌==◌, if◌then◌else◌, ℤ, pos, negsuc, panic, out_of_fuel, Cmd, pure, ◌>>=◌, ◌>>◌,
}
use soi_laboratoria_2025z.Alloc.Table.{
  Ptr, nil_hole, clicks_mod, Table, load, get_head, del_slot, free_mem,
}
use soi_laboratoria_2025z.Alloc.Mm.{
  Config, Mm, lseek, rw_seg, sys_newmap, check_pending, chdir, close, lift, get, modify, call,
  set_proc, size_of, moved, rounds, swap_off_set, alloc_mem, read_link, write_link,
}

-- Error numbers of the headers.
pub data Errno : Type 0 where
  ebusy enomem einval : Errno

pub data Reply : Type 0 where
  ok : Reply
  errno : Errno → Reply
  open_failed : Reply  -- `-errno` of `open`
  unspecified : Reply  -- a path of the source with no `return`

module _ (k : Config) where
  -- `for (pmp = &in_queue; *pmp != NULL; pmp = &(*pmp)->mp_swapq) {}`
  unfoldable pub last_link : (fuel : ℕ) → Ptr → Cmd Mm Ptr
  last_link zero pmp = λ _. out_of_fuel
  last_link (suc fuel) pmp = do
    s ← get
    if read_link k pmp s == 0 then pure pmp else last_link fuel (read_link k pmp s)

  unfoldable pub swap_inqueue : ℕ → Cmd Mm (Unit {0})
  unfolding last_link set_proc
  swap_inqueue rmp = do
    s ← get
    if (s.mproc rmp).flags.swapin then pure tt else do
      pmp ← last_link (suc k.nr_procs) 0
      write_link k pmp (suc rmp)
      u ← get
      let p = u.mproc rmp
      set_proc rmp (record p { flags = record (p.flags) { swapin = true }; mp_swapq = 0 })

  -- `update map and swap in` of `swap_in`, for the process at the link `pmp`.
  unfoldable pub swap_in_at : (rmp new_base : ℕ) → Cmd Mm (Unit {0})
  unfolding set_proc lift free_mem
  swap_in_at rmp new_base = do
    s ← get
    let p = s.mproc rmp
    let q = moved p new_base
    set_proc rmp q
    call (sys_newmap rmp q.d_phys q.s_phys)
    call (lseek (swap_off_set k s p.d_phys))
    call (rw_seg false rmp (size_of p * 2 ^ k.click_shift % 2 ^ 32))
    lift (free_mem (rounds k) p.d_phys (size_of p))
    set_proc rmp (record q { flags = record (q.flags) { onswap = false; swapin = false } })

  unfoldable pub swap_in_loop : (fuel : ℕ) → Ptr → Cmd Mm (Unit {0})
  unfolding swap_in_at alloc_mem set_proc
  swap_in_loop zero pmp = λ _. out_of_fuel
  swap_in_loop (suc fuel) pmp = do
    s ← get
    let link = read_link k pmp s
    if link == 0 then pure tt else do
      let rmp = link - 1
      if (s.mproc rmp).flags.swapin
          then (do
            new_base ← alloc_mem k (size_of (s.mproc rmp))
            if new_base == k.no_mem then swap_in_loop fuel link else (do
              swap_in_at rmp new_base
              u ← get
              write_link k pmp ((u.mproc rmp).mp_swapq)
              call (check_pending rmp)
              swap_in_loop fuel pmp))
          else (do write_link k pmp ((s.mproc rmp).mp_swapq); swap_in_loop fuel pmp)

  unfoldable pub swap_in : Cmd Mm (Unit {0})
  unfolding swap_in_loop
  swap_in = swap_in_loop (suc k.nr_procs) 0

  -- `opened` is whether `open` gave a descriptor.
  unfoldable pub swap_on : (opened : Bool) (offset size : ℕ) → Cmd Mm Reply
  unfolding lift free_mem
  swap_on opened offset size = do
    s ← get
    if s.swap_open then pure (errno ebusy) else do
      call chdir
      if opened
          then (do
            modify (λ u. record u { swap_open = true; swap_offset = offset })
            let n = size / 2 ^ k.click_shift
            let m = if ltb s.swap_maxsize n then s.swap_maxsize else n
            (if ltb 0 m then lift (free_mem (rounds k) s.swap_base m) else pure tt)
            pure unspecified)
          else pure open_failed

  -- The first loop of `swap_off`, over the process slots from `rmp` on.
  unfoldable pub queue_all : (count rmp : ℕ) → Cmd Mm (Unit {0})
  unfolding swap_inqueue
  queue_all zero rmp = pure tt
  queue_all (suc count) rmp = do
    s ← get
    (if (s.mproc rmp).flags.onswap then swap_inqueue rmp else pure tt)
    queue_all count (suc rmp)

  -- The second loop: is a process still on swap?
  unfoldable pub any_on_swap : (count rmp : ℕ) → Mm → Bool
  any_on_swap zero rmp s = false
  any_on_swap (suc count) rmp s =
      if (s.mproc rmp).flags.onswap then true else any_on_swap count (suc rmp) s

-- The third loop of `swap_off`: after a removal it goes on behind the new first hole.
unfoldable pub drop_swap : (fuel swap_base : ℕ) → (prev_ptr hp : Ptr) → Cmd Table (Unit {0})
unfolding load get_head del_slot
drop_swap zero swap_base prev_ptr hp = λ _. out_of_fuel
drop_swap (suc fuel) swap_base prev_ptr hp = if hp == nil_hole then pure tt else do
  h ← load hp
  if leb swap_base h.h_base
      then (do
        del_slot prev_ptr hp
        head ← get_head
        first ← load head
        drop_swap fuel swap_base head first.h_next)
      else drop_swap fuel swap_base hp h.h_next

module _ (k : Config) where
  -- `prev_ptr` is not initialised in the source: any pointer.
  unfoldable pub swap_off : (prev_ptr : Ptr) → Cmd Mm Reply
  unfolding queue_all swap_in any_on_swap drop_swap lift
  swap_off prev_ptr = do
    s ← get
    if s.swap_open
        then (do
          queue_all k (k.nr_procs - k.low_user) k.low_user
          swap_in k
          u ← get
          if any_on_swap k (k.nr_procs - k.low_user) k.low_user u then pure (errno enomem) else (do
            head ← lift get_head
            lift (drop_swap (rounds k * rounds k) s.swap_base prev_ptr head)
            call close
            modify (λ v. record v { swap_open = false })
            pure ok))
        else pure ok

  -- The slots of the table in one chain of free ones.
  unfoldable pub chain_slots : Table → Table
  chain_slots t = record {
    hole = λ p. record (t.hole p) { h_next = if p == 2 * k.nr_procs then nil_hole else suc p };
    hole_head = nil_hole;
    free_slots = 1;
  }

  -- The replies of SYS_MEM: base, size and total, or a failed call. The list ends where a reply has
  -- the size 0.
  unfoldable pub chunk_loop : List (Option (ℕ × ℕ × ℕ)) → (total free : ℕ) → Cmd Mm (ℕ × ℕ)
  unfolding lift free_mem
  chunk_loop [] total free = pure (total, free)
  chunk_loop (none ∷ rest) total free = λ _. panic
  chunk_loop (some (base, size, all) ∷ rest) total free =
      if size == 0 then pure (total, free) else do
        lift (free_mem (rounds k) base size)
        modify (λ s. record s {
          swap_base =
              if ltb s.swap_base ((base + size) % clicks_mod)
              then (base + size) % clicks_mod
              else s.swap_base;
        })
        chunk_loop rest all ((free + size) % clicks_mod)

  unfoldable pub mem_init : List (Option (ℕ × ℕ × ℕ)) → (total : ℕ) → Cmd Mm (ℕ × ℕ)
  unfolding chain_slots chunk_loop
  mem_init replies total = do
    modify (λ s. record s { table = chain_slots s.table })
    out ← chunk_loop replies total 0
    modify (λ s. record s {
      swap_base = (s.swap_base + 1) % clicks_mod;
      swap_maxsize = (clicks_mod - (s.swap_base + 1) % clicks_mod) % clicks_mod;
    })
    pure out

-- `count < limit - 1`, in `int`; the words of the buffer and the number of holes in it.
unfoldable pub map_loop : (fuel limit count : ℕ) → Ptr → Cmd Table (List ℕ × ℕ)
unfolding load
map_loop zero limit count h = λ _. out_of_fuel
map_loop (suc fuel) limit count h =
    if h == nil_hole
    then pure ([], count)
    else if ltb (suc count) limit
    then (do
      v ← load h
      (words, n) ← map_loop fuel limit (suc count) v.h_next
      pure (v.h_len ∷ v.h_base ∷ words, n))
    else pure ([], count)

-- `sizeof(unsigned int)` is 4. `user_buf_size` is converted to unsigned for the division, which does
-- not matter, since a negative one is refused.
unfoldable pub hole_map : (fuel : ℕ) → ℤ → Cmd Table (Option (List ℕ × ℕ))
unfolding map_loop get_head
hole_map fuel (negsuc n) = pure none
hole_map fuel (pos n) = do
  head ← get_head
  (words, count) ← map_loop fuel (if ltb (n / 8) 512 then n / 8 else 512) 0 head
  pure (some (words ++ 0 ∷ 0 ∷ [], count))

-- EINVAL, the failure of `sys_copy`, or the number of holes reported.
pub data MapReply : Type 0 where
  refused : MapReply
  copy_error : MapReply
  holes : ℕ → MapReply

map_reply : (sys_copy : List ℕ → Bool) → Option (List ℕ × ℕ) → MapReply
map_reply sys_copy none = refused
map_reply sys_copy (some (words, count)) = if sys_copy words then holes count else copy_error

-- `sys_copy` takes the words to the caller, and says whether it could.
unfoldable pub do_hole_map : (sys_copy : List ℕ → Bool) → (fuel : ℕ) → ℤ → Cmd Table MapReply
unfolding hole_map map_reply
do_hole_map sys_copy fuel size = do o ← hole_map fuel size; pure (map_reply sys_copy o)
