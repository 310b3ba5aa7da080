-- ===== src/Alloc/Table.antt =====
-- The hole table of alloc.c and the functions that read and write it. A `struct hole *` is a number:
-- NIL_HOLE is 0, and `&hole[i]` is i + 1.
use soi_laboratoria_2025z.Base.{
  ℕ, zero, suc, ◌+◌, ◌-◌, ◌%◌, ◌^◌, Bool, true, ◌&&◌, Option, none, some, ltb, leb, ◌==◌,
  if◌then◌else◌, ok, panic, fault, out_of_fuel, Cmd, pure, ◌>>=◌, ◌>>◌,
}

abbrev pub Ptr : Type 0
Ptr = ℕ

abbrev pub nil_hole : Ptr
nil_hole = 0

-- `phys_clicks` is a 32-bit unsigned number.
abbrev pub clicks_mod : ℕ
clicks_mod = 2 ^ 32

pub record Hole : Type 0 where
  pub h_next : Ptr
  pub h_base : ℕ
  pub h_len : ℕ

pub record Table : Type 0 where
  pub hole : Ptr → Hole
  pub hole_head : Ptr
  pub free_slots : Ptr

unfoldable pub write : (Ptr → Hole) → Ptr → Hole → Ptr → Hole
write h p v a = if a == p then v else h a

-- `*p`; a null pointer is a fault.
unfoldable pub load : Ptr → Cmd Table Hole
load p t = if p == nil_hole then fault else ok (t.hole p) t

unfoldable pub store : Ptr → Hole → Cmd Table (Unit {0})
store p v t = if p == nil_hole then fault else ok tt (record t { hole = write t.hole p v })

-- `p->h_next = q`
unfoldable pub set_next : Ptr → Ptr → Cmd Table (Unit {0})
unfolding load store
set_next p q = do v ← load p; store p (record v { h_next = q })

unfoldable pub get_head : Cmd Table Ptr
get_head t = ok t.hole_head t

unfoldable pub set_head : Ptr → Cmd Table (Unit {0})
set_head p t = ok tt (record t { hole_head = p })

unfoldable pub get_free : Cmd Table Ptr
get_free t = ok t.free_slots t

unfoldable pub set_free : Ptr → Cmd Table (Unit {0})
set_free p t = ok tt (record t { free_slots = p })

-- The entry `hp` leaves the hole list and goes to the front of the free slots.
unfoldable pub del_slot : (prev_ptr hp : Ptr) → Cmd Table (Unit {0})
unfolding load set_next get_head set_head get_free set_free
del_slot prev_ptr hp = do
  head ← get_head
  h ← load hp
  (if hp == head then set_head h.h_next else set_next prev_ptr h.h_next)
  slots ← get_free
  set_next hp slots
  set_free hp

-- `hp->h_len += next_ptr->h_len`, and the slot of `next_ptr` is given back.
unfoldable pub absorb : (hp next_ptr : Ptr) → Cmd Table (Unit {0})
unfolding load store del_slot
absorb hp next_ptr = do
  h ← load hp
  n ← load next_ptr
  store hp (record h { h_len = (h.h_len + n.h_len) % clicks_mod })
  del_slot hp next_ptr

-- `hp->h_base + hp->h_len == next_ptr->h_base`
abbrev pub touches : Hole → Hole → Bool
touches h n = (h.h_base + h.h_len) % clicks_mod == n.h_base

-- The second half of `merge`.
unfoldable pub merge_last : Ptr → Cmd Table (Unit {0})
unfolding load absorb
merge_last hp = do
  h ← load hp
  if h.h_next == nil_hole
      then pure tt
      else do n ← load h.h_next; if touches h n then absorb hp h.h_next else pure tt

unfoldable pub merge : Ptr → Cmd Table (Unit {0})
unfolding load absorb merge_last
merge hp = do
  h ← load hp
  if h.h_next == nil_hole then pure tt else do
    n ← load h.h_next
    if touches h n then absorb hp h.h_next >> merge_last hp else merge_last h.h_next

-- `while (hp != NIL_HOLE && base > hp->h_base)`, with the last `prev_ptr` as the result.
unfoldable pub seek : ℕ → ℕ → (prev_ptr hp : Ptr) → Cmd Table Ptr
unfolding load
seek zero base prev_ptr hp = λ _. out_of_fuel
seek (suc fuel) base prev_ptr hp =
    if hp == nil_hole
    then pure prev_ptr
    else do h ← load hp; if ltb h.h_base base then seek fuel base hp h.h_next else pure prev_ptr

-- `hp == NIL_HOLE || base <= hp->h_base`
unfoldable pub goes_first : ℕ → Ptr → Cmd Table Bool
unfolding load
goes_first base hp = if hp == nil_hole then pure true else do h ← load hp; pure (leb base h.h_base)

-- The end of `free_mem`: put `new_ptr` behind `prev_ptr`.
unfoldable pub link : (new_ptr prev_ptr : Ptr) → Cmd Table (Unit {0})
unfolding load set_next merge
link new_ptr prev_ptr = do
  p ← load prev_ptr
  set_next new_ptr p.h_next
  set_next prev_ptr new_ptr
  merge prev_ptr

-- `fuel` bounds the walk along the hole list; one more than NR_HOLES is enough.
unfoldable pub free_mem : (fuel base clicks : ℕ) → Cmd Table (Unit {0})
unfolding load store set_next get_head set_head get_free set_free goes_first seek link
free_mem fuel base clicks = if clicks == 0 then pure tt else do
  new_ptr ← get_free
  if new_ptr == nil_hole then (λ _. panic) else do
    slot ← load new_ptr
    store new_ptr (record slot { h_base = base; h_len = clicks })
    set_free slot.h_next
    hp ← get_head
    first ← goes_first base hp
    if first
        then (do set_next new_ptr hp; set_head new_ptr; merge new_ptr)
        else do prev_ptr ← seek fuel base nil_hole hp; link new_ptr prev_ptr

-- Take `clicks` from the front of the hole `hp`; the hole goes when nothing is left.
unfoldable pub bite : (prev_ptr hp : Ptr) → ℕ → Cmd Table ℕ
unfolding load store del_slot
bite prev_ptr hp clicks = do
  h ← load hp
  store hp (record h { h_base = (h.h_base + clicks) % clicks_mod; h_len = h.h_len - clicks })
  (if h.h_len - clicks == 0 then del_slot prev_ptr hp else pure tt)
  pure h.h_base

-- The inner loop of first fit in `alloc_mem`: `none` when it runs off the list or reaches
-- `swap_base`.
unfoldable pub first_fit : ℕ → (swap_base clicks : ℕ) → (prev_ptr hp : Ptr) → Cmd Table (Option ℕ)
unfolding load bite
first_fit zero swap_base clicks prev_ptr hp = λ _. out_of_fuel
first_fit (suc fuel) swap_base clicks prev_ptr hp = if hp == nil_hole then pure none else do
  h ← load hp
  if leb swap_base h.h_base
      then pure none
      else if leb clicks h.h_len
      then (do base ← bite prev_ptr hp clicks; pure (some base))
      else first_fit fuel swap_base clicks hp h.h_next

-- `best_h`, `best_prev` and `max_len`
pub record Best : Type 0 where
  pub best_h : Ptr
  pub best_prev : Ptr
  pub max_len : ℕ

abbrev pub no_best : Best
no_best = record { best_h = nil_hole; best_prev = nil_hole; max_len = 0 }

-- One round of the worst-fit loop, at the hole `h` of the length `len`.
abbrev pub better : ℕ → (prev_h h : Ptr) → (len : ℕ) → Best → Best
better clicks prev_h h len b =
    if leb clicks len && ltb b.max_len len
    then record { best_h = h; best_prev = prev_h; max_len = len }
    else b

unfoldable pub worst_loop : ℕ → ℕ → (prev_h h : Ptr) → Best → Cmd Table Best
unfolding load
worst_loop zero clicks prev_h h b = λ _. out_of_fuel
worst_loop (suc fuel) clicks prev_h h b =
    if h == nil_hole
    then pure b
    else do v ← load h; worst_loop fuel clicks h v.h_next (better clicks prev_h h v.h_len b)

-- The worst-fit branch of `alloc_mem`.
unfoldable pub worst_fit : (fuel clicks : ℕ) → Cmd Table (Option ℕ)
unfolding get_head worst_loop bite
worst_fit fuel clicks = do
  head ← get_head
  b ← worst_loop fuel clicks nil_hole head no_best
  if b.best_h == nil_hole
      then pure none
      else do base ← bite b.best_prev b.best_h clicks; pure (some base)
