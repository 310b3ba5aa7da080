-- ===== src/Semafors/Window.antt =====
-- The items of a buffer of semafors/buffer.c, between the next read and the next write.
use native.Mathlib.Nat.{suc-mod, mod-lt, mod-add-div, mul-le-mul_left}
use soi_laboratoria_2025z.Base.{
  ℕ, zero, suc, ◌+◌, ◌/◌, ◌%◌, ◌≤◌, ◌<◌, ◌≡◌, ◌≢◌, inl, inr, refl, sym, ap, ◌∙◌, some, List, [],
  ◌∷◌, arith, length, get_elem?, set, ltb, leb, Bool-cases,
}
use soi_laboratoria_2025z.Semafors.Defs.{
  Kind, Item, produced, Buffer, fresh, init_buffer, buffer_push, buffer_pop,
}

length-set : (xs : List Item) (i : ℕ) (x : Item) → length (set xs i x) ≡ length xs
length-set [] i x = refl
length-set (y ∷ ys) zero x = refl
length-set (y ∷ ys) (suc i) x = ap suc (length-set ys i x)

get_elem?-set :
    (xs : List Item) (i : ℕ) (x : Item) → i < length xs → get_elem? (set xs i x) i ≡ some x
get_elem?-set [] i x h = absurd (omega arith)
get_elem?-set (y ∷ ys) zero x h = refl
get_elem?-set (y ∷ ys) (suc i) x h = get_elem?-set ys i x (omega arith)

get_elem?-set_other :
    (xs : List Item) (i j : ℕ) (x : Item) → i ≢ j → get_elem? (set xs i x) j ≡ get_elem? xs j
get_elem?-set_other [] i j x h = refl
get_elem?-set_other (y ∷ ys) zero zero x h = absurd (h refl)
get_elem?-set_other (y ∷ ys) zero (suc j) x h = refl
get_elem?-set_other (y ∷ ys) (suc i) zero x h = refl
get_elem?-set_other (y ∷ ys) (suc i) (suc j) x h = get_elem?-set_other ys i j x (λ e. h (ap suc e))

-- Two of `n` numbers in a row differ modulo `n`.
mod-ne : (n i p : ℕ) → i < p → p < i + n → i % n ≢ p % n
mod-ne n i p lo hi e = elim (Bool-cases (leb (p / n) (i / n))) [
  | inl no_more ↦ ground (
    arith,
    mod-add-div i n,
    mod-add-div p n,
    mul-le-mul_left {m = p / n} {n = i / n} n (ground arith),
  )
  | inr more ↦ ground (
    arith,
    mod-add-div i n,
    mod-add-div p n,
    mul-le-mul_left {m = suc (i / n)} {n = p / n} n (ground arith),
  )
]

next-mod : (i n : ℕ) → (i % n + 1) % n ≡ suc i % n
next-mod i n = let e : i % n + 1 ≡ suc (i % n) = omega arith in rw e (sym (suc-mod i n))

pub record Window (n : ℕ) (k : Kind) (b : Buffer) (pu po : ℕ) : Type 0 where
  pub capacity : b.capacity ≡ n
  pub size : length b.array ≡ n
  pub at_in : b.at_in ≡ pu % n
  pub at_out : b.at_out ≡ po % n
  pub items : (i : ℕ) → po ≤ i → i < pu → get_elem? b.array (i % n) ≡ some (produced k i)

length-fresh : (n : ℕ) (x : Item) → length (fresh n x) ≡ n
unfolding fresh
length-fresh zero x = refl
length-fresh (suc n) x = ap suc (length-fresh n x)

module _ (n : ℕ) (k : Kind) (b : Buffer) (pu po : ℕ) (w : Window n k b pu po) where
  -- A push where there is room succeeds, and its item is read after those before.
  pub buffer_push-Window :
      po ≤ pu
      → pu < n + po
      → (b' : Buffer) × (buffer_push b (produced k pu) ≡ some b') × Window n k b' (suc pu) po
  unfolding buffer_push
  buffer_push-Window le lt = (
    record b { array = set b.array b.at_in (produced k pu); at_in = (b.at_in + 1) % b.capacity },
    ground (arith, w.size, w.at_in, mod-lt pu {m = n} (omega arith)),
    record {
      capacity = w.capacity;
      size = length-set b.array b.at_in (produced k pu) ∙ w.size;
      at_in = rw (w.capacity, w.at_in) (next-mod pu n);
      at_out = w.at_out;
      items = λ i lo hi. elim (Bool-cases (ltb i pu)) [
        | inl old ↦ rw w.at_in (
            get_elem?-set_other b.array (pu % n) (i % n) (produced k pu)
              (λ e. mod-ne n i pu (ground arith) (omega arith) (sym e))
            ∙ w.items i lo (ground arith))
        | inr new ↦
            let last : i ≡ pu = ground arith in
            rw (last, w.at_in)
              (get_elem?-set b.array (pu % n) (produced k pu)
                (omega (arith, w.size, mod-lt pu {m = n} (omega arith))))
      ];
    },
  )

  pub buffer_pop-Window :
      po < pu
      → pu ≤ n + po
      → (b' : Buffer) × (buffer_pop b ≡ some (produced k po, b')) × Window n k b' pu (suc po)
  unfolding buffer_pop
  buffer_pop-Window lt le = (
    record b { at_out = (b.at_out + 1) % b.capacity },
    (let first : get_elem? b.array b.at_out ≡ some (produced k po) =
          rw w.at_out (w.items po (omega arith) lt) in
        rw (buffer_pop, first) refl),
    record {
      capacity = w.capacity;
      size = w.size;
      at_in = w.at_in;
      at_out = rw (w.capacity, w.at_out) (next-mod po n);
      items = λ i lo hi. w.items i (omega arith) hi;
    },
  )

pub init_buffer-Window : (n : ℕ) (k : Kind) (x : Item) → Window n k (init_buffer n x) 0 0
unfolding init_buffer
init_buffer-Window n k x = record {
  capacity = refl;
  size = length-fresh n x;
  at_in = omega arith;
  at_out = omega arith;
  items = λ i lo hi. absurd (omega arith);
}
