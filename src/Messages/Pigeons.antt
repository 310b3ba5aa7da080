-- ===== src/Messages/Pigeons.antt =====
-- A list of slots of the process table in which none stands twice is no longer than the table.
use soi_laboratoria_2025z.Base.{
  ℕ, zero, suc, ◌≤◌, ◌<◌, ◌≡◌, inl, inr, List, [], ◌∷◌, length, arith, ◌==◌, Bool-cases,
}
use soi_laboratoria_2025z.Kernel.Estimate.{Fresh, Once}
use soi_laboratoria_2025z.Kernel.Defs.{Ptr}

-- The numbers of the list are from 1 to `n`.
abbrev pub Within : ℕ → List Ptr → Type 0
Within n [] = Unit
Within n (x ∷ xs) = (0 < x) × (x ≤ n) × Within n xs

lower-Within : (n : ℕ) (xs : List Ptr) → Within (suc n) xs → Fresh (suc n) xs → Within n xs
lower-Within n [] w f = tt
lower-Within n (x ∷ xs) w f = (w.0, ground (arith, w.1, f.0), lower-Within n xs w.2 f.1)

-- What is left of the list without the number `n + 1`.
record Rest (n : ℕ) (xs : List Ptr) : Type 0 where
  rest : List Ptr
  longer : length xs ≤ suc (length rest)
  once : Once rest
  within : Within n rest
  fresh : (p : Ptr) → Fresh p xs → Fresh p rest

take_out : (n : ℕ) (xs : List Ptr) → Once xs → Within (suc n) xs → Rest n xs
take_out n [] o w = record {
  rest = [];
  longer = omega arith;
  once = tt;
  within = tt;
  fresh = λ p f. tt;
}
take_out n (x ∷ xs) o w = elim (Bool-cases (x == suc n)) [
  | inl last ↦
      let e : x ≡ suc n = ground arith in
      record {
        rest = xs;
        longer = omega arith;
        once = o.1;
        within = lower-Within n xs w.2 (rw e at o.0);
        fresh = λ p f. f.1;
      }
  | inr other ↦
      let r = take_out n xs o.1 w.2 in
      record {
        rest = x ∷ r.rest;
        longer = omega (arith, r.longer);
        once = (r.fresh x o.0, r.once);
        within = (w.0, ground (arith, w.1), r.within);
        fresh = λ p f. (f.0, r.fresh p f.1);
      }
]

pub length-Within : (n : ℕ) (xs : List Ptr) → Once xs → Within n xs → length xs ≤ n
length-Within zero [] o w = omega arith
length-Within zero (x ∷ xs) o w = absurd (omega (arith, w.0, w.1))
length-Within (suc n) xs o w =
    let r = take_out n xs o w in omega (arith, r.longer, length-Within n r.rest r.once r.within)
