-- ===== src/Disk/Scan.antt =====
-- The search of fs.c for consecutive free blocks finds the first place, and misses none.
use soi_laboratoria_2025z.Base.{
  ℕ, zero, suc, ◌+◌, ◌-◌, ◌≤◌, ◌<◌, ◌≡◌, ◌≢◌, refl, Bool, true, false, inl, inr, Option, none, some,
  arith, leb, ltb, ◌==◌, Bool-cases,
}
use soi_laboratoria_2025z.Disk.Defs.{scan}

-- The `n` blocks from `s` on are free.
abbrev pub Free : (ℕ → Bool) → (s n : ℕ) → Type 0
Free m s n = (j : ℕ) → s ≤ j → j < s + n → m j ≡ false

-- What the loop knows at block `i`: the last `streak` blocks are free, and no place ends before here.
record Behind (m : ℕ → Bool) (need i streak : ℕ) : Type 0 where
  le : streak ≤ i
  lt : streak < need
  free : Free m (i - streak) streak
  missed : (r : ℕ) → r + need ≤ i → ¬ Free m r need
  edge : (r : ℕ) → r < i - streak → ¬ Free m r (i - r)

-- The place at `s` is free and in range, and no earlier one is.
pub record FirstPlace (m : ℕ → Bool) (n need s : ℕ) : Type 0 where
  pub within : s + need ≤ n
  pub free : Free m s need
  pub first : (r : ℕ) → r < s → ¬ Free m r need

abbrev pub ScanResult : (ℕ → Bool) → (n need : ℕ) → Option ℕ → Type 0
ScanResult m n need none = (r : ℕ) → r + need ≤ n → ¬ Free m r need
ScanResult m n need (some s) = FirstPlace m n need s

module _ (m : ℕ → Bool) (need i streak : ℕ) (b : Behind m need i streak) where
  Behind-busy : m i ≡ true → Behind m need (suc i) 0
  Behind-busy busy = record {
    le = omega arith;
    lt = omega (arith, b.lt);
    free = λ j lo hi. absurd (omega arith);
    missed = λ r h f. elim (Bool-cases (leb (r + need) i)) [
      | inl before ↦ b.missed r (ground arith) f
      | inr here ↦ ground (arith, f i, b.lt)
    ];
    edge = λ r h f. ground (arith, f i);
  }

  streak-Free : m i ≡ false → Free m (i - streak) (suc streak)
  streak-Free idle j lo hi = elim (Bool-cases (ltb j i)) [
    | inl before ↦ b.free j lo (ground (arith, b.le))
    | inr here ↦ ground (arith, b.le)
  ]

  Behind-idle : m i ≡ false → suc streak ≢ need → Behind m need (suc i) (suc streak)
  Behind-idle idle more = record {
    le = omega (arith, b.le);
    lt = omega (arith, b.lt);
    free = λ j lo hi. streak-Free idle j (omega arith) (omega (arith, b.le));
    missed = λ r h f. elim (Bool-cases (leb (r + need) i)) [
      | inl before ↦ b.missed r (ground arith) f
      | inr here ↦
          b.edge r (ground (arith, b.lt, b.le)) (λ j lo hi. f j lo (ground (arith, b.lt, b.le)))
    ];
    edge = λ r h f. b.edge r (omega arith) (λ j lo hi. f j lo (omega arith));
  }

  found-FirstPlace :
      (n : ℕ) → m i ≡ false → suc streak ≡ need → FirstPlace m (suc n + i) need (suc i - need)
  found-FirstPlace n idle e = record {
    within = omega (arith, b.le);
    free = λ j lo hi. streak-Free idle j (omega arith) (omega (arith, b.le));
    first = λ r h f. b.missed r (omega (arith, b.le)) f;
  }

module _ (m : ℕ → Bool) (n i streak need : ℕ) where
  scan-busy : m i ≡ true → scan (suc n) i streak need m ≡ scan n (suc i) 0 need m
  unfolding scan
  scan-busy e = ground arith

  scan-found : m i ≡ false → suc streak ≡ need → scan (suc n) i streak need m ≡ some (suc i - need)
  unfolding scan
  scan-found e f = ground arith

  scan-idle :
      m i ≡ false
      → suc streak ≢ need
      → scan (suc n) i streak need m ≡ scan n (suc i) (suc streak) need m
  unfolding scan
  scan-idle e f = ground arith

scan-result :
    (m : ℕ → Bool) (n i streak need k : ℕ)
    → Behind m need i streak
    → n + i ≡ k
    → ScanResult m k need (scan n i streak need m)
unfolding scan
scan-result m zero i streak need k b e = λ r h f. b.missed r (omega arith) f
scan-result m (suc n) i streak need k b e = elim (Bool-cases (m i)) [
  | inl busy ↦
      rw (scan-busy m n i streak need busy)
        (scan-result m n (suc i) 0 need k (Behind-busy m need i streak b busy) (omega arith))
  | inr idle ↦ elim (Bool-cases (suc streak == need)) [
    | inl full ↦
        rw (scan-found m n i streak need idle (ground arith), ← e)
          (found-FirstPlace m need i streak b n idle (ground arith))
    | inr more ↦ rw (scan-idle m n i streak need idle (ground arith)) (
        scan-result m n (suc i) (suc streak) need k
          (Behind-idle m need i streak b idle (ground arith)) (omega arith))
  ]
]

-- `scan` from the first block returns the first place of `need` free blocks among `n`, or `none` when
-- there is none.
pub scan-FirstPlace :
    (m : ℕ → Bool) (n need : ℕ) → 0 < need → ScanResult m n need (scan n 0 0 need m)
scan-FirstPlace m n need pos =
    scan-result m n 0 0 need n
      (record {
        le = omega arith;
        lt = pos;
        free = λ j lo hi. absurd (omega arith);
        missed = λ r h f. absurd (omega arith);
        edge = λ r h f. absurd (omega arith);
      })
      (omega arith)

-- A file of no bytes needs no block, and finds no place.
pub scan-none_of_zero : (m : ℕ → Bool) (n i streak : ℕ) → scan n i streak 0 m ≡ none
unfolding scan
scan-none_of_zero m zero i streak = refl
scan-none_of_zero m (suc n) i streak =
    ground (arith, scan-none_of_zero m n (suc i) 0, scan-none_of_zero m n (suc i) (suc streak))
