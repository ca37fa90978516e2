-- ===== src/ResidentSet/Eviction.antt =====
-- internal/residentset/admit.go, `planEvictions`: what the eviction loop takes and frees.
use mathlib.Core.Bool.{false≢true}
use villa_straylight.Base.{
  ◌≡◌, ◌↔◌, refl, sym, ℕ, ◌+◌, ◌^◌, ◌≤◌, ◌<◌, Bool, true, false, ◌⊎◌, inl, inr, List, [], ◌∷◌, ◌++◌,
  ap, arith, select, Bool-cases, leb, if◌then◌else◌, leb→le, not-leb→lt, ◌∙◌,
}
use villa_straylight.ResidentSet.{Slot, add_u64, sub_u64}
use villa_straylight.ResidentSet.Admit.{
  used_from, used_bytes, evict_from, insert_by_order, sort_by_order, is_evictable, plan_evictions,
}

-- The exact sum of the footprints.
unfoldable pub total_bytes : List Slot → ℕ
total_bytes [] = 0
total_bytes (s ∷ rest) = s.bytes + total_bytes rest

used_from-eq :
    (n : ℕ) (xs : List Slot) → n + total_bytes xs < 2 ^ 64 → used_from n xs ≡ n + total_bytes xs
unfolding used_from total_bytes
used_from-eq n [] h = omega arith
used_from-eq n (x ∷ xs) h =
    let no_wrap : add_u64 n x.bytes ≡ n + x.bytes = omega arith in
    let rest : used_from (n + x.bytes) xs ≡ n + x.bytes + total_bytes xs =
      used_from-eq (n + x.bytes) xs (omega arith) in
    rw no_wrap (omega arith)

-- Where the sum does not wrap, `usedBytes` is the sum.
pub used_bytes-eq : (xs : List Slot) → total_bytes xs < 2 ^ 64 → used_bytes xs ≡ total_bytes xs
unfolding used_bytes
used_bytes-eq xs h = omega (arith, used_from-eq 0 xs)

total-insert :
    (s : Slot) (xs : List Slot) → total_bytes (insert_by_order s xs) ≡ s.bytes + total_bytes xs
unfolding insert_by_order total_bytes
total-insert s [] = omega arith
total-insert s (x ∷ xs) = ground (arith, total-insert s xs)

total-sort : (xs : List Slot) → total_bytes (sort_by_order xs) ≡ total_bytes xs
unfolding sort_by_order total_bytes
total-sort [] = refl
total-sort (x ∷ xs) = omega (arith, total-sort xs, total-insert x (sort_by_order xs))

total-select : (p : Slot → Bool) (xs : List Slot) → total_bytes (select p xs) ≤ total_bytes xs
unfolding total_bytes
total-select p [] = omega arith
total-select p (x ∷ xs) = ground (arith, total-select p xs)

pub total-append : (xs ys : List Slot) → total_bytes (xs ++ ys) ≡ total_bytes xs + total_bytes ys
unfolding total_bytes
total-append [] ys = omega arith
total-append (x ∷ xs) ys = omega (arith, total-append xs ys)

-- Each eviction of the list was needed: with what had been freed the candidate did not fit.
abbrev pub Needed : ℕ → ℕ → ℕ → ℕ → List Slot → Type 0
Needed used candidate available freed [] = Unit
Needed used candidate available freed (s ∷ rest) =
    (available + freed < used + candidate) × Needed used candidate available (freed + s.bytes) rest

-- What the loop does with `xs`, when no sum wraps.
pub record Evicts (used candidate available freed : ℕ) (xs evicted : List Slot) (freed' : ℕ)
    : Type 0 where
  pub kept : List Slot
  pub split : evicted ++ kept ≡ xs
  pub frees : freed' ≡ freed + total_bytes evicted
  pub needed : Needed used candidate available freed evicted
  pub enough : (kept ≡ []) ⊎ (used + candidate ≤ available + freed')

module _ (used candidate available : ℕ) (small : used + candidate < 2 ^ 64) where
  -- The test of `break` and of the refusal, where no sum wraps.
  pub fits :
      (freed : ℕ)
      → freed ≤ used
      → (leb (add_u64 (sub_u64 used freed) candidate) available ≡ true)
        ↔ (used + candidate ≤ available + freed)
  unfolding add_u64 sub_u64
  fits freed h = (λ e. ground arith, λ e. ground arith)

  pub not-fits :
      (freed : ℕ)
      → freed ≤ used
      → leb (add_u64 (sub_u64 used freed) candidate) available ≡ false
      → leb (used + candidate) (available + freed) ≡ false
  not-fits freed le e = go (Bool-cases (leb (used + candidate) (available + freed)))
    where
      go :
          (leb (used + candidate) (available + freed) ≡ true)
            ⊎ (leb (used + candidate) (available + freed) ≡ false)
          → leb (used + candidate) (available + freed) ≡ false
      go (inl t) = absurd (false≢true (sym e ∙ (fits freed le).1 (leb→le _ _ t)))
      go (inr f) = f

  -- One round of the loop, from the test of `break` and what the later rounds do.
  evict-step :
      (s : Slot) (xs : List Slot) (freed : ℕ)
      → freed ≤ used
      → (b : Bool) → leb (add_u64 (sub_u64 used freed) candidate) available ≡ b
      → (later : List Slot × ℕ)
      → Evicts used candidate available (freed + s.bytes) xs later.0 later.1
      → let r : List Slot × ℕ = if b then ([], freed) else (s ∷ later.0, later.1) in
        Evicts used candidate available freed (s ∷ xs) r.0 r.1
  unfolding total_bytes
  evict-step s xs freed le true e later ih = record {
    kept = s ∷ xs;
    split = refl;
    frees = omega arith;
    needed = tt;
    enough = inr ((fits freed le).0 e);
  }
  evict-step s xs freed le false e later ih = record {
    kept = ih.kept;
    split = ap (λ l. s ∷ l) ih.split;
    frees = omega (arith, ih.frees);
    needed = (not-leb→lt _ _ (not-fits freed le e), ih.needed);
    enough = ih.enough;
  }

  evict_from-Evicts :
      (xs : List Slot) (freed : ℕ)
      → freed + total_bytes xs ≤ used
      → let r = evict_from used candidate available freed xs in
        Evicts used candidate available freed xs r.0 r.1
  unfolding evict_from total_bytes
  evict_from-Evicts [] freed h = record {
    kept = [];
    split = refl;
    frees = omega arith;
    needed = tt;
    enough = inl refl;
  }
  evict_from-Evicts (s ∷ xs) freed h =
      let no_wrap : add_u64 freed s.bytes ≡ freed + s.bytes = omega arith in
      evict-step s xs freed (omega arith) _ refl
        (evict_from used candidate available (add_u64 freed s.bytes) xs)
        (rw no_wrap (evict_from-Evicts xs (freed + s.bytes) (omega arith)))

-- The evictable slots in the order of their use.
unfoldable pub lru : List Slot → List Slot
lru slots = sort_by_order (select is_evictable slots)

pub total-lru-eq :
    (slots : List Slot) → total_bytes (lru slots) ≡ total_bytes (select is_evictable slots)
unfolding lru
total-lru-eq slots = total-sort (select is_evictable slots)

pub total-lru : (slots : List Slot) → total_bytes (lru slots) ≤ total_bytes slots
unfolding lru
total-lru slots =
    omega (arith, total-sort (select is_evictable slots), total-select is_evictable slots)

-- `planEvictions` takes a first part of the least recently used evictable slots.
pub plan_evictions-Evicts :
    (slots : List Slot) (candidate available : ℕ)
    → total_bytes slots + candidate < 2 ^ 64
    → let r = plan_evictions slots (total_bytes slots) candidate available in
      Evicts (total_bytes slots) candidate available 0 (lru slots) r.0 r.1
unfolding plan_evictions lru
plan_evictions-Evicts slots candidate available small =
    evict_from-Evicts (total_bytes slots) candidate available small (lru slots) 0
      (omega (arith, total-sort (select is_evictable slots), total-select is_evictable slots))
