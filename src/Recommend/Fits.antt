-- ===== src/Recommend/Fits.antt =====
-- internal/recommend/recommend.go: a pick that is said to fit does.
use villa_straylight.Base.{
  if_both, ◌≡◌, sym, subst, ℕ, ◌+◌, ◌≤◌, ◌<◌, Bool, true, Option, none, some, List, [], ◌∷◌, arith,
  leb, Bool-cases, inl, inr,
}
use villa_straylight.Catalog.{Model}
use villa_straylight.Recommend.{
  Note, Reservation, Overrides, CoderFit, Recommendation, HostProfile, Fractions, Alternative,
}
use villa_straylight.Recommend.Words.{max_u64, add_saturating}
use villa_straylight.Recommend.Reserve.{reserved_from, reserved_bytes}
use villa_straylight.Recommend.Fit.{effective_ctx}
use villa_straylight.Recommend.Pick.{
  finalize, best_of, pick_best, override_of, pick_override, left_of, pick_in, pick,
  resolve_envelope,
}
use villa_straylight.Recommend.Exact.{add_saturating-exact}
use villa_straylight.Recommend.Bounds.{terms, IsWithin, build-IsWithin}

-- Changing what is not a term leaves a pick within its envelope.
abbrev Holds : Recommendation → ℕ → Type 0
Holds r envelope = r.fits ≡ true → IsWithin r envelope

best_of-Holds :
    (fr : Fractions) (o : Option (Model × ℕ)) (alts : List Alternative) (ov : Overrides)
    (envelope : ℕ) (degraded : Bool) (notes : List Note)
    → envelope < max_u64
    → Holds (best_of fr o alts ov envelope degraded notes) envelope
unfolding best_of
best_of-Holds fr none alts ov envelope degraded notes small f = absurd (ground (arith, f))
best_of-Holds fr (some (best, t)) alts ov envelope degraded notes small f =
    let w =
      build-IsWithin best ov (effective_ctx best ov) envelope (fr.headroom_bytes envelope) degraded
        notes small f in
    record { exact = w.exact; within = w.within; ceiling = w.ceiling; cache = w.cache }

override_of-Holds :
    (fr : Fractions) (o : Option Model) (ov : Overrides) (envelope : ℕ) (degraded : Bool)
    (notes : List Note)
    → envelope < max_u64
    → Holds (override_of fr o ov envelope degraded notes) envelope
unfolding override_of
override_of-Holds fr none ov envelope degraded notes small f = absurd (ground (arith, f))
override_of-Holds fr (some m) ov envelope degraded notes small f =
    let w =
      build-IsWithin m ov (effective_ctx m ov) envelope (fr.headroom_bytes envelope) degraded _
        small f in
    record { exact = w.exact; within = w.within; ceiling = w.ceiling; cache = w.cache }

finalize-Holds :
    (r : Recommendation) (p : HostProfile) (res : List Reservation) (coder : CoderFit)
    (envelope : ℕ)
    → Holds r envelope
    → Holds (finalize r p res coder) envelope
unfolding finalize
finalize-Holds r p res coder envelope h f =
    let w = h f in
    record { exact = w.exact; within = w.within; ceiling = w.ceiling; cache = w.cache }

-- The reservations' bytes, with no wrap-around.
abbrev pub sum_bytes : List Reservation → ℕ
sum_bytes [] = 0
sum_bytes (r ∷ rs) = r.bytes + sum_bytes rs

add_saturating-ge :
    (a b : ℕ) → a ≤ max_u64 → (a ≤ add_saturating a b) × (add_saturating a b ≤ max_u64)
unfolding add_saturating
add_saturating-ge a b h = ground arith

reserved_from-ge :
    (total : ℕ) (rs : List Reservation) → total ≤ max_u64 → total ≤ reserved_from total rs
unfolding reserved_from
reserved_from-ge total [] h = omega arith
reserved_from-ge total (r ∷ rs) h =
    let step = add_saturating-ge total r.bytes h in
    omega (arith, reserved_from-ge (add_saturating total r.bytes) rs step.1)

reserved_from-exact :
    (total : ℕ) (rs : List Reservation)
    → total ≤ max_u64
    → reserved_from total rs < max_u64
    → reserved_from total rs ≡ total + sum_bytes rs
unfolding reserved_from
reserved_from-exact total [] h b = omega arith
reserved_from-exact total (r ∷ rs) h b =
    let step = (add_saturating-ge total r.bytes h).1 in
    let grows = reserved_from-ge (add_saturating total r.bytes) rs step in
    let here = add_saturating-exact total r.bytes (omega arith) in
    omega (arith, reserved_from-exact (add_saturating total r.bytes) rs step b)

-- An envelope that is not used up is what the reservations leave.
left_of-exact :
    (whole : ℕ) (rs : List Reservation)
    → whole < max_u64
    → 0 < left_of whole (reserved_bytes rs)
    → left_of whole (reserved_bytes rs) + sum_bytes rs ≡ whole
unfolding left_of reserved_bytes
left_of-exact whole rs small pos =
    let exact = reserved_from-exact 0 rs (omega arith) in
    elim (Bool-cases (leb whole (reserved_from 0 rs))) [
      | inl e ↦ absurd (ground (arith, pos, e))
      | inr e ↦ rw (e) (ground (arith, exact, e))
    ]

abbrev pub Fits : Recommendation → ℕ → List Reservation → Type 0
Fits r whole res =
    (r.total_bytes ≡ terms r)
    × (r.total_bytes ≤ r.usable_envelope_bytes)
    × (r.usable_envelope_bytes + sum_bytes res ≤ whole)

within-Fits :
    (r : Recommendation) (whole : ℕ) (res : List Reservation)
    → whole < max_u64
    → IsWithin r (left_of whole (reserved_bytes res))
    → Fits r whole res
within-Fits r whole res small w =
    let c = w.cache in
    let exact = left_of-exact whole res small (omega (arith, w.exact, w.within)) in
    (w.exact, omega (arith, w.within, w.ceiling), omega (arith, w.ceiling))

left_of-le : (whole total : ℕ) → left_of whole total ≤ whole
unfolding left_of
left_of-le whole total = ground arith

pick_in-Fits :
    (fr : Fractions) (p : HostProfile) (models : List Model) (ov : Overrides)
    (res : List Reservation) (whole : ℕ) (degraded : Bool)
    → whole < max_u64
    → (pick_in fr (some (whole, degraded)) p models ov res).fits ≡ true
    → Fits (pick_in fr (some (whole, degraded)) p models ov res) whole res
unfolding pick_in pick_best pick_override
pick_in-Fits fr p models ov res whole degraded small f =
    let envelope = left_of whole (reserved_bytes res) in
    let below = left_of-le whole (reserved_bytes res) in
    let less : envelope < max_u64 = omega arith in
    within-Fits _ whole res small (
      if_both (λ x. Holds x envelope) _
        (finalize-Holds _ p res _ envelope (override_of-Holds fr _ ov envelope degraded _ less))
        (finalize-Holds _ p res _ envelope (best_of-Holds fr _ _ ov envelope degraded _ less)) f)

-- A pick that is said to fit does: its total is the sum of its seven terms with no wrap-around, the
-- total is at most the usable envelope, and the usable envelope with all reservations added is at
-- most the host's envelope, for a host whose envelope is below the largest `uint64`.
pub pick-Fits :
    (fr : Fractions) (p : HostProfile) (models : List Model) (ov : Overrides)
    (res : List Reservation) (whole : ℕ) (degraded : Bool)
    → resolve_envelope fr p.usable_envelope_bytes p.total_ram_bytes ≡ some (whole, degraded)
    → whole < max_u64
    → (pick fr p models ov res).fits ≡ true
    → Fits (pick fr p models ov res) whole res
unfolding pick
pick-Fits fr p models ov res whole degraded e small =
    subst
      (λ o.
        (pick_in fr o p models ov res).fits ≡ true → Fits (pick_in fr o p models ov res) whole res)
      (sym e) (pick_in-Fits fr p models ov res whole degraded small)
