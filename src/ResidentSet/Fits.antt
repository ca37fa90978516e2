-- ===== src/ResidentSet/Fits.antt =====
-- internal/residentset/admit.go, `Admit`: what an admission guarantees.
use mathlib.Core.List.{Perm}
use mathlib.Core.List.Perm
use villa_straylight.Base.{
  ◌≡◌, refl, sym, ap, subst, ℕ, ◌+◌, ◌-◌, ◌^◌, ◌≤◌, ◌<◌, true, false, List, [], ◌∷◌, ◌++◌, arith,
  All, select, leb, inl, inr, ◌⊎◌, leb→le,
}
use villa_straylight.ResidentSet.{
  Slot, ResidentModels, Plan, Policy, not_refused, saturating_sub, add_u64, sub_u64,
}
use villa_straylight.ResidentSet.Admit.{
  is_evictable, used_bytes, plan_evictions, admit_evicting, admit_by_size, admit,
}
use villa_straylight.ResidentSet.Eviction.{
  total_bytes, used_bytes-eq, Needed, Evicts, lru, plan_evictions-Evicts, fits, total-append,
  total-lru,
}
use villa_straylight.ResidentSet.Collisions.{find_collision-reason}
use villa_straylight.ResidentSet.Order.{
  IsByUse, lru-perm, lru-IsByUse, lru-not_primary, IsByUse-append, All-left,
}

-- What a plan that adds `candidate` to `s` guarantees.
pub record IsAdmission (s : ResidentModels) (candidate : Slot) (policy : Policy) (plan : Plan)
    : Type 0 where
  pub adds : plan.add ≡ candidate ∷ []
  -- The footprints left, with the candidate's, fit the envelope less the headroom.
  pub fits_envelope :
      total_bytes s.slots + candidate.bytes
      ≤ s.envelope - policy.headroom_bytes + total_bytes plan.evict
  pub no_primary : All (λ e. e.primary ≡ false) plan.evict
  pub needed :
      Needed (total_bytes s.slots) candidate.bytes (s.envelope - policy.headroom_bytes) 0 plan.evict
  -- The evictable slots that stay are used no earlier than any that goes.
  pub stay : List Slot
  pub all_there : Perm (plan.evict ++ stay) (select is_evictable s.slots)
  pub oldest : All (λ e. All (λ k. e.order ≤ k.order) stay) plan.evict

pub saturating_sub-eq : (a b : ℕ) → saturating_sub a b ≡ a - b
unfolding saturating_sub
saturating_sub-eq a b = ground arith

pub freed-le-total :
    {used candidate available freed : ℕ} {evicted : List Slot} (slots : List Slot)
    → Evicts used candidate available 0 (lru slots) evicted freed
    → freed ≤ total_bytes slots
freed-le-total {evicted} slots h =
    omega (arith, h.frees, ap total_bytes h.split, total-append evicted h.kept, total-lru slots)

module _ (s : ResidentModels) (candidate : Slot) (policy : Policy) where
  plain-IsAdmission :
      total_bytes s.slots + candidate.bytes ≤ s.envelope - policy.headroom_bytes
      → IsAdmission s candidate policy (record { add = candidate ∷ []; evict = []; no_op = false })
  plain-IsAdmission h = record {
    adds = refl;
    fits_envelope = omega arith;
    no_primary = tt;
    needed = tt;
    stay = select is_evictable s.slots;
    all_there = Perm.refl (select is_evictable s.slots);
    oldest = tt;
  }

  evicting-IsAdmission :
      (evicted : List Slot) (freed : ℕ)
      → Evicts
          (total_bytes s.slots)
          candidate.bytes
          (s.envelope - policy.headroom_bytes)
          0
          (lru s.slots)
          evicted
          freed
      → total_bytes s.slots + candidate.bytes ≤ s.envelope - policy.headroom_bytes + freed
      → IsAdmission s candidate policy
          (record { add = candidate ∷ []; evict = evicted; no_op = false })
  evicting-IsAdmission evicted freed h fit = record {
    adds = refl;
    fits_envelope = omega (arith, h.frees);
    no_primary =
        All-left (λ e. e.primary ≡ false) evicted h.kept
          (subst (All (λ e. e.primary ≡ false)) (sym h.split) (lru-not_primary s.slots));
    needed = h.needed;
    stay = h.kept;
    all_there = subst (λ l. Perm l (select is_evictable s.slots)) (sym h.split) (lru-perm s.slots);
    oldest = IsByUse-append evicted h.kept (subst IsByUse (sym h.split) (lru-IsByUse s.slots));
  }

  module _ (small : total_bytes s.slots + candidate.bytes < 2 ^ 64) where
    evicting-admits :
        (available : ℕ)
        → available ≡ s.envelope - policy.headroom_bytes
        → let r = admit_evicting s candidate policy available (total_bytes s.slots) in
          r.1.reason ≡ not_refused → IsAdmission s candidate policy r.0
    unfolding admit_evicting
    evicting-admits available e h =
        let used = total_bytes s.slots in
        let r = plan_evictions s.slots used candidate.bytes available in
        let evicts = plan_evictions-Evicts s.slots candidate.bytes available small in
        let plan : Plan = record { add = candidate ∷ []; evict = r.0; no_op = false } in
        let is_plan : (admit_evicting s candidate policy available used).0 ≡ plan = ground arith in
        let fit : leb (add_u64 (sub_u64 used r.1) candidate.bytes) available ≡ true =
          ground arith in
        subst (IsAdmission s candidate policy) (sym is_plan) (
          evicting-IsAdmission r.0 r.1
            (subst (λ a. Evicts used candidate.bytes a 0 (lru s.slots) r.0 r.1) e evicts)
            (subst (λ a. used + candidate.bytes ≤ a + r.1) e
              ((fits used candidate.bytes available small r.1 (freed-le-total s.slots evicts)).0
                fit)))

    used-eq : used_bytes s.slots ≡ total_bytes s.slots
    used-eq = used_bytes-eq s.slots (omega arith)

    by_size-admits :
        let r = admit_by_size s candidate policy in
        r.1.reason ≡ not_refused → IsAdmission s candidate policy r.0
    unfolding admit_by_size
    by_size-admits h =
        let available = saturating_sub s.envelope policy.headroom_bytes in
        let is_sub = saturating_sub-eq s.envelope policy.headroom_bytes in
        let r = admit_evicting s candidate policy available (total_bytes s.slots) in
        let plain : Plan = record { add = candidate ∷ []; evict = []; no_op = false } in
        let cases : (leb (add_u64 (total_bytes s.slots) candidate.bytes) available ≡ true)
              × ((admit_by_size s candidate policy).0 ≡ plain)
            ⊎ (r.1.reason ≡ not_refused) × ((admit_by_size s candidate policy).0 ≡ r.0) =
          ground (arith, used-eq) in
        elim cases [
          | inl (fit, is_plain) ↦
              subst (IsAdmission s candidate policy) (sym is_plain)
                (plain-IsAdmission (unfold add_u64 in omega (arith, leb→le _ _ fit, is_sub)))
          | inr (allowed, is_r) ↦
              subst (IsAdmission s candidate policy) (sym is_r)
                (evicting-admits available is_sub allowed)
        ]

    -- A candidate that is neither refused nor already resident is added, the footprints left with
    -- its own fit the envelope less the headroom, no primary slot goes, every eviction was needed
    -- when it was made, and no slot that could be evicted and stays was used before one that goes. The
    -- footprints must not wrap a `uint64`.
    pub admit-IsAdmission :
        let r = admit s candidate policy in
        r.1.reason ≡ not_refused → r.0.no_op ≡ false → IsAdmission s candidate policy r.0
    unfolding admit
    admit-IsAdmission h n =
        let r = admit_by_size s candidate policy in
        let is_sized : (r.1.reason ≡ not_refused) × ((admit s candidate policy).0 ≡ r.0) =
          ground (arith, find_collision-reason s.slots candidate) in
        subst (IsAdmission s candidate policy) (sym is_sized.1) (by_size-admits is_sized.0)
