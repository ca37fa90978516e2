-- ===== src/ResidentSet/Reasons.antt =====
-- internal/residentset/admit.go, `Admit`: what each refusal reason says is so.
use villa_straylight.Base.{
  ◌≡◌, ◌≢◌, refl, sym, ap, subst, ℕ, ◌+◌, ◌-◌, ◌^◌, ◌≤◌, ◌<◌, Bool, true, false, none, List, [],
  ◌∷◌, ◌++◌, ◌⊎◌, inl, inr, arith, select, leb, ltb, not-leb→lt, ltb→lt, not-ltb→le,
}
use villa_straylight.ResidentSet.{
  Slot, ResidentModels, empty_plan, Policy, RefusalReason, not_refused, exceeds_envelope,
  eviction_disallowed, would_evict_primary, insufficient_capacity, port_unit_collision,
  saturating_sub, add_u64, sub_u64,
}
use villa_straylight.ResidentSet.Admit.{
  is_evictable, find_collision, used_bytes, plan_evictions, admit_evicting, admit_by_size, admit,
}
use villa_straylight.ResidentSet.Eviction.{
  total_bytes, used_bytes-eq, plan_evictions-Evicts, not-fits, total-append, total-lru-eq,
}
use villa_straylight.ResidentSet.Collisions.{
  IsDistinct, find_collision-reason, find_collision-eq_none,
}
use villa_straylight.ResidentSet.Fits.{saturating_sub-eq, freed-le-total}

abbrev is_primary : Slot → Bool
is_primary s = s.primary

-- What a reason claims of the set, the candidate and the policy.
abbrev pub Explains : ResidentModels → Slot → Policy → RefusalReason → Type 0
Explains s c p not_refused = Unit
Explains s c p exceeds_envelope = s.envelope < c.bytes
Explains s c p eviction_disallowed =
    (p.allow_eviction ≡ false) × (s.envelope - p.headroom_bytes < total_bytes s.slots + c.bytes)
Explains s c p would_evict_primary =
    (p.allow_eviction ≡ true)
    × (c.bytes ≤ s.envelope - p.headroom_bytes)
    × (s.envelope - p.headroom_bytes < total_bytes (select is_primary s.slots) + c.bytes)
Explains s c p insufficient_capacity =
    (p.allow_eviction ≡ true) × (s.envelope - p.headroom_bytes < c.bytes) × (c.bytes ≤ s.envelope)
Explains s c p port_unit_collision = ¬ IsDistinct (s.slots ++ c ∷ [])

total-nil : total_bytes [] ≡ 0
unfolding total_bytes
total-nil = refl

total-primary :
    (xs : List Slot)
    → total_bytes (select is_primary xs) + total_bytes (select is_evictable xs) ≡ total_bytes xs
unfolding total_bytes
total-primary [] = omega arith
total-primary (x ∷ xs) = ground (arith, total-primary xs)

module _ (s : ResidentModels) (c : Slot) (p : Policy)
    (small : total_bytes s.slots + c.bytes < 2 ^ 64) where
  -- Where the loop has run out of slots, only the primaries are left.
  only_primaries :
      (available : ℕ)
      → let r = plan_evictions s.slots (total_bytes s.slots) c.bytes available in
        leb (add_u64 (sub_u64 (total_bytes s.slots) r.1) c.bytes) available ≡ false
        → available < total_bytes (select is_primary s.slots) + c.bytes
  only_primaries available e =
      let used = total_bytes s.slots in
      let r = plan_evictions s.slots used c.bytes available in
      let evicts = plan_evictions-Evicts s.slots c.bytes available small in
      let le : r.1 ≤ used = freed-le-total s.slots evicts in
      let over : available + r.1 < used + c.bytes =
        not-leb→lt (used + c.bytes) (available + r.1)
          (not-fits used c.bytes available small r.1 le e) in
      elim evicts.enough [
        | inl all_gone ↦ omega (
          arith,
          over,
          evicts.frees,
          ap total_bytes evicts.split,
          total-append r.0 evicts.kept,
          ap total_bytes all_gone,
          total-nil,
          total-lru-eq s.slots,
          total-primary s.slots,
        )
        | inr fit ↦ absurd (omega (arith, over))
      ]

  evicting-Explains :
      (available : ℕ)
      → available ≡ s.envelope - p.headroom_bytes
      → c.bytes ≤ s.envelope
      → available < total_bytes s.slots + c.bytes
      → Explains s c p (admit_evicting s c p available (total_bytes s.slots)).1.reason
  unfolding admit_evicting
  evicting-Explains available e fit over = ground (arith, only_primaries available)

  by_size-Explains : Explains s c p (admit_by_size s c p).1.reason
  unfolding admit_by_size
  by_size-Explains =
      let available = saturating_sub s.envelope p.headroom_bytes in
      let is_sub = saturating_sub-eq s.envelope p.headroom_bytes in
      let used = used_bytes s.slots in
      let used-eq = used_bytes-eq s.slots (omega arith) in
      let r = admit_evicting s c p available (total_bytes s.slots) in
      let reason = (admit_by_size s c p).1.reason in
      let cases : (ltb s.envelope c.bytes ≡ true) × (reason ≡ exceeds_envelope)
          ⊎ (reason ≡ not_refused)
          ⊎ (ltb s.envelope c.bytes ≡ false)
            × (leb (add_u64 (total_bytes s.slots) c.bytes) available ≡ false)
            × (reason ≡ r.1.reason) =
        ground (arith, used-eq) in
      elim cases [
        | inl (big, e) ↦ subst (Explains s c p) (sym e) (ltb→lt _ _ big)
        | inr (inl e) ↦ subst (Explains s c p) (sym e) tt
        | inr (inr (le, over, e)) ↦ subst (Explains s c p) (sym e) (
            evicting-Explains available is_sub (not-ltb→le _ _ le)
              (unfold add_u64 in omega (arith, not-leb→lt _ _ over)))
      ]

-- The reason that `admit` returns is so: the candidate alone is larger than the envelope; it does
-- not fit beside what is resident and the policy forbids eviction; it fits the capacity, but not
-- beside the primaries; it is larger than the capacity, though not than the envelope; or a port or
-- a unit would be shared. The capacity is the envelope less the headroom. The footprints must not
-- wrap a `uint64`.
pub admit-Explains :
    (s : ResidentModels) (candidate : Slot) (policy : Policy)
    → total_bytes s.slots + candidate.bytes < 2 ^ 64
    → Explains s candidate policy (admit s candidate policy).1.reason
unfolding admit
admit-Explains s c p small =
    let collides : Type 0 = find_collision s.slots c ≡ none in
    let reason = (admit s c p).1.reason in
    let cases : (reason ≡ not_refused)
        ⊎ (reason ≡ (admit_by_size s c p).1.reason)
        ⊎ (find_collision s.slots c ≢ none) × (reason ≡ port_unit_collision) =
      ground (arith, find_collision-reason s.slots c) in
    elim cases [
      | inl e ↦ subst (Explains s c p) (sym e) tt
      | inr (inl e) ↦ subst (Explains s c p) (sym e) (by_size-Explains s c p small)
      | inr (inr (some_collision, e)) ↦
          subst (Explains s c p) (sym e)
            (λ distinct. some_collision (find_collision-eq_none s.slots c distinct))
    ]

-- A refusal plans nothing.
pub admit-plans_nothing :
    (s : ResidentModels) (candidate : Slot) (policy : Policy)
    → (admit s candidate policy).1.reason ≢ not_refused
    → (admit s candidate policy).0 ≡ empty_plan
unfolding admit admit_by_size admit_evicting
admit-plans_nothing s c p h = ground arith
