-- ===== src/ResidentSet/Tests.antt =====
-- internal/residentset: admissions to a small set, and the theorems at them.
use villa_straylight.Base.{◌≡◌, refl, ℕ, ◌+◌, ◌^◌, ◌<◌, String, Bool, true, false, [], ◌∷◌, arith}
use villa_straylight.ResidentSet.{
  Slot, same_workload, ResidentModels, Policy, not_refused, would_evict_primary, add_u64, sub_u64,
  saturating_sub,
}
use villa_straylight.ResidentSet.Admit.{
  used_from, used_bytes, find_collision_from, find_collision, insert_by_order, sort_by_order,
  evict_from, plan_evictions, admit_evicting, admit_by_size, admit,
}
use villa_straylight.ResidentSet.Eviction.{total_bytes}
use villa_straylight.ResidentSet.Collisions.{IsDistinct, admit-IsDistinct}
use villa_straylight.ResidentSet.Fits.{IsAdmission, admit-IsAdmission}
use villa_straylight.ResidentSet.Reasons.{Explains, admit-Explains}

abbrev slot : String → ℕ → Bool → ℕ → ℕ → Slot
slot model port primary bytes order = record {
  model = model;
  quant = "Q4";
  ctx = 4096;
  port = port;
  unit = model;
  primary = primary;
  bytes = bytes;
  order = order;
}

abbrev chat : Slot
chat = slot "chat" 8080 true 40 1

abbrev recent : Slot
recent = slot "recent" 8081 false 20 5

abbrev stale : Slot
stale = slot "stale" 8082 false 20 2

abbrev residents : ResidentModels
residents = record { envelope = 100; slots = chat ∷ recent ∷ stale ∷ [] }

abbrev coder : Slot
coder = slot "coder" 8083 false 25 9

abbrev evicting : Policy
evicting = record { allow_eviction = true; headroom_bytes = 10 }

-- Every function of the admission, to be opened at once.
admission : Unit {0}
unfolding admit admit_by_size admit_evicting plan_evictions evict_from sort_by_order insert_by_order
    find_collision find_collision_from used_bytes used_from add_u64 sub_u64 saturating_sub
    same_workload total_bytes
admission = tt

-- The stale slot goes, the recent one stays.
evicts_stale : (admit residents coder evicting).0.evict ≡ stale ∷ []
unfolding admission
evicts_stale = refl

already_there :
    (admit residents (record stale { port = 1; unit = "again" }) evicting).0.no_op ≡ true
unfolding admission
already_there = refl

is_small : total_bytes residents.slots + coder.bytes < 2 ^ 64
unfolding total_bytes
is_small = omega arith

coder_reason : (admit residents coder evicting).1.reason ≡ not_refused
unfolding admission
coder_reason = refl

coder_is_new : (admit residents coder evicting).0.no_op ≡ false
unfolding admission
coder_is_new = refl

admit-IsAdmission_example : IsAdmission residents coder evicting (admit residents coder evicting).0
admit-IsAdmission_example =
    admit-IsAdmission residents coder evicting is_small coder_reason coder_is_new

admit-IsDistinct_example : IsDistinct (chat ∷ recent ∷ stale ∷ coder ∷ [])
admit-IsDistinct_example = admit-IsDistinct residents coder evicting coder_reason coder_is_new

-- Too large beside the primary, though not for the capacity.
abbrev large : Slot
large = slot "large" 8083 false 60 9

large_is_small : total_bytes residents.slots + large.bytes < 2 ^ 64
unfolding total_bytes
large_is_small = omega arith

large_reason : (admit residents large evicting).1.reason ≡ would_evict_primary
unfolding admission
large_reason = refl

admit-Explains_example : Explains residents large evicting (admit residents large evicting).1.reason
admit-Explains_example = admit-Explains residents large evicting large_is_small
