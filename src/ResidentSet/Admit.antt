-- ===== src/ResidentSet/Admit.antt =====
-- internal/residentset/admit.go: `Admit` and its helpers.
use villa_straylight.Base.{
  ℕ, String, Bool, true, false, not, Option, none, some, List, [], ◌∷◌, ◌++◌, any, leb, ltb, ◌==◌,
  str_eq, if◌then◌else◌, select,
}
use villa_straylight.ResidentSet.{
  Slot, same_workload, ResidentModels, Plan, empty_plan, Policy, Refusal, exceeds_envelope,
  eviction_disallowed, would_evict_primary, insufficient_capacity, port_unit_collision, no_refusal,
  add_u64, sub_u64, saturating_sub,
}

-- The loop of `usedBytes`.
unfoldable pub used_from : ℕ → List Slot → ℕ
unfolding add_u64
used_from total [] = total
used_from total (s ∷ rest) = used_from (add_u64 total s.bytes) rest

unfoldable pub used_bytes : List Slot → ℕ
unfolding used_from
used_bytes slots = used_from 0 slots

abbrev pub is_port : ℕ → ℕ → Bool
is_port p q = q == p

abbrev pub is_unit : String → String → Bool
is_unit p q = str_eq q p

-- The loop of `findCollision`, with the ports and units that it has seen.
unfoldable pub find_collision_from : List ℕ → List String → List Slot → Option Refusal
find_collision_from ports units [] = none
find_collision_from ports units (s ∷ rest) =
    let later = find_collision_from (s.port ∷ ports) (s.unit ∷ units) rest in
    if any (is_port s.port) ports
    then some (record {
      reason = port_unit_collision;
      remediation =
          "two resident slots cannot share a port — assign the candidate a distinct loopback port";
    })
    else if any (is_unit s.unit) units
    then some (record {
      reason = port_unit_collision;
      remediation =
          "two resident slots cannot share a systemd unit name — assign the candidate a distinct unit";
    })
    else later

unfoldable pub find_collision : List Slot → Slot → Option Refusal
find_collision slots candidate = find_collision_from [] [] (slots ++ candidate ∷ [])

-- `slices.SortStableFunc` by `Order`, as an insertion sort: `s` stays before its equals.
unfoldable pub insert_by_order : Slot → List Slot → List Slot
insert_by_order s [] = s ∷ []
insert_by_order s (t ∷ rest) =
    let later = insert_by_order s rest in if leb s.order t.order then s ∷ t ∷ rest else t ∷ later

unfoldable pub sort_by_order : List Slot → List Slot
sort_by_order [] = []
sort_by_order (s ∷ rest) = insert_by_order s (sort_by_order rest)

abbrev pub is_evictable : Slot → Bool
is_evictable s = not s.primary

-- The loop of `planEvictions`: the slots that it evicts and the bytes freed.
unfoldable pub evict_from : ℕ → ℕ → ℕ → ℕ → List Slot → List Slot × ℕ
unfolding add_u64 sub_u64
evict_from used candidate available freed [] = ([], freed)
evict_from used candidate available freed (s ∷ rest) =
    let later = evict_from used candidate available (add_u64 freed s.bytes) rest in
    if leb (add_u64 (sub_u64 used freed) candidate) available
    then ([], freed)
    else (s ∷ later.0, later.1)

unfoldable pub plan_evictions : List Slot → ℕ → ℕ → ℕ → List Slot × ℕ
plan_evictions slots used candidate available =
    evict_from used candidate available 0 (sort_by_order (select is_evictable slots))

-- `Admit` once the candidate does not fit beside what is resident.
unfoldable pub admit_evicting : ResidentModels → Slot → Policy → ℕ → ℕ → Plan × Refusal
admit_evicting s candidate policy available used =
    if not policy.allow_eviction
    then (
      empty_plan,
      record {
        reason = eviction_disallowed;
        remediation = "free resident capacity manually, or retry with eviction allowed";
      },
    )
    else (let (evicted, freed) = plan_evictions s.slots used candidate.bytes available in
        if ltb available (add_u64 (sub_u64 used freed) candidate.bytes)
        then (if leb candidate.bytes available
            then (
              empty_plan,
              record {
                reason = would_evict_primary;
                remediation =
                    "the primary slot is never evicted — swap the primary with `villa model swap` if you want this model to lead";
              },
            )
            else (
              empty_plan,
              record {
                reason = insufficient_capacity;
                remediation =
                    "this model does not fit the envelope once required headroom is reserved — pick a smaller quant/context or lower the headroom margin";
              },
            ))
        else (record { add = candidate ∷ []; evict = evicted; no_op = false }, no_refusal))

-- `Admit` once the ports and units are distinct.
unfoldable pub admit_by_size : ResidentModels → Slot → Policy → Plan × Refusal
admit_by_size s candidate policy =
    if ltb s.envelope candidate.bytes
    then (
      empty_plan,
      record {
        reason = exceeds_envelope;
        remediation =
            "this model does not fit the memory envelope at all — pick a smaller quant/context or add memory";
      },
    )
    else (let available = saturating_sub s.envelope policy.headroom_bytes in
        let used = used_bytes s.slots in
        if leb (add_u64 used candidate.bytes) available
        then (record { add = candidate ∷ []; evict = []; no_op = false }, no_refusal)
        else admit_evicting s candidate policy available used)

unfoldable pub admit : ResidentModels → Slot → Policy → Plan × Refusal
admit s candidate policy =
    if any (λ existing. same_workload existing candidate) s.slots
    then (record { add = []; evict = []; no_op = true }, no_refusal)
    else elim (find_collision s.slots candidate) [
      | some refusal ↦ (empty_plan, refusal)
      | none ↦ admit_by_size s candidate policy
    ]
