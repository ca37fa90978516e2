-- ===== src/ResidentSet.antt =====
-- internal/residentset/residentset.go and admit.go: admission of a model to the resident set.
-- `uint64` arithmetic is written modulo 2 ^ 64.
pub mod Admit
pub mod Eviction
pub mod Order
pub mod Collisions
pub mod Fits
pub mod Reasons
mod Tests
use villa_straylight.Base.{
  ℕ, ◌+◌, ◌-◌, ◌%◌, ◌^◌, String, Bool, false, ◌&&◌, List, [], ◌∷◌, leb, ◌==◌, str_eq, if◌then◌else◌,
}

pub record Slot : Type 0 where
  pub model : String
  pub quant : String
  pub ctx : ℕ
  pub port : ℕ
  pub unit : String
  pub primary : Bool
  pub bytes : ℕ
  pub order : ℕ

unfoldable pub same_workload : Slot → Slot → Bool
same_workload a b = str_eq a.model b.model && str_eq a.quant b.quant && a.ctx == b.ctx

-- `Set`
pub record ResidentModels : Type 0 where
  pub envelope : ℕ
  pub slots : List Slot

pub record Plan : Type 0 where
  pub add : List Slot
  pub evict : List Slot
  pub no_op : Bool

abbrev pub empty_plan : Plan
empty_plan = record { add = []; evict = []; no_op = false }

pub record Policy : Type 0 where
  pub allow_eviction : Bool
  pub headroom_bytes : ℕ

-- `not_refused` is the zero value "".
pub data RefusalReason : Type 0 where
  not_refused exceeds_envelope eviction_disallowed would_evict_primary : RefusalReason
  insufficient_capacity port_unit_collision : RefusalReason

pub record Refusal : Type 0 where
  pub reason : RefusalReason
  pub remediation : String

abbrev pub no_refusal : Refusal
no_refusal = record { reason = not_refused; remediation = "" }

unfoldable pub add_u64 : ℕ → ℕ → ℕ
add_u64 a b = (a + b) % 2 ^ 64

unfoldable pub sub_u64 : ℕ → ℕ → ℕ
sub_u64 a b = (a + 2 ^ 64 - b % 2 ^ 64) % 2 ^ 64

-- `saturatingSub`
unfoldable pub saturating_sub : ℕ → ℕ → ℕ
saturating_sub a b = if leb a b then 0 else a - b
