-- ===== src/UpdateFlow/Host.antt =====
-- internal/updateflow/updateflow.go, `Deps`: what the seams' comments promise of one subsystem on
-- a host. `pins_of` is what an image decides (pins, units, config), `data_of` the data volume.
use villa_straylight.Base.{◌≡◌, String, true, false, Option, none, some, List, ok, Result}
use villa_straylight.Subsystem.{Kind, owns_persistent_state}
use villa_straylight.PinState.{Dict, DataSnapshot, taken}
use villa_straylight.UpdateFlow.Steps.{call_if_wired}
use villa_straylight.UpdateFlow.Run.{pull_pins}
use villa_straylight.UpdateFlow.{Error, Capture, Proof, Deps}

module _ {W P D : Type 0} where
  -- `s` is a state with the pins and the data of `w`.
  pub record Same (pins_of : W → P) (data_of : W → D) (w s : W) : Type 0 where
    pub pins : pins_of s ≡ pins_of w
    pub volume : data_of s ≡ data_of w

module _ {Ctx W P D : Type 0} where
  pub record Lawful (d : Deps Ctx W) (pins_of : W → P) (data_of : W → D) (k : Kind) (w₀ : W)
      : Type 0 where
    pub prove_current_same : (c : Ctx) (w : W) → Same pins_of data_of w (d.prove_current c k w).1
    pub capture_same : (w : W) → Same pins_of data_of w (d.capture_state k w).1
    pub pull_same :
        (c : Ctx) (refs : Dict String) (w : W)
        → Same pins_of data_of w (pull_pins d.pull c refs w).1
    pub stop_same : (c : Ctx) (w : W) → Same pins_of data_of w (call_if_wired d.stop c k w).1
    pub snapshot_same :
        (f : Ctx → Kind → W → Result Error DataSnapshot × W)
        → d.snapshot_data ≡ some f
        → (c : Ctx) (w : W) → Same pins_of data_of w (f c k w).1
    -- A service started on the pins it ran before does not migrate its data.
    pub start_same :
        (c : Ctx) (w : W)
        → pins_of w ≡ pins_of w₀
        → Same pins_of data_of w (call_if_wired d.start c k w).1
    -- The image of a stateless subsystem is its state.
    pub no_data : owns_persistent_state k ≡ false → (v w : W) → data_of v ≡ data_of w
    pub snapshot_taken :
        (f : Ctx → Kind → W → Result Error DataSnapshot × W)
        → d.snapshot_data ≡ some f
        → (c : Ctx) (w : W) (s : DataSnapshot) → (f c k w).0 ≡ ok s
        → taken s ≡ true
    -- The captured tuple is put back verbatim, whatever snapshot it carries.
    pub restore_pins :
        (w : W) (cap : Capture)
        → (d.capture_state k w).0 ≡ ok cap
        → (s : DataSnapshot) (c : Ctx) (rs : List String) (v : W)
        → (d.restore c k (record cap { snapshot = s }) rs v).0 ≡ none
        → pins_of (d.restore c k (record cap { snapshot = s }) rs v).1 ≡ pins_of w
    pub restore_volume :
        (c : Ctx) (cap : Capture) (rs : List String) (v : W)
        → data_of (d.restore c k cap rs v).1 ≡ data_of v
    -- The import replaces the volume by what was exported.
    pub restore_data_replaces :
        (f : Ctx → Kind → W → Result Error DataSnapshot × W)
        → d.snapshot_data ≡ some f
        → (g : Ctx → Kind → DataSnapshot → W → Option Error × W) → d.restore_data ≡ some g
        → (c : Ctx) (w : W) (s : DataSnapshot) → (f c k w).0 ≡ ok s
        → (c' : Ctx) (v : W) → (g c' k s v).0 ≡ none
        → data_of (g c' k s v).1 ≡ data_of w
    pub prove_restored_same :
        (f : Ctx → Kind → W → Proof × W)
        → d.prove_restored ≡ some f
        → (c : Ctx) (w : W) → Same pins_of data_of w (f c k w).1
