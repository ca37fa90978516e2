-- ===== src/BackendSwap.antt =====
-- internal/backendswap/backendswap.go: the three changes of how the configured model is served, each
-- run through the transaction frame of internal/stackapply.
pub mod Targets
mod Tests
use villa_straylight.Base.{
  String, Bool, true, false, not, ◌&&◌, Option, none, some, str_eq, if◌then◌else◌,
}
use villa_straylight.Config.{VillaConfig}
use villa_straylight.Subsystem.{coding_mode_on, tools_on}
use villa_straylight.StackApply.{Reason, text, Outcome, no_outcome, TxDeps, Change}
use villa_straylight.StackApply.Transact.{transact}

-- `Result` less the frame's outcome: the labels that a change fills in.
pub record Labels : Type 0 where
  pub from : String
  pub to : String

pub record Deps (Lock W : Type 0) : Type 0 where
  pub tx : TxDeps Lock W
  pub fits_model : VillaConfig → W → (Bool × String) × W
  pub preflight_rocm : VillaConfig → W → (Bool × String) × W

abbrev pub refusal : String → Outcome
refusal reason = record no_outcome { refused = true; reason = text reason }

abbrev pub is_no_op : Outcome
is_no_op = record no_outcome { no_op = true }

abbrev pub speculation_off : String
speculation_off = "off"

-- `==` on booleans.
unfoldable pub same_flag : Bool → Bool → Bool
same_flag true b = b
same_flag false b = not b

-- `ToolsLabel`
unfoldable pub tools_label : Bool → String
tools_label true = "on"
tools_label false = "off"

-- The speculation mode in force; an unset one is off.
unfoldable pub speculation_of : VillaConfig → String
speculation_of cfg = if str_eq cfg.speculation "" then speculation_off else cfg.speculation

module _ {R W : Type 0} where
  -- A guard's answer: the refusal with its reason, or what is left to do.
  unfoldable pub guarded :
      VillaConfig
      → R
      → (Bool × String) × W
      → (W → (VillaConfig × Option Outcome) × R × W)
      → (VillaConfig × Option Outcome) × R × W
  guarded cfg r ((false, reason), w) rest = ((cfg, some (refusal reason)), r, w)
  guarded cfg r ((true, reason), w) rest = rest w

module _ {Lock W : Type 0} (d : Deps Lock W) where
  unfoldable pub change_backend : String → Change Labels W
  change_backend target cfg r w =
      let labels : Labels = record r { from = cfg.backend } in
      let next : VillaConfig = record cfg { backend = target } in
      if str_eq cfg.backend target
      then ((cfg, some is_no_op), labels, w)
      else guarded cfg labels (d.fits_model cfg w)
          (λ v. guarded cfg labels (d.preflight_rocm next v) (λ u. ((next, none), labels, u)))

  unfoldable pub change_speculation : String → Change Labels W
  change_speculation target cfg r w =
      let labels : Labels = record r { from = speculation_of cfg } in
      let next : VillaConfig = record cfg { speculation = target } in
      if str_eq (speculation_of cfg) target
      then ((cfg, some is_no_op), labels, w)
      else guarded next labels (d.fits_model next w) (λ v. ((next, none), labels, v))

  unfoldable pub change_tools : Bool → Change Labels W
  change_tools on cfg r w =
      let labels : Labels = record r { from = tools_label (tools_on cfg) } in
      let next : VillaConfig = record cfg { tools_mode = on } in
      if same_flag (tools_on cfg) on
      then ((cfg, some is_no_op), labels, w)
      else if not on && coding_mode_on cfg
      then (
        (
          cfg,
          some (
              refusal
                "coding mode implies tools mode — run `villa coding-mode exit` to stop serving tool calls"),
        ),
        labels,
        w,
      )
      else guarded next labels (d.fits_model next w) (λ v. ((next, none), labels, v))

  -- `Run`
  unfoldable pub run_backend : String → W → Outcome × Labels × W
  run_backend target w = transact d.tx (change_backend target) (record { from = ""; to = target }) w

  unfoldable pub run_speculation : String → W → Outcome × Labels × W
  run_speculation target w =
      transact d.tx (change_speculation target) (record { from = ""; to = target }) w

  unfoldable pub run_tools : Bool → W → Outcome × Labels × W
  run_tools on w = transact d.tx (change_tools on) (record { from = ""; to = tools_label on }) w
