-- ===== src/CodingMode.antt =====
-- internal/codingmode/codingmode.go: `villa coding-mode enter|exit`, a change run through the
-- transaction frame, and what villa-llama serves for a config, `ServedTarget` of
-- internal/stackapply/stackapply.go.
pub mod Served
mod Tests
use villa_straylight.Base.{
  ℕ, String, Bool, true, false, not, Option, none, some, str_eq, if◌then◌else◌,
}
use villa_straylight.Config.{VillaConfig}
use villa_straylight.Subsystem.{coding_mode_on}
use villa_straylight.StackApply.{Error, Reason, text, Outcome, no_outcome, TxDeps, Change}
use villa_straylight.StackApply.Transact.{transact}

pub data Direction : Type 0 where
  enter exit : Direction

-- `CodingModeOn(cfg) == (dir == Enter)`
unfoldable pub same_mode : Bool → Direction → Bool
same_mode b enter = b
same_mode b exit = not b

abbrev pub residency_swap : String
residency_swap = "swap"

abbrev pub residency_shared : String
residency_shared = "shared"

pub record CoderTarget : Type 0 where
  pub model : String
  pub quant : String
  pub agent_ctx : ℕ
  pub residency : String
  pub downloaded : Bool

-- `resolve_coder` answers a target, or the reason of its refusal.
pub record Deps (Lock W : Type 0) : Type 0 where
  pub tx : TxDeps Lock W
  pub resolve_coder : VillaConfig → W → (CoderTarget × Bool × String) × W
  pub pull : CoderTarget → W → Option Error × W

-- `Result` less the frame's outcome and the direction.
pub record Labels : Type 0 where
  pub from_model : String
  pub to_model : String
  pub residency : String

-- The model and the ctx that villa-llama serves.
unfoldable pub served_target : VillaConfig → String × ℕ
served_target cfg =
    if coding_mode_on cfg
    then (if str_eq cfg.coder_model ""
        then (cfg.model, cfg.coder_agent_ctx)
        else (cfg.coder_model, cfg.coder_agent_ctx))
    else (cfg.model, cfg.ctx)

abbrev pub cleared : VillaConfig → VillaConfig
cleared cfg = record cfg {
  coding_mode = false;
  coder_model = "";
  coder_quant = "";
  coder_agent_ctx = 0;
}

abbrev pub entered : VillaConfig → CoderTarget → VillaConfig
entered cfg t = record cfg { coding_mode = true; coder_agent_ctx = t.agent_ctx }

abbrev pub swapped : VillaConfig → CoderTarget → VillaConfig
swapped cfg t = record (entered cfg t) { coder_model = t.model; coder_quant = t.quant }

module _ {Lock W : Type 0} (d : Deps Lock W) where
  unfoldable pub after_pull :
      VillaConfig
      → CoderTarget
      → Labels
      → Option Error × W
      → (VillaConfig × Option Outcome) × Labels × W
  after_pull cfg t r (some e, w) =
      ((entered cfg t, some (record no_outcome { failed_step = "pull"; err = some e })), r, w)
  after_pull cfg t r (none, w) = ((swapped cfg t, none), r, w)

  unfoldable pub enter_resolved :
      VillaConfig
      → Labels
      → (CoderTarget × Bool × String) × W
      → (VillaConfig × Option Outcome) × Labels × W
  enter_resolved cfg r ((t, false, reason), w) =
      ((cfg, some (record no_outcome { refused = true; reason = text reason })), r, w)
  enter_resolved cfg r ((t, true, reason), w) =
      let shared : Labels = record r { residency = t.residency } in
      let named : Labels =
        if str_eq t.model "" then shared else record shared { to_model = t.model } in
      if str_eq t.residency residency_swap
      then (if t.downloaded
          then ((swapped cfg t, none), named, w)
          else after_pull cfg t named (d.pull t w))
      else ((entered cfg t, none), shared, w)

  unfoldable pub change_other :
      Direction → VillaConfig → Labels → W → (VillaConfig × Option Outcome) × Labels × W
  change_other exit cfg r w = ((cleared cfg, none), r, w)
  change_other enter cfg r w = enter_resolved cfg r (d.resolve_coder cfg w)

  unfoldable pub change_mode : Direction → Change Labels W
  change_mode dir cfg r w =
      let labels : Labels = record r { from_model = cfg.model; to_model = cfg.model } in
      if same_mode (coding_mode_on cfg) dir
      then ((cfg, some (record no_outcome { no_op = true })), labels, w)
      else change_other dir cfg labels w

  -- `Run`
  unfoldable pub run : Direction → W → Outcome × Labels × W
  run dir w =
      transact d.tx (change_mode dir) (record { from_model = ""; to_model = ""; residency = "" }) w
