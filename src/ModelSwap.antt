-- ===== src/ModelSwap.antt =====
-- internal/modelswap/modelswap.go: `villa model swap`, a change run through the transaction frame. A
-- catalog entry is reduced to the fields that the package reads.
pub mod Targets
mod Tests
use villa_straylight.Base.{
  ℕ, String, Bool, true, false, not, ◌||◌, Option, none, some, leb, str_eq, if◌then◌else◌,
}
use villa_straylight.Config.{VillaConfig}
use villa_straylight.StackApply.{Error, Reason, text, Outcome, no_outcome, TxDeps, Change}
use villa_straylight.StackApply.Transact.{transact}

-- `catalog.Model`
pub record CatalogModel : Type 0 where
  pub id : String
  pub quant : String
  pub default_ctx : ℕ

pub record Fit : Type 0 where
  pub fits : Bool
  pub over_envelope : Bool
  pub detail : String
  pub vision : Bool

-- `on_pull` only reports, and is left out.
pub record Deps (Lock W : Type 0) : Type 0 where
  pub tx : TxDeps Lock W
  pub resolve_catalog : String → Option CatalogModel
  pub fits : CatalogModel → VillaConfig → Fit
  pub is_downloaded : CatalogModel → W → Bool × W
  pub pull : CatalogModel → W → Option Error × W

-- `Result` less the frame's outcome.
pub record Details : Type 0 where
  pub unknown : Bool
  pub over_envelope : Bool
  pub pulled : Bool
  pub from_model : String
  pub to_model : String
  pub from_vision : Bool
  pub to_vision : Bool
  pub from_ctx : ℕ
  pub to_ctx : ℕ

abbrev pub start_details : String → Details
start_details name = record {
  unknown = false;
  over_envelope = false;
  pulled = false;
  from_model = "";
  to_model = name;
  from_vision = false;
  to_vision = false;
  from_ctx = 0;
  to_ctx = 0;
}

-- `Size`
unfoldable pub size :
    CatalogModel → VillaConfig → (CatalogModel → VillaConfig → Fit) → Fit × VillaConfig
size m cfg fits =
    let fit = fits m cfg in
    let smaller : VillaConfig = record cfg { ctx = m.default_ctx } in
    if fit.fits || not fit.over_envelope || leb cfg.ctx m.default_ctx
    then (fit, cfg)
    else (fits m smaller, smaller)

-- The config that the swap would write, before it is sized.
unfoldable pub target_config : CatalogModel → VillaConfig → VillaConfig
target_config m cfg =
    if str_eq m.quant ""
    then record cfg { model = m.id }
    else record cfg { model = m.id; quant = m.quant }

abbrev pub refusal : String → Outcome
refusal reason = record no_outcome { refused = true; reason = text reason }

abbrev pub Answer : Type 0 → Type 0
Answer W = (VillaConfig × Option Outcome) × Details × W

module _ {W : Type 0} where
  -- The target is written with its vision answer.
  unfoldable pub write_sized : Details → Fit → VillaConfig → W → Answer W
  write_sized r fit sized w =
      let next : VillaConfig = record sized { vision = fit.vision } in
      ((next, none), record r { to_vision = next.vision; to_ctx = next.ctx }, w)

  unfoldable pub after_pull :
      VillaConfig → Details → Fit → VillaConfig → Option Error × W → Answer W
  after_pull cfg r fit sized (some e, w) =
      ((cfg, some (record no_outcome { failed_step = "pull"; err = some e })), r, w)
  after_pull cfg r fit sized (none, w) = write_sized (record r { pulled = true }) fit sized w

module _ {Lock W : Type 0} (d : Deps Lock W) where
  unfoldable pub pull_absent :
      VillaConfig → Details → CatalogModel → Fit → VillaConfig → Bool × W → Answer W
  pull_absent cfg r m fit sized (true, w) = write_sized r fit sized w
  pull_absent cfg r m fit sized (false, w) = after_pull cfg r fit sized (d.pull m w)

  unfoldable pub change_resolved : Option CatalogModel → VillaConfig → Details → W → Answer W
  change_resolved none cfg r w =
      ((cfg, some (refusal "unknown model")), record r { unknown = true }, w)
  change_resolved (some m) cfg r w =
      let (fit, sized) = size m (target_config m cfg) d.fits in
      let details : Details = record r { to_model = m.id } in
      if fit.fits then pull_absent cfg details m fit sized (d.is_downloaded m w) else (
        (cfg, some (refusal fit.detail)),
        record details { over_envelope = fit.over_envelope },
        w,
      )

  unfoldable pub change_model : String → Change Details W
  change_model name cfg r w =
      change_resolved (d.resolve_catalog name) cfg
        (record r {
          from_model = cfg.model;
          from_vision = cfg.vision;
          to_vision = cfg.vision;
          from_ctx = cfg.ctx;
          to_ctx = cfg.ctx;
        })
        w

  -- `Run`
  unfoldable pub run : String → W → Outcome × Details × W
  run name w = transact d.tx (change_model name) (start_details name) w
