-- ===== src/ModelSwap/Tests.antt =====
-- internal/modelswap: a swap on the small host to a model that fits at its default ctx only.
use villa_straylight.Base.{◌≡◌, refl, true, false, not, some, none, leb}
use villa_straylight.Config.{VillaConfig}
use villa_straylight.StackApply.Changes.{SwitchTo}
use villa_straylight.StackApply.Example.{World, host, frame, config, before}
use villa_straylight.ModelSwap.{
  CatalogModel, Fit, Deps, start_details, size, target_config, write_sized, after_pull, pull_absent,
  change_resolved, change_model, run,
}
use villa_straylight.ModelSwap.Targets.{IsModelTarget, run-IsModelTarget}

abbrev large : CatalogModel
large = record { id = "large"; quant = "Q8"; default_ctx = 4096 }

abbrev up_to_4096 : CatalogModel → VillaConfig → Fit
up_to_4096 m c = record {
  fits = leb c.ctx 4096;
  over_envelope = not (leb c.ctx 4096);
  detail = "";
  vision = true;
}

abbrev deps : Deps Unit World
deps = record {
  tx = host "pass";
  resolve_catalog = λ name. some large;
  fits = up_to_4096;
  is_downloaded = λ m w. (false, w);
  pull = λ m w. (none, w);
}

falls_back : (size large config up_to_4096).1.ctx ≡ 4096
unfolding size
falls_back = refl

-- The change and the frame, to be opened at once.
verb : Unit {0}
unfolding frame run change_model change_resolved pull_absent after_pull write_sized target_config
    size
verb = tt

swaps : ((run deps "large" before).0.switched ≡ true) × ((run deps "large" before).1.to_ctx ≡ 4096)
unfolding verb
swaps = (refl, refl)

run-IsModelTarget_example :
    SwitchTo
      (host "pass")
      (change_model deps "large")
      (IsModelTarget deps "large")
      (start_details "large")
      before
      (run deps "large" before)
run-IsModelTarget_example = run-IsModelTarget deps "large" before swaps.0
