-- ===== src/CodingMode/Tests.antt =====
-- internal/codingmode: entering coding mode on the small host with a coder that is swapped in.
use villa_straylight.Base.{◌≡◌, refl, true, false, none}
use villa_straylight.StackApply.Changes.{SwitchTo}
use villa_straylight.StackApply.Example.{World, host, frame, before}
use villa_straylight.CodingMode.{
  enter, same_mode, Deps, after_pull, enter_resolved, change_other, change_mode, run,
}
use villa_straylight.CodingMode.Served.{IsModeTarget, run-IsModeTarget}

abbrev deps : Deps Unit World
deps = record {
  tx = host "pass";
  resolve_coder = λ c w. (
    (
      record {
        model = "coder";
        quant = "Q4";
        agent_ctx = 65536;
        residency = "swap";
        downloaded = false;
      },
      true,
      "",
    ),
    w,
  );
  pull = λ t w. (none, w);
}

-- The change and the frame, to be opened at once.
verb : Unit {0}
unfolding frame run change_mode change_other enter_resolved after_pull same_mode
verb = tt

enters : (run deps enter before).0.switched ≡ true
unfolding verb
enters = refl

run-IsModeTarget_example :
    SwitchTo
      (host "pass")
      (change_mode deps enter)
      (IsModeTarget deps enter)
      (record { from_model = ""; to_model = ""; residency = "" })
      before
      (run deps enter before)
run-IsModeTarget_example = run-IsModeTarget deps enter before enters
