-- ===== src/BackendSwap/Tests.antt =====
-- internal/backendswap: switches on the small host, and the theorems at them.
use villa_straylight.Base.{◌≡◌, refl, true}
use villa_straylight.StackApply.Changes.{SwitchTo}
use villa_straylight.StackApply.Example.{World, host, frame, before}
use villa_straylight.BackendSwap.{
  Deps, same_flag, tools_label, speculation_of, guarded, change_backend, change_speculation,
  change_tools, run_backend, run_speculation, run_tools,
}
use villa_straylight.BackendSwap.Targets.{
  IsBackendTarget, IsSpeculationTarget, IsToolsTarget, run_backend-target, run_speculation-target,
  run_tools-target,
}

abbrev deps : Deps Unit World
deps = record {
  tx = host "pass";
  fits_model = λ c w. ((true, "fits"), w);
  preflight_rocm = λ c w. ((true, "ready"), w);
}

-- The changes and the frame, to be opened at once.
verbs : Unit {0}
unfolding frame run_backend run_speculation run_tools change_backend change_speculation change_tools
    guarded same_flag tools_label speculation_of
verbs = tt

to_rocm : (run_backend deps "rocm" before).0.switched ≡ true
unfolding verbs
to_rocm = refl

run_backend-target_example :
    SwitchTo
      (host "pass")
      (change_backend deps "rocm")
      (IsBackendTarget deps "rocm")
      (record { from = ""; to = "rocm" })
      before
      (run_backend deps "rocm" before)
run_backend-target_example = run_backend-target deps "rocm" before to_rocm

to_ngram : (run_speculation deps "ngram" before).0.switched ≡ true
unfolding verbs
to_ngram = refl

run_speculation-target_example :
    SwitchTo
      (host "pass")
      (change_speculation deps "ngram")
      (IsSpeculationTarget deps "ngram")
      (record { from = ""; to = "ngram" })
      before
      (run_speculation deps "ngram" before)
run_speculation-target_example = run_speculation-target deps "ngram" before to_ngram

to_tools : (run_tools deps true before).0.switched ≡ true
unfolding verbs
to_tools = refl

run_tools-target_example :
    SwitchTo
      (host "pass")
      (change_tools deps true)
      (IsToolsTarget deps true)
      (record { from = ""; to = tools_label true })
      before
      (run_tools deps true before)
run_tools-target_example = run_tools-target deps true before to_tools
