-- ===== src/StackApply/Tests.antt =====
-- internal/stackapply: transactions on the small host, and the theorems at them.
use villa_straylight.Base.{
  ◌≡◌, refl, String, Bool, true, false, Option, none, some, List, [], ◌∷◌, Result, ok, err, str_eq,
  arith, if◌then◌else◌,
}
use villa_straylight.Config.{VillaConfig}
use villa_straylight.StackApply.{
  Error, seam, UnitPlan, Applied, service, cut_suffix, is_up, Outcome, Change,
}
use villa_straylight.StackApply.Write.{
  Deps, write, dir_after, stop_after, write_after, remove_after, reload_after, stop_all, stop_next,
  running_removed, running_unit, running_after, add_up, wrapped,
}
use villa_straylight.StackApply.Restart.{restart_changed, says_up}
use villa_straylight.StackApply.Transact.{transact}
use villa_straylight.StackApply.Host.{Reads}
use villa_straylight.StackApply.Restores.{Kept, transact-Kept}
use villa_straylight.StackApply.Cutover.{IsSwitch, transact-IsSwitch}
use villa_straylight.StackApply.Restarted.{logged_active, logged_restart, restart_changed-Logs}
use villa_straylight.StackApply.Rule.{restart_changed-rule}
use villa_straylight.StackApply.Reports.{IsWhole}
use villa_straylight.StackApply.Removal.{IsUntouched, write-IsUntouched, write-IsWhole}
use villa_straylight.StackApply.Example.{
  World, config_of, file_of, host, host-Lawful, frame, before,
}

abbrev to_rocm : Change Unit World
to_rocm cfg r w = ((record cfg { backend = "rocm" }, none), r, w)

rolls_back :
    ((transact (host "fail") to_rocm tt before).0.rolled_back ≡ true)
    × ((transact (host "fail") to_rocm tt before).2.files "u.container" ≡ some "old")
unfolding frame
rolls_back = (refl, refl)

switches :
    ((transact (host "pass") to_rocm tt before).0.switched ≡ true)
    × ((transact (host "pass") to_rocm tt before).2.files "u.container" ≡ some "rocm")
unfolding frame
switches = (refl, refl)

not_proven :
    ((transact (host "fail") to_rocm tt before).0.switched ≡ false)
    × ((transact (host "fail") to_rocm tt before).0.no_op ≡ false)
unfolding frame
not_proven = (refl, refl)

abbrev to_rocm_reads : Reads config_of file_of to_rocm
to_rocm_reads c r w = record { config = refl; files = λ n. refl }

transact-Kept_example :
    Kept (host "fail") (host-Lawful "fail") before (transact (host "fail") to_rocm tt before).2
unfolding frame
transact-Kept_example =
    transact-Kept (host "fail") (host-Lawful "fail") to_rocm to_rocm_reads tt before
      (record { not_switched = not_proven.0; not_no_op = not_proven.1; complete = tt })

to_rocm_honest :
    (c : VillaConfig) (r : Unit {0}) (w : World) (stop : Outcome)
    → (to_rocm c r w).0.1 ≡ some stop
    → stop.switched ≡ false
to_rocm_honest c r w stop h = absurd (ground (arith, h))

transact-IsSwitch_example :
    IsSwitch
      (host "pass")
      to_rocm
      tt
      before
      (transact (host "pass") to_rocm tt before).0
      (transact (host "pass") to_rocm tt before).2
transact-IsSwitch_example =
    transact-IsSwitch (host "pass") to_rocm to_rocm_honest tt before switches.0

abbrev some_units : Applied
some_units = record {
  changed =
      record { name = "a.container"; text = "" }
      ∷ record { name = "n.network"; text = "" }
      ∷ record { name = "b.container"; text = "" }
      ∷ [];
  removed = [];
  stopped = [];
}

-- Only `a.service` is up, and every restart succeeds.
abbrev one_up : String → Unit {0} → Result Error String × Unit {0}
one_up s w = (ok (if str_eq s "a.service" then "active" else "inactive"), w)

abbrev restarts : String → Unit {0} → Option Error × Unit {0}
restarts s w = (none, w)

abbrev fails : String → Unit {0} → Option Error × Unit {0}
fails s w = (if str_eq s "u.service" then some (seam 1) else none, w)

restart_changed-Logs_example :
    (restart_changed
      (logged_active one_up)
      (logged_restart fails)
      some_units
      ("u.service" ∷ [])
      (tt, [])).1.1
    ≡ "a.service" ∷ "u.service" ∷ []
unfolding frame
restart_changed-Logs_example = restart_changed-Logs one_up fails some_units ("u.service" ∷ []) tt

up_word : (b : Bool) → is_up (if b then "active" else "inactive") ≡ b
unfolding is_up
up_word true = refl
up_word false = refl

says_one : (s : String) (w : Unit {0}) → says_up (one_up s w).0 ≡ str_eq s "a.service"
unfolding says_up
says_one s w = up_word (str_eq s "a.service")

restart_changed-rule_example :
    (restart_changed one_up restarts some_units ("u.service" ∷ []) tt).0.0
    ≡ "a.service" ∷ "u.service" ∷ []
unfolding frame
restart_changed-rule_example =
    restart_changed-rule one_up restarts (λ s. str_eq s "a.service") says_one some_units
      ("u.service" ∷ []) tt refl

abbrev two_units : Applied
two_units = record {
  changed =
      record { name = "proven.container"; text = "" }
      ∷ record { name = "a.container"; text = "" }
      ∷ [];
  removed = [];
  stopped = [];
}

-- The proven service is down and its changed unit is rendered first: it is restarted first, as if it
-- had been running.
restarts_proven_first :
    (restart_changed one_up restarts two_units ("proven.service" ∷ []) tt).0.0
    ≡ "proven.service" ∷ "a.service" ∷ []
unfolding frame
restarts_proven_first = refl

-- A host on which the state of `b.service` cannot be read, or can.
abbrev writer : Bool → Deps (List String)
writer readable = record {
  plan = λ c w. (err (seam 1), w);
  unit_dir = λ w. (ok "/units", w);
  write_units = λ p dir w. (none, "write" ∷ w);
  remove_units = λ p dir w. (none, "remove" ∷ w);
  daemon_reload = λ w. (none, "reload" ∷ w);
  is_active = λ s w. (
    if readable then ok "active" else if str_eq s "b.service" then err (seam 2) else ok "active",
    w,
  );
  stop = λ s w. (none, s ∷ w);
  save_config = λ c w. (none, w);
  write_inference_secret_env = λ e w. (none, w);
  generate_inference_secret = λ w. (ok "key", w);
  render_inference_secret_env = λ s. ("env", s);
  heal_agent_config = none;
}

abbrev removal : UnitPlan
removal = record {
  changed = record { name = "c.container"; text = "new" } ∷ [];
  unchanged = [];
  removed =
      record { name = "a.container"; text = "" } ∷ record { name = "b.container"; text = "" } ∷ [];
}

writes : Unit {0}
unfolding write dir_after stop_after write_after remove_after reload_after stop_all stop_next
    running_removed running_unit running_after add_up wrapped says_up is_up service cut_suffix
writes = tt

writes_in_order :
    (write (writer true) removal []).1
    ≡ "reload" ∷ "remove" ∷ "write" ∷ "b.service" ∷ "a.service" ∷ []
unfolding writes
writes_in_order = refl

write-IsUntouched_example :
    IsUntouched
      (writer false)
      (record { is_active_same = λ s w. refl; unit_dir_same = λ w. refl })
      removal
      []
      (write (writer false) removal [])
unfolding service cut_suffix
write-IsUntouched_example =
    write-IsUntouched (writer false)
      (record { is_active_same = λ s w. refl; unit_dir_same = λ w. refl }) removal [] refl

write-IsWhole_example :
    IsWhole removal ("a.service" ∷ "b.service" ∷ []) (write (writer true) removal []).0.0
unfolding writes
write-IsWhole_example =
    write-IsWhole (writer true) (record { is_active_same = λ s w. refl; unit_dir_same = λ w. refl })
      removal [] refl
