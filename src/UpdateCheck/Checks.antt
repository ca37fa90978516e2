-- ===== src/UpdateCheck/Checks.antt =====
-- internal/updatecheck/check.go: `Check`, the report that it refuses with, and `Updatable`.
use villa_straylight.Base.{
  ℕ, suc, String, Bool, true, false, not, ◌&&◌, Option, none, some, List, [], ◌∷◌, ◌++◌, ltb, ◌==◌,
  str_eq, if◌then◌else◌,
}
use villa_straylight.Subsystem.{Kind, kind_name, every, on}
use villa_straylight.Pins.{Entry, entries_for}
use villa_straylight.PinResolve.{Resolved, is_diverged, resolve}
use villa_straylight.Manifest.Verify.{Outcome, accepted, refused, absent, no_reason}
use villa_straylight.UpdateCheck.{
  SubsystemState, Component, Subsystem, Summary, VillaRelease, Line, Report, Input, checked,
  could_not_check, unset_change, no_change, new_version, update_available, no_line, nothing_moves,
  one_moves, many_move, verdict_message,
}
use villa_straylight.UpdateCheck.Rows.{is_left_out, unmoved, subsystem_rows}

unfoldable pub villa_row : Input → VillaRelease
villa_row i =
    let offered = i.verdict.doc.villa_version in
    let as_is : VillaRelease = record {
      current = i.villa_version;
      available = "";
      change = no_change;
      applied_by_update = false;
    } in
    if not (str_eq offered "") && not (str_eq offered i.villa_version)
    then record as_is { available = offered; change = new_version }
    else as_is

unfoldable pub summary_line : Option Summary → Line
summary_line none = no_line
summary_line (some s) =
    if s.updatable == 0
    then nothing_moves
    else if s.updatable == 1
    then one_moves
    else many_move s.updatable

unfoldable pub add_diverged : Entry → Option Resolved → List Component → List Component
add_diverged e none later = later
add_diverged e (some res) later =
    if is_diverged res then record (unmoved e res) { change = unset_change } ∷ later else later

unfoldable pub diverged_of : Input → Kind → List Entry → List Component
diverged_of i k [] = []
diverged_of i k (e ∷ es) =
    let later = diverged_of i k es in
    let added = add_diverged e (resolve i.resolver e.component) later in
    if is_left_out i.cfg k e then later else added

unfoldable pub diverged_in : Input → List Kind → List Component
diverged_in i [] = []
diverged_in i (k ∷ ks) =
    let later = diverged_in i ks in
    if on i.cfg k then diverged_of i k (entries_for k i.cfg i.resolver.table) ++ later else later

unfoldable pub diverged : Input → List Component
diverged i = diverged_in i every

unfoldable pub reject : Input → Report
reject i = record {
  result = could_not_check;
  checked_at = "";
  last_successful_check = i.last_successful_check;
  manifest = record {
    state = i.verdict.outcome;
    reason = i.verdict.reason;
    serial = 0;
    valid_until = "";
  };
  subsystems = [];
  villa = none;
  summary = none;
  message = verdict_message i.verdict.message;
  diverged = diverged i;
}

unfoldable pub accept : Input → Report
accept i =
    let rows = subsystem_rows i i.verdict.doc.components every in
    record {
      result = checked;
      checked_at = i.checked_at;
      last_successful_check = "";
      manifest = record {
        state = i.verdict.outcome;
        reason = no_reason;
        serial = i.verdict.doc.serial;
        valid_until = i.verdict.doc.valid_until;
      };
      subsystems = rows.0;
      villa = some (villa_row i);
      summary = some rows.1;
      message = summary_line (some rows.1);
      diverged = [];
    }

-- `Check`, by the verdict's outcome.
unfoldable pub check_as : Outcome → Input → Report
check_as accepted i = accept i
check_as absent i = reject i
check_as refused i = reject i

unfoldable pub check : Input → Report
check i = check_as i.verdict.outcome i

unfoldable pub is_updatable : SubsystemState → Bool
is_updatable update_available = true
is_updatable _ = false

-- `order`
unfoldable pub order_in : String → List Kind → ℕ
order_in name [] = 0
order_in name (k ∷ ks) =
    let later = order_in name ks in if str_eq (kind_name k) name then 0 else suc later

unfoldable pub order : String → ℕ
order name = order_in name every

-- `sort.SliceStable`
unfoldable pub insert_name : String → List String → List String
insert_name name [] = name ∷ []
insert_name name (n ∷ ns) =
    let later = insert_name name ns in
    if ltb (order n) (order name) then n ∷ later else name ∷ n ∷ ns

unfoldable pub sort_names : List String → List String
sort_names [] = []
sort_names (n ∷ ns) = insert_name n (sort_names ns)

unfoldable pub updatable_names : List Subsystem → List String
updatable_names [] = []
updatable_names (s ∷ ss) =
    let later = updatable_names ss in if is_updatable s.state then s.name ∷ later else later

unfoldable pub updatable : Report → List String
updatable r = sort_names (updatable_names r.subsystems)
