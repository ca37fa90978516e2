-- ===== src/TaskRun/Audit.antt =====
-- internal/taskrun/worker.go, `audit`: the documents that the task wrote, checked against what the
-- session read.
use villa_straylight.Base.{
  String, Bool, true, false, not, ◌&&◌, ◌||◌, Option, none, some, List, [], ◌∷◌, ℕ, is_among,
  is_empty, if◌then◌else◌,
}
use villa_straylight.TaskStore.{done, flagged, FileEvent, Grounding, GroundingDocument}
use villa_straylight.TaskRun.{DocumentReport, Deps, Job}
use villa_straylight.TaskRun.Moves.{guest_rel, finish, finish_after_cancel}

unfoldable pub is_flagged : DocumentReport → Bool
is_flagged r = not r.checked || r.has_error || not (is_empty r.unsupported)

abbrev documents : List (List ℕ × DocumentReport) → List GroundingDocument
documents [] = []
documents ((path, r) ∷ rs) =
    record { path = path; claims = r.claims; unsupported = r.unsupported } ∷ documents rs

abbrev all_checked : List (List ℕ × DocumentReport) → Bool
all_checked [] = true
all_checked ((path, r) ∷ rs) = r.checked && all_checked rs

abbrev any_flagged : List (List ℕ × DocumentReport) → Bool
any_flagged [] = false
any_flagged ((path, r) ∷ rs) = is_flagged r || any_flagged rs

module _ (deps : Deps) where
  -- What the session read, less what it wrote.
  unfoldable pub sources_of : Job → List (List ℕ) → List (List ℕ × String)
  sources_of j [] = []
  sources_of j (p ∷ ps) =
      let rel = guest_rel p in
      let later = sources_of j ps in
      if is_among rel j.seen then later else elim (deps.read_file j.task.workspace rel) [
        | none ↦ later
        | some content ↦ (rel, content) ∷ later
      ]

  -- A file that cannot be read was not checked.
  unfoldable pub report_on : List (List ℕ × String) → List ℕ → Option String → DocumentReport
  report_on sources path none = record {
    checked = false;
    has_error = true;
    claims = 0;
    unsupported = [];
  }
  report_on sources path (some content) = deps.audit path content sources

  -- The reports on the distinct files.
  unfoldable pub audit_files :
      Job → List (List ℕ × String) → List (List ℕ) → List FileEvent → List (List ℕ × DocumentReport)
  audit_files j sources audited [] = []
  audit_files j sources audited (f ∷ fs) =
      let again = audit_files j sources audited fs in
      let r = report_on sources f.path (deps.read_file j.task.workspace f.path) in
      let later = audit_files j sources (f.path ∷ audited) fs in
      if is_among f.path audited then again else (f.path, r) ∷ later

  -- `audit`, by the cancellation that came before it ended.
  unfoldable pub audit : Job → Option Bool → Job
  audit j (some is_interrupted) = finish_after_cancel deps is_interrupted j
  audit j none =
      let rs = audit_files j (sources_of j j.files_read) [] j.task.files in
      let t = j.task in
      let g : Grounding = record { checked = all_checked rs; documents = documents rs } in
      finish deps (record j { task = record t { grounding = g } })
        (if any_flagged rs then flagged else done)
