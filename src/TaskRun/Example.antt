-- ===== src/TaskRun/Example.antt =====
-- internal/taskrun: a queued task, its directory and a host.
use villa_straylight.Base.{String, true, false, some, none, [], ◌∷◌}
use villa_straylight.Approval.{ask_mode}
use villa_straylight.StackApply.Example.{config}
use villa_straylight.TaskStore.{queued, Task}
use villa_straylight.TaskStore.Records.{Disk}
use villa_straylight.TaskRun.{Deps}

abbrev pub id : String
id = "20260910-120115-4f2a"

abbrev pub task : Task
task = record {
  id = id;
  workspace = "/home/op/notes";
  instruction = "Summarise the notes.";
  mode = ask_mode;
  state = queued;
  exit = none;
  submitted_at = "2026-09-10T12:01:15Z";
  started_at = "";
  finished_at = "";
  harness = ("", "");
  files = [];
  approvals = [];
  grounding = record { checked = false; documents = [] };
  schema = 1;
}

abbrev pub disk : Disk
disk = record { records = (id, some task) ∷ []; unwritable = λ i. false }

-- A host on which everything works.
abbrev pub deps : Deps
deps = record {
  load_config = some config;
  render_args = λ cfg workspace i. some ("run" ∷ []);
  launches = λ args. true;
  sends_prompt = true;
  read_file = λ workspace rel. some "text";
  audit = λ path content sources. record {
    checked = true;
    has_error = false;
    claims = 1;
    unsupported = [];
  };
  now = "2026-09-10T12:02:00Z";
  registered = λ cfg path. some path;
  tools_on = λ cfg. true;
  sandbox_ready = true;
}
