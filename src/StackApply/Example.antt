-- ===== src/StackApply/Example.antt =====
-- A small host of the transaction frame: a config and unit files, of which `u.container` is captured,
-- and which an apply writes with the backend as its text.
use villa_straylight.Base.{
  ◌≡◌, refl, sym, ◌∙◌, ap, subst, String, Bool, true, false, Option, none, some, [], ◌∷◌, ok,
  ok-injective, arith, str_eq, eq_iff, if◌then◌else◌,
}
use villa_straylight.Config.{VillaConfig}
use villa_straylight.PinState.{Dict, lookup}
use villa_straylight.Subsystem.{coding_mode_on, tools_on, on}
use villa_straylight.StackApply.{passes, TxDeps, cut_suffix, service, is_up}
use villa_straylight.StackApply.Restart.{
  contains, says_up, running, try_then, restart_always, wanted, restart_wanted, restart_unit,
  restart_units, restart_changed,
}
use villa_straylight.StackApply.Transact.{
  note_failure, note_incomplete, restart_all, undo, rollback, after_prove, after_restart,
  after_apply, after_save, after_capture, after_change, after_load, after_lock, transact,
}
use villa_straylight.StackApply.Host.{Same, Lawful}

pub record World : Type 0 where
  pub config : VillaConfig
  pub files : String → Option String

abbrev pub config_of : World → VillaConfig
config_of w = w.config

abbrev pub file_of : World → String → Option String
file_of w = w.files

abbrev pub unit_name : String
unit_name = "u.container"

abbrev pub kept : VillaConfig → String → Bool
kept c name = str_eq name unit_name

abbrev captured : Option String → Dict String
captured none = []
captured (some t) = (unit_name, t) ∷ []

abbrev or_else : Option String → Option String → Option String
or_else (some t) o = some t
or_else none o = o

abbrev pub host : String → TxDeps Unit World
host status = record {
  lock = λ w. (ok tt, w);
  release = λ l w. w;
  load_config = λ w. (ok w.config, w);
  save_config = λ c w. (none, record w { config = c });
  capture = λ c w. (ok (captured (w.files unit_name)), w);
  apply = λ c w. (
    (
      record {
        changed = record { name = unit_name; text = c.backend } ∷ [];
        removed = [];
        stopped = [];
      },
      none,
    ),
    record w { files = λ n. if str_eq n unit_name then some c.backend else w.files n },
  );
  restore = λ units w. (none, record w { files = λ n. or_else (lookup n units) (w.files n) });
  daemon_reload = λ w. (none, w);
  is_active = λ s w. (ok "active", w);
  restart = λ s w. (none, w);
  prove = λ b w. (record { status = status; detail = "measured" }, w);
  service = "u.service";
}

captured-reads :
    (o : Option String) (t : String) → o ≡ some t → lookup unit_name (captured o) ≡ some t
unfolding lookup
captured-reads none t h = absurd (ground (arith, h))
captured-reads (some u) t h = h

capture-reads :
    (w : World) (units : Dict String) (name text : String)
    → captured (w.files unit_name) ≡ units
    → str_eq name unit_name ≡ true
    → w.files name ≡ some text
    → lookup name units ≡ some text
capture-reads w units name text h k f =
    let is_name : name ≡ unit_name = (eq_iff name unit_name).0 k in
    subst (λ u. lookup name u ≡ some text) h
      (subst (λ n. lookup n (captured (w.files unit_name)) ≡ some text) (sym is_name)
        (captured-reads (w.files unit_name) text (ap w.files (sym is_name) ∙ f)))

same : (w : World) → Same config_of file_of w w
same w = record { config = refl; files = λ n. refl }

pub host-Lawful : (status : String) → Lawful (host status) config_of file_of kept
host-Lawful status = record {
  lock_same = same;
  release_same = λ l. same;
  load_same = same;
  load_reads = λ w c h. ok-injective h;
  capture_same = λ c. same;
  capture_reads = λ c w units h name text k f. capture-reads w units name text (ok-injective h) k f;
  restore_writes = λ units w h name text e. ap (λ o. or_else o (w.files name)) e;
  save_files = λ c w n. refl;
  save_writes = λ c w h. refl;
  reload_same = same;
  restart_same = λ s. same;
}

-- Every function of the frame, to be opened at once.
unfoldable pub frame : Unit {0}
unfolding transact after_lock after_load after_change after_capture after_save after_apply
    after_restart after_prove rollback undo restart_all note_failure note_incomplete restart_changed
    restart_units restart_unit restart_wanted wanted restart_always try_then running says_up
    contains is_up service cut_suffix passes coding_mode_on tools_on on lookup
frame = tt

abbrev pub config : VillaConfig
config = record {
  model = "chat";
  quant = "Q4";
  ctx = 8192;
  backend = "vulkan";
  catalog_path = "";
  dashboard_port = 8888;
  chat_port = 3000;
  memory_enabled = false;
  embedding_model = "";
  embedding_dim = 0;
  reranker = false;
  extractor = false;
  coding_mode = false;
  coder_model = "";
  coder_quant = "";
  coder_agent_ctx = 0;
  agent_enabled = false;
  web_search_enabled = false;
  searxng_secret = "";
  web_search_result_count = 3;
  web_loader_secret = "";
  host_villa_path = "";
  inference_secret = "key";
  speculation = "";
  vision = false;
  resident = [];
  tools_mode = false;
  workspace_agent = false;
  workspace = [];
  sandbox_memory = "4g";
  sandbox_cpus = 2;
  voice_enabled = false;
  image_enabled = false;
  image_model = "";
}

abbrev pub before : World
before = record { config = config; files = λ n. if str_eq n unit_name then some "old" else none }
