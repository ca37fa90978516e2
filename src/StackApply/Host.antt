-- ===== src/StackApply/Host.antt =====
-- internal/stackapply/transact.go, `TxDeps`: what the seams' comments promise of a host. `config_of`
-- is the persisted config, `file_of` the unit files, `kept` the names whose bytes a capture holds.
use villa_straylight.Base.{◌≡◌, ◌∙◌, String, Bool, true, Option, none, some, ok}
use villa_straylight.Config.{VillaConfig}
use villa_straylight.PinState.{Dict, lookup}
use villa_straylight.StackApply.{Change, TxDeps}

module _ {W : Type 0} where
  pub record Same (config_of : W → VillaConfig) (file_of : W → String → Option String) (w v : W)
      : Type 0 where
    pub config : config_of v ≡ config_of w
    pub files : (name : String) → file_of v name ≡ file_of w name

  pub Same-trans :
      {config_of : W → VillaConfig} {file_of : W → String → Option String} {a b c : W}
      → Same config_of file_of a b
      → Same config_of file_of b c
      → Same config_of file_of a c
  Same-trans h k = record { config = k.config ∙ h.config; files = λ n. k.files n ∙ h.files n }

module _ {R W : Type 0} where
  -- A change only reads the config and pulls weights.
  abbrev pub Reads : (W → VillaConfig) → (W → String → Option String) → Change R W → Type 0
  Reads config_of file_of change =
      (c : VillaConfig) (r : R) (w : W) → Same config_of file_of w (change c r w).2

module _ {Lock W : Type 0} where
  pub record Lawful (d : TxDeps Lock W) (config_of : W → VillaConfig)
      (file_of : W → String → Option String) (kept : VillaConfig → String → Bool) : Type 0 where
    pub lock_same : (w : W) → Same config_of file_of w (d.lock w).1
    pub release_same : (l : Lock) (w : W) → Same config_of file_of w (d.release l w)
    pub load_same : (w : W) → Same config_of file_of w (d.load_config w).1
    pub load_reads : (w : W) (c : VillaConfig) → (d.load_config w).0 ≡ ok c → config_of w ≡ c
    pub capture_same : (c : VillaConfig) (w : W) → Same config_of file_of w (d.capture c w).1
    pub capture_reads :
        (c : VillaConfig) (w : W) (units : Dict String)
        → (d.capture c w).0 ≡ ok units
        → (name text : String) → kept c name ≡ true
        → file_of w name ≡ some text
        → lookup name units ≡ some text
    pub restore_writes :
        (units : Dict String) (w : W)
        → (d.restore units w).0 ≡ none
        → (name text : String) → lookup name units ≡ some text
        → file_of (d.restore units w).1 name ≡ some text
    pub save_files :
        (c : VillaConfig) (w : W) (name : String)
        → file_of (d.save_config c w).1 name ≡ file_of w name
    pub save_writes :
        (c : VillaConfig) (w : W)
        → (d.save_config c w).0 ≡ none
        → config_of (d.save_config c w).1 ≡ c
    pub reload_same : (w : W) → Same config_of file_of w (d.daemon_reload w).1
    pub restart_same : (s : String) (w : W) → Same config_of file_of w (d.restart s w).1
