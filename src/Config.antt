-- ===== src/Config.antt =====
-- internal/config/villaconfig.go: the persisted configuration, config.toml.
use villa_straylight.Base.{ℕ, String, Bool, List}

pub record ResidentModel : Type 0 where
  pub model : String
  pub quant : String
  pub ctx : ℕ
  pub port : ℕ

pub record VillaConfig : Type 0 where
  pub model : String
  pub quant : String
  pub ctx : ℕ
  pub backend : String
  pub catalog_path : String
  pub dashboard_port : ℕ
  pub chat_port : ℕ
  pub memory_enabled : Bool
  pub embedding_model : String
  pub embedding_dim : ℕ
  pub reranker : Bool
  pub extractor : Bool
  pub coding_mode : Bool
  pub coder_model : String
  pub coder_quant : String
  pub coder_agent_ctx : ℕ
  pub agent_enabled : Bool
  pub web_search_enabled : Bool
  pub searxng_secret : String
  pub web_search_result_count : ℕ
  pub web_loader_secret : String
  pub host_villa_path : String
  pub inference_secret : String
  pub speculation : String
  pub vision : Bool
  pub resident : List ResidentModel
  pub tools_mode : Bool
  pub workspace_agent : Bool
  pub workspace : List String
  pub sandbox_memory : String
  pub sandbox_cpus : ℕ
  pub voice_enabled : Bool
  pub image_enabled : Bool
  pub image_model : String
