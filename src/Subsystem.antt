-- ===== src/Subsystem.antt =====
-- internal/subsystem/subsystem.go: the parts of the stack, their gates and the volumes they own.
pub mod Units
use villa_straylight.Base.{
  ℕ, ◌==◌, String, Bool, true, false, ◌&&◌, ◌||◌, Option, none, some, List, [], ◌∷◌, is_some,
  select,
}
use villa_straylight.Config.{VillaConfig}

pub data Kind : Type 0 where
  memory web_search agent coding_mode inference chat sandbox voice image : Kind

pub Kind-discrete : Discrete Kind
Kind-discrete = hlevel

unfoldable pub kind_name : Kind → String
kind_name memory = "memory"
kind_name web_search = "web search"
kind_name agent = "coding agent"
kind_name coding_mode = "coding mode"
kind_name inference = "inference"
kind_name chat = "chat"
kind_name sandbox = "sandbox"
kind_name voice = "voice"
kind_name image = "image generation"

unfoldable pub config_key : Kind → String
config_key memory = "memory_enabled"
config_key web_search = "web_search_enabled"
config_key agent = "agent_enabled"
config_key coding_mode = "coding_mode"
config_key sandbox = "workspace_agent"
config_key voice = "voice_enabled"
config_key image = "image_enabled"
config_key inference = ""
config_key chat = ""

unfoldable pub always_on : Kind → Bool
always_on inference = true
always_on chat = true
always_on _ = false

unfoldable pub state_volume : Kind → Option String
state_volume chat = some "villa-openwebui"
state_volume memory = some "villa-qdrant"
state_volume _ = none

unfoldable pub owns_persistent_state : Kind → Bool
unfolding state_volume
owns_persistent_state k = is_some (state_volume k)

unfoldable pub all : List Kind
all = memory ∷ web_search ∷ agent ∷ coding_mode ∷ sandbox ∷ voice ∷ image ∷ []

unfoldable pub every : List Kind
every = inference ∷ chat ∷ memory ∷ web_search ∷ agent ∷ coding_mode ∷ sandbox ∷ voice ∷ image ∷ []

unfoldable pub stateful : List Kind
unfolding owns_persistent_state every
stateful = select owns_persistent_state every

unfoldable pub on : VillaConfig → Kind → Bool
on cfg memory = cfg.memory_enabled
on cfg web_search = cfg.web_search_enabled
on cfg agent = cfg.agent_enabled
on cfg coding_mode = cfg.coding_mode
on cfg sandbox = cfg.workspace_agent
on cfg voice = cfg.voice_enabled
on cfg image = cfg.image_enabled
on cfg inference = true
on cfg chat = true

unfoldable pub coding_mode_on : VillaConfig → Bool
unfolding on
coding_mode_on cfg = on cfg coding_mode

unfoldable pub tools_on : VillaConfig → Bool
tools_on cfg = cfg.tools_mode || cfg.coding_mode

unfoldable pub rerank_on : VillaConfig → Bool
unfolding on
rerank_on cfg = on cfg memory && cfg.reranker

unfoldable pub extract_on : VillaConfig → Bool
unfolding on
extract_on cfg = on cfg memory && cfg.extractor

unfoldable pub enabled : VillaConfig → List Kind
unfolding on all
enabled cfg = select (on cfg) all

-- `==` on kinds, by their numbers.
unfoldable pub kind_number : Kind → ℕ
kind_number memory = 0
kind_number web_search = 1
kind_number agent = 2
kind_number coding_mode = 3
kind_number inference = 4
kind_number chat = 5
kind_number sandbox = 6
kind_number voice = 7
kind_number image = 8

unfoldable pub same_kind : Kind → Kind → Bool
same_kind a b = kind_number a == kind_number b
