-- ===== src/Config/Records.antt =====
-- internal/config/config.go: the records, the defaults, and the nodes of a KDL document.
use vivary.Prelude.{ℕ, ◌*◌, Bool, List, [], ◌++◌, Str, bytes}

-- A KDL node: its name and its arguments as the library's String writes them, and its children.
mutual
  pub data Node : Type 0 where
    node : Str → List Str → Nodes → Node

  pub data Nodes : Type 0 where
    leaf : Nodes
    child : Node → Nodes → Nodes

-- A Go int
pub data ℤ : Type 0 where
  pos : ℕ → ℤ
  negsuc : ℕ → ℤ

pub record OrchestratorConfig : Type 0 where
  pub socket_path : Str
  pub audit_db_path : Str
  pub vault_path : Str
  pub max_agent_pipe_bytes_per_sec : ℕ
  pub log_level : Str
  pub providers_file : Str
  pub chromed_socket_path : Str
  pub chrome_proxy_server : Str

pub record ProviderConfig : Type 0 where
  pub name : Str
  pub api_url : Str
  pub description : Str

pub record AgentCapabilityScope : Type 0 where
  pub entity : Str
  pub domains : List Str
  pub suffixes : List Str
  pub path_prefixes : List Str

pub record AgentCapabilityEntry : Type 0 where
  pub name : Str
  pub scopes : List AgentCapabilityScope

-- `headless` is the only field of the source's AgentBrowserConfig.
pub record AgentConfig : Type 0 where
  pub id : Str
  pub provider : Str
  pub cpu_shares : ℕ
  pub memory_max_bytes : ℕ
  pub schema_error_retries : ℤ
  pub headless : Bool
  pub capabilities : List AgentCapabilityEntry

-- `DefaultOrchestratorConfig`
unfoldable pub default_orchestrator_config : Str → OrchestratorConfig
default_orchestrator_config root = record {
  socket_path = root ++ bytes "/keeper.sock";
  audit_db_path = root ++ bytes "/audit.db";
  vault_path = root ++ bytes "/vault.enc";
  max_agent_pipe_bytes_per_sec = 1 * 1024 * 1024;
  log_level = bytes "info";
  providers_file = root ++ bytes "/providers.kdl";
  chromed_socket_path = bytes "/run/vivary/chromed-host/chromed.sock";
  chrome_proxy_server = [];
}
