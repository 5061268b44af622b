-- ===== src/Config.antt =====
-- The configuration and its defaults, of internal/config/config.go. A text is the list of its code
-- points; reading the file, the environment and the YAML is not modelled. `url.Parse` and the name
-- of the host are arguments.
pub mod Trim
pub mod Defaults
use moe_asset_updater_client.Base.{
  ℕ, ◌+◌, ◌*◌, ◌==◌, Bool, true, false, not, ◌&&◌, ◌||◌, Option, none, some, List, [], ◌∷◌, ◌++◌,
  if◌then◌else◌, equal, contains,
}
use moe_asset_updater_client.Base.Int.{ℤ, pos, negsuc, is_nonpos, eqb_ℤ}
use moe_asset_updater_client.Config.Trim.{Text, text, trim_space}

pub record ClientConfig : Type 0 where
  pub mode : Text
  pub server_url : Text
  pub tcp_address : Text
  pub tcp_reconnect_seconds : ℤ
  pub bearer_token : Text
  pub user_agent : Text
  pub timeout_seconds : ℤ

pub record WorkerConfig : Type 0 where
  pub id : Text
  pub name : Text
  pub version : Text
  pub max_tasks : ℤ
  pub tags : List (Text × Text)
  pub heartbeat_interval_seconds : ℤ
  pub lease_wait_seconds : ℤ

pub record WorkspaceConfig : Type 0 where
  pub root : Text
  pub cleanup : Bool
  pub keep_failed : Bool

pub record ToolConfig : Type 0 where
  pub ffmpeg_path : Text
  pub asset_studio_cli_path : Text

pub record ConcurrencyConfig : Type 0 where
  pub download : ℤ
  pub asset_studio : ℤ
  pub post_process : ℤ
  pub acb : ℤ
  pub usm : ℤ
  pub hca : ℤ
  pub hca_global : Bool

pub record DiagnosticsConfig : Type 0 where
  pub runtime_stats_interval_seconds : ℤ
  pub pprof_address : Text
  pub go_memory_limit_mb : ℤ
  pub go_memory_limit_percent : ℤ
  pub free_os_memory_threshold_percent : ℤ
  pub warn_cgroup_memory_percent : ℤ
  -- a `uint64`
  pub warn_heap_mb : ℕ
  pub warn_goroutines : ℤ

pub record LoggingConfig : Type 0 where
  pub level : Text
  pub file : Text

pub record Config : Type 0 where
  pub client : ClientConfig
  pub worker : WorkerConfig
  pub workspace : WorkspaceConfig
  pub tools : ToolConfig
  pub concurrency : ConcurrencyConfig
  pub diagnostics : DiagnosticsConfig
  pub logging : LoggingConfig

-- `if x == "" { x = d }`.
unfoldable pub text_or : Text → Text → Text
text_or x d = if equal x [] then d else x

-- `if x <= 0 { x = d }`.
unfoldable pub positive_or : ℤ → ℤ → ℤ
positive_or x d = if is_nonpos x then d else x

-- `if x == 0 { x = d }`.
unfoldable pub nonzero_or : ℤ → ℤ → ℤ
nonzero_or x d = if eqb_ℤ x (pos 0) then d else x

unfoldable pub normalize_http_base_url : Text → Text
unfolding equal contains trim_space
normalize_http_base_url raw =
    let value = trim_space raw in
    if equal value [] || contains value (text "://") then value else text "http://" ++ value

-- With the host of what `url.Parse` gives, or none where it fails.
unfoldable pub normalize_tcp_address : (Text → Option Text) → Text → Text
unfolding equal contains trim_space
normalize_tcp_address parse_host raw =
    let value = trim_space raw in
    if equal value [] || not (contains value (text "://")) then value else elim (parse_host value) [
      | none ↦ value
      | some host ↦ if equal host [] then value else host
    ]

-- `os.Hostname`, if there is one and it is not empty.
unfoldable pub default_name : Option Text → Text
default_name none = text "moe-asset-client"
default_name (some hostname) = text_or hostname (text "moe-asset-client")

unfoldable pub apply_defaults : (Text → Option Text) → Option Text → Config → Config
unfolding text_or positive_or nonzero_or normalize_http_base_url normalize_tcp_address default_name
apply_defaults parse_host hostname c = record {
  client = record c.client {
    mode = text_or c.client.mode (text "http");
    server_url =
        normalize_http_base_url (text_or c.client.server_url (text "http://127.0.0.1:8080"));
    tcp_address =
        normalize_tcp_address parse_host (text_or c.client.tcp_address (text "127.0.0.1:9090"));
    tcp_reconnect_seconds = positive_or c.client.tcp_reconnect_seconds (pos 5);
    user_agent = text_or c.client.user_agent (text "MoeInternal/AssetClient");
    timeout_seconds = nonzero_or c.client.timeout_seconds (pos 21600);
  };
  worker = record c.worker {
    max_tasks = positive_or c.worker.max_tasks (pos 1);
    heartbeat_interval_seconds = positive_or c.worker.heartbeat_interval_seconds (pos 30);
    lease_wait_seconds = positive_or c.worker.lease_wait_seconds (pos 30);
    name = text_or c.worker.name (default_name hostname);
    version = text_or c.worker.version (text "dev");
  };
  workspace = record c.workspace { root = text_or c.workspace.root (text "./work") };
  tools = record {
    ffmpeg_path = text_or c.tools.ffmpeg_path (text "ffmpeg");
    asset_studio_cli_path = text_or c.tools.asset_studio_cli_path (text "AssetStudioCLI");
  };
  concurrency = record c.concurrency {
    download = positive_or c.concurrency.download (pos 2);
    acb = positive_or c.concurrency.acb (pos 16);
    usm = positive_or c.concurrency.usm (pos 4);
    hca = positive_or c.concurrency.hca (pos 16);
  };
  diagnostics = record c.diagnostics {
    runtime_stats_interval_seconds =
        nonzero_or c.diagnostics.runtime_stats_interval_seconds (pos 60);
    go_memory_limit_percent = nonzero_or c.diagnostics.go_memory_limit_percent (pos 70);
    free_os_memory_threshold_percent =
        nonzero_or c.diagnostics.free_os_memory_threshold_percent (pos 70);
    warn_cgroup_memory_percent = nonzero_or c.diagnostics.warn_cgroup_memory_percent (pos 85);
    warn_heap_mb = if c.diagnostics.warn_heap_mb == 0 then 4096 else c.diagnostics.warn_heap_mb;
    warn_goroutines = nonzero_or c.diagnostics.warn_goroutines (pos 2000);
  };
  logging = record c.logging { level = text_or c.logging.level (text "INFO") };
}

-- `Config{}`.
unfoldable pub zero_config : Config
zero_config = record {
  client = record {
    mode = [];
    server_url = [];
    tcp_address = [];
    tcp_reconnect_seconds = pos 0;
    bearer_token = [];
    user_agent = [];
    timeout_seconds = pos 0;
  };
  worker = record {
    id = [];
    name = [];
    version = [];
    max_tasks = pos 0;
    tags = [];
    heartbeat_interval_seconds = pos 0;
    lease_wait_seconds = pos 0;
  };
  workspace = record { root = []; cleanup = false; keep_failed = false };
  tools = record { ffmpeg_path = []; asset_studio_cli_path = [] };
  concurrency = record {
    download = pos 0;
    asset_studio = pos 0;
    post_process = pos 0;
    acb = pos 0;
    usm = pos 0;
    hca = pos 0;
    hca_global = false;
  };
  diagnostics = record {
    runtime_stats_interval_seconds = pos 0;
    pprof_address = [];
    go_memory_limit_mb = pos 0;
    go_memory_limit_percent = pos 0;
    free_os_memory_threshold_percent = pos 0;
    warn_cgroup_memory_percent = pos 0;
    warn_heap_mb = 0;
    warn_goroutines = pos 0;
  };
  logging = record { level = []; file = [] };
}

-- `Default`.
unfoldable pub default_config : (Text → Option Text) → Option Text → Config
unfolding apply_defaults zero_config
default_config parse_host hostname = apply_defaults parse_host hostname zero_config
