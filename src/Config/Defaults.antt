-- ===== src/Config/Defaults.antt =====
-- What the defaults give.
use moe_asset_updater_client.Base.{
  ◌≡◌, refl, ◌⊎◌, inl, inr, true, false, Option, none, some, [], ◌++◌, arith, equal, equal_iff,
  contains, Bool-cases, has_prefix,
}
use moe_asset_updater_client.Base.Int.{ℤ, pos, is_nonpos, eqb_ℤ}
use moe_asset_updater_client.Config.Trim.{Text, text, trim_space}
use moe_asset_updater_client.Config.{
  Config, text_or, positive_or, nonzero_or, normalize_http_base_url, default_name, apply_defaults,
}

abbrev pub IsPositive : ℤ → Type 0
IsPositive x = is_nonpos x ≡ false

abbrev pub IsNonzero : ℤ → Type 0
IsNonzero x = eqb_ℤ x (pos 0) ≡ false

abbrev pub IsNonempty : Text → Type 0
IsNonempty x = equal x [] ≡ false

-- What the defaults guarantee.
pub record IsUsable (c : Config) : Type 0 where
  pub mode : IsNonempty c.client.mode
  pub server_url : (c.client.server_url ≡ []) ⊎ (contains c.client.server_url (text "://") ≡ true)
  pub user_agent : IsNonempty c.client.user_agent
  pub reconnect : IsPositive c.client.tcp_reconnect_seconds
  pub timeout : IsNonzero c.client.timeout_seconds
  pub max_tasks : IsPositive c.worker.max_tasks
  pub heartbeat : IsPositive c.worker.heartbeat_interval_seconds
  pub lease_wait : IsPositive c.worker.lease_wait_seconds
  pub name : IsNonempty c.worker.name
  pub version : IsNonempty c.worker.version
  pub root : IsNonempty c.workspace.root
  pub ffmpeg_path : IsNonempty c.tools.ffmpeg_path
  pub studio_path : IsNonempty c.tools.asset_studio_cli_path
  pub download : IsPositive c.concurrency.download
  pub acb : IsPositive c.concurrency.acb
  pub usm : IsPositive c.concurrency.usm
  pub hca : IsPositive c.concurrency.hca
  pub stats_interval : IsNonzero c.diagnostics.runtime_stats_interval_seconds
  pub limit_percent : IsNonzero c.diagnostics.go_memory_limit_percent
  pub free_percent : IsNonzero c.diagnostics.free_os_memory_threshold_percent
  pub warn_percent : IsNonzero c.diagnostics.warn_cgroup_memory_percent
  pub warn_goroutines : IsNonzero c.diagnostics.warn_goroutines
  pub level : IsNonempty c.logging.level

text_or-IsNonempty : (x d : Text) → IsNonempty d → IsNonempty (text_or x d)
unfolding text_or
text_or-IsNonempty x d h = ground arith

positive_or-IsPositive : (x d : ℤ) → IsPositive d → IsPositive (positive_or x d)
unfolding positive_or
positive_or-IsPositive x d h = ground arith

nonzero_or-IsNonzero : (x d : ℤ) → IsNonzero d → IsNonzero (nonzero_or x d)
unfolding nonzero_or
nonzero_or-IsNonzero x d h = ground arith

default_name-IsNonempty : (hostname : Option Text) → IsNonempty (default_name hostname)
unfolding default_name equal
default_name-IsNonempty none = refl
default_name-IsNonempty (some hostname) = text_or-IsNonempty hostname (text "moe-asset-client") refl

with_scheme : (value : Text) → contains (text "http://" ++ value) (text "://") ≡ true
unfolding contains has_prefix
with_scheme value = refl

normalize_http_base_url-contains :
    (raw : Text)
    → (normalize_http_base_url raw ≡ [])
      ⊎ (contains (normalize_http_base_url raw) (text "://") ≡ true)
unfolding normalize_http_base_url
normalize_http_base_url-contains raw =
    let value = trim_space raw in
    elim (Bool-cases (equal value [])) [
      | inl e ↦ inl (rw e ((equal_iff value []).0 e))
      | inr e ↦ elim (Bool-cases (contains value (text "://"))) [
        | inl k ↦ inr (rw (e, k) k)
        | inr k ↦ inr (rw (e, k) (with_scheme value))
      ]
    ]

-- Whatever the file says, and whatever the URL parser and the host's name give, after the defaults: the
-- mode, the user agent, the worker's name and version, the workspace's root, the paths of ffmpeg and of
-- the asset studio and the log level are not empty; the waits between TCP connections, heartbeats and
-- leases and the numbers of tasks, downloads, sound banks, videos and HCA conversions are positive; the
-- timeout, the interval of the statistics, the three percentages and the number of goroutines to warn
-- at are not zero, though each of these may be negative; and the server's URL is empty or contains
-- "://". Nothing is said of the counts for the asset studio and for the post-processing, which may stay
-- zero.
pub apply_defaults-IsUsable :
    (parse_host : Text → Option Text) (hostname : Option Text) (c : Config)
    → IsUsable (apply_defaults parse_host hostname c)
unfolding apply_defaults equal
apply_defaults-IsUsable parse_host hostname c = record {
  mode = text_or-IsNonempty c.client.mode (text "http") refl;
  server_url =
      normalize_http_base_url-contains (text_or c.client.server_url (text "http://127.0.0.1:8080"));
  user_agent = text_or-IsNonempty c.client.user_agent (text "MoeInternal/AssetClient") refl;
  reconnect = positive_or-IsPositive c.client.tcp_reconnect_seconds (pos 5) refl;
  timeout = nonzero_or-IsNonzero c.client.timeout_seconds (pos 21600) refl;
  max_tasks = positive_or-IsPositive c.worker.max_tasks (pos 1) refl;
  heartbeat = positive_or-IsPositive c.worker.heartbeat_interval_seconds (pos 30) refl;
  lease_wait = positive_or-IsPositive c.worker.lease_wait_seconds (pos 30) refl;
  name =
      text_or-IsNonempty c.worker.name (default_name hostname) (default_name-IsNonempty hostname);
  version = text_or-IsNonempty c.worker.version (text "dev") refl;
  root = text_or-IsNonempty c.workspace.root (text "./work") refl;
  ffmpeg_path = text_or-IsNonempty c.tools.ffmpeg_path (text "ffmpeg") refl;
  studio_path = text_or-IsNonempty c.tools.asset_studio_cli_path (text "AssetStudioCLI") refl;
  download = positive_or-IsPositive c.concurrency.download (pos 2) refl;
  acb = positive_or-IsPositive c.concurrency.acb (pos 16) refl;
  usm = positive_or-IsPositive c.concurrency.usm (pos 4) refl;
  hca = positive_or-IsPositive c.concurrency.hca (pos 16) refl;
  stats_interval = nonzero_or-IsNonzero c.diagnostics.runtime_stats_interval_seconds (pos 60) refl;
  limit_percent = nonzero_or-IsNonzero c.diagnostics.go_memory_limit_percent (pos 70) refl;
  free_percent = nonzero_or-IsNonzero c.diagnostics.free_os_memory_threshold_percent (pos 70) refl;
  warn_percent = nonzero_or-IsNonzero c.diagnostics.warn_cgroup_memory_percent (pos 85) refl;
  warn_goroutines = nonzero_or-IsNonzero c.diagnostics.warn_goroutines (pos 2000) refl;
  level = text_or-IsNonempty c.logging.level (text "INFO") refl;
}
