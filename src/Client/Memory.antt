-- ===== src/Client/Memory.antt =====
-- The memory limit of the client, from internal/client/worker.go: `configureMemoryLimit`,
-- `releaseMemoryAfterTask`, `cgroupMemory`, `readUintFile`, `readUintOrMaxFile`, `formatLimit` and
-- `formatBytes`. The files of the control group are an argument, by their paths. The run-time calls
-- that a test leads to, and the rounding of a float for the log, are not modelled.
pub mod Scaled
use moe_asset_updater_client.Base.{
  ℕ, zero, suc, ◌+◌, ◌-◌, ◌*◌, ◌/◌, ◌%◌, ◌^◌, ◌<◌, ◌≤◌, ◌≡◌, Bool, true, false, not, ◌&&◌, ◌||◌,
  Option, none, some, List, [], ◌∷◌, ltb, leb, ◌==◌, if◌then◌else◌, Bytes, codes, equal,
}
use moe_asset_updater_client.Base.Int.{ℤ, pos, negsuc, is_nonpos}
use moe_asset_updater_client.Base.Outcome.{Outcome, ok, err, panic}
use moe_asset_updater_client.Config.{DiagnosticsConfig}
use moe_asset_updater_client.Config.Trim.{trim_space}

abbrev uint64 : ℕ
uint64 = 2 ^ 64

-- `strconv.ParseUint(s, 10, 64)`, with the value so far.
unfoldable pub digits : ℕ → Bytes → Option ℕ
digits value [] = some value
digits value (c ∷ cs) =
    let rest = digits (value * 10 + (c - b'0')) cs in
    if leb b'0' c && leb c b'9' && ltb (value * 10 + (c - b'0')) uint64 then rest else none

unfoldable pub parse_uint : Bytes → Option ℕ
unfolding digits
parse_uint [] = none
parse_uint (c ∷ cs) = digits 0 (c ∷ cs)

-- `cgroupMemory` gives the usage and the limit, or that there are none.
pub record Usage : Type 0 where
  pub current : ℕ
  pub limit : ℕ

unfoldable pub read_uint_file : Option Bytes → Option ℕ
unfolding parse_uint trim_space
read_uint_file none = none
read_uint_file (some content) = parse_uint (trim_space content)

unfoldable pub read_uint_or_max_file : Option Bytes → Option ℕ
unfolding parse_uint trim_space equal
read_uint_or_max_file none = none
read_uint_or_max_file (some content) =
    if equal (trim_space content) (codes "max") then some 0 else parse_uint (trim_space content)

abbrev or_zero : Option ℕ → ℕ
or_zero none = 0
or_zero (some n) = n

abbrev modern_usage : Bytes
modern_usage = codes "/sys/fs/cgroup/memory.current"

abbrev modern_limit : Bytes
modern_limit = codes "/sys/fs/cgroup/memory.max"

abbrev old_usage : Bytes
old_usage = codes "/sys/fs/cgroup/memory/memory.usage_in_bytes"

abbrev old_limit : Bytes
old_limit = codes "/sys/fs/cgroup/memory/memory.limit_in_bytes"

unfoldable pub cgroup_memory : (Bytes → Option Bytes) → Option Usage
unfolding read_uint_file read_uint_or_max_file
cgroup_memory files = elim (read_uint_file (files modern_usage)) [
  | some current ↦
      some
        (record { current = current; limit = or_zero (read_uint_or_max_file (files modern_limit)) })
  | none ↦ elim (read_uint_file (files old_usage)) [
    | some current ↦
        some (record { current = current; limit = or_zero (read_uint_file (files old_limit)) })
    | none ↦ none
  ]
]

abbrev is_neg : ℤ → Bool
is_neg (pos n) = false
is_neg (negsuc n) = true

-- `uint64(n)`.
abbrev as_uint64 : ℤ → ℕ
as_uint64 (pos n) = n % uint64
as_uint64 (negsuc n) = uint64 - 1 - n % uint64

abbrev percent_of : Option Usage → ℤ → ℕ
percent_of none percent = 0
percent_of (some usage) percent =
    if ltb 0 usage.limit && not (is_nonpos percent)
    then usage.limit * as_uint64 percent % uint64 / 100
    else 0

abbrev chosen_limit : DiagnosticsConfig → Option Usage → ℕ
chosen_limit diagnostics usage =
    if not (is_nonpos diagnostics.go_memory_limit_mb)
    then as_uint64 diagnostics.go_memory_limit_mb * 1024 % uint64 * 1024 % uint64
    else percent_of usage diagnostics.go_memory_limit_percent

-- The limit that is set, if one is; `in_environment` where GOMEMLIMIT is set.
unfoldable pub configure_memory_limit : Bool → DiagnosticsConfig → Option Usage → Option ℕ
configure_memory_limit in_environment diagnostics usage =
    let memory_limit = chosen_limit diagnostics usage in
    if in_environment
      || is_neg diagnostics.go_memory_limit_mb
      || is_neg diagnostics.go_memory_limit_percent
    then none
    else if (memory_limit == 0) || ltb (2 ^ 63 - 1) memory_limit
    then none
    else some memory_limit

-- Whether the memory is released after a task; the limit is not zero where it divides.
unfoldable pub releases_memory : ℤ → Option Usage → Bool
releases_memory threshold none = false
releases_memory threshold (some usage) =
    not (is_nonpos threshold)
    && not (
        (usage.limit == 0)
        || ltb (usage.current * 100 % uint64 / usage.limit) (as_uint64 threshold))

-- A number of bytes as it is logged: plain, or divided by `div` with the unit of this index.
pub data Formatted : Type 0 where
  unlimited : Formatted
  plain : ℕ → Formatted
  scaled : ℕ → ℕ → Formatted

-- The `for`, with the rounds left; where they do not reach, or the unit has no letter, it panics.
unfoldable pub scale : ℕ → ℕ → ℕ → ℕ → Outcome (Unit {0}) Formatted
scale zero n div exp = panic
scale (suc left) n div exp =
    let rest = scale left (n / 1024) (div * 1024 % uint64) (exp + 1) in
    if leb 1024 n then rest else if ltb exp 6 then ok (scaled div exp) else panic

unfoldable pub format_bytes : ℕ → Outcome (Unit {0}) Formatted
unfolding scale
format_bytes v = if ltb v 1024 then ok (plain v) else scale 64 (v / 1024) 1024 0

unfoldable pub format_limit : ℕ → Outcome (Unit {0}) Formatted
unfolding format_bytes
format_limit v = if (v == 0) || leb (2 ^ 62) v then ok unlimited else format_bytes v
