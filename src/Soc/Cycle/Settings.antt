-- ===== src/Soc/Cycle/Settings.antt =====
-- What a cycle reads from the settings before its loop. A window that reaches before the first
-- date, which raises in Python, stops at it.
use wardnode.Base.{ℕ, suc, ◌+◌, ◌-◌, ◌*◌, ◌≡◌, refl, String, false, Option, none, some, [], or_else}
use wardnode.Text.{PyInt, pos, negsuc, int}
use wardnode.Config.{Table, find, get, setting, is_on}
use wardnode.Float.{FloatLibrary}
use wardnode.Float.Samples.{whole}
use wardnode.Soc.Detect.{defaults, resolve_severity_thresholds}
use wardnode.Soc.Cycle.{Cycle}

abbrev int_or : ℕ → Option String → PyInt
int_or default none = pos default
int_or default (some v) = or_else (int v) (pos default)

-- `_config_int`
unfoldable config_int : Table → String → ℕ → PyInt
unfolding setting
config_int config key default = int_or default (setting config key)

-- `now - timedelta(minutes=n)`
abbrev minutes_before : ℕ → PyInt → ℕ
minutes_before now (pos n) = now - n * 60_000_000
minutes_before now (negsuc n) = now + suc n * 60_000_000

-- The settings of the cycle that starts at a time.
unfoldable read_cycle : (lib : FloatLibrary) → Table → ℕ → Cycle lib
unfolding config_int is_on resolve_severity_thresholds
read_cycle lib config now = record {
  now = now;
  window_start = minutes_before now (config_int config "soc_window_minutes" 15);
  sev_thresholds = resolve_severity_thresholds config;
  ml_enabled = is_on config "soc_ml_enabled";
}

no_settings :
    read_cycle whole [] 900_000_001
    ≡ record { now = 900_000_001; window_start = 1; sev_thresholds = defaults; ml_enabled = false }
unfolding read_cycle get find
no_settings = refl
