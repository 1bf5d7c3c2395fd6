-- ===== src/Config.antt =====
-- firmware/components/core/mc_config.c. The JSON codec (mc_config_json.c, over the vendored cJSON) and
-- the storage behind its HAL are parameters.
use moto_ctrl.Base.{ℕ, Option, none, some, List, []}
use moto_ctrl.Output.Types.{Config}
use moto_ctrl.Output.Settings
use moto_ctrl.Input.Types.{InputConfig}
use moto_ctrl.Input.Queue
use moto_ctrl.Diag.Types.{DiagConfig}
use moto_ctrl.Diag.Settings as DiagSettings

-- `mc_config_t`; a name is the C string that its array holds.
pub record DeviceConfig : Type 0 where
  pub schema_version : ℕ
  pub device_name : List ℕ
  pub outputs : Config
  pub inputs : InputConfig
  pub diagnostics : DiagConfig

-- `mc_config_result_t`
pub data ConfigResult : Type 0 where
  config_ok buffer_too_small corrupt future_version store_read store_write : ConfigResult
  not_found bad_json : ConfigResult

-- What `mc_config_from_json` and `mc_config_load` report, with what they fill in.
pub data Loaded : Type 0 where
  loaded : DeviceConfig → Loaded
  refused : ConfigResult → Loaded

-- `mc_config_to_json`, which is NULL where memory runs out, and `mc_config_from_json`
pub record Json : Type 0 where
  pub print : DeviceConfig → Option (List ℕ)
  pub parse : List ℕ → Loaded

-- MC_CONFIG_SCHEMA_VERSION and MC_CONFIG_JSON_MAX
abbrev pub schema_version : ℕ
schema_version = 9

abbrev pub json_max : ℕ
json_max = 6144

-- `mc_config_default`
unfoldable pub config_default : DeviceConfig
config_default = record {
  schema_version = schema_version;
  device_name = [];
  outputs = Settings.config_default;
  inputs = Queue.config_default;
  diagnostics = DiagSettings.config_default;
}

-- What `mc_config_load` makes of the answer of `hal.load` and the bytes in the buffer.
unfoldable pub after_read : Json → List ℕ → ConfigResult → Loaded
unfolding config_default
after_read json bytes config_ok = json.parse bytes
after_read json bytes not_found = loaded config_default
after_read json bytes res = refused res

-- `mc_config_load`; `none` is a `malloc` that failed, and `hal.load` is then not called.
unfoldable pub load : Json → Option (ConfigResult × List ℕ) → Loaded
unfolding after_read
load json none = refused store_read
load json (some (res, bytes)) = after_read json bytes res

-- `mc_config_save`: what it returns, and the bytes that went to `hal.save`, which answers with
-- `answer`.
unfoldable pub save : Json → (List ℕ → ConfigResult) → DeviceConfig → ConfigResult × Option (List ℕ)
save json answer cfg = elim (json.print cfg) [
  | none ↦ (buffer_too_small, none)
  | some bytes ↦ (answer bytes, some bytes)
]
