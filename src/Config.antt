-- ===== src/Config.antt =====
-- config/config.go: the configuration of a node and its check. viper is a parameter.
use rebost.Prelude.{String, Bool, List, ℤ, pos, ltb_ℤ, if◌then◌else◌, ◌==◌}
use rebost.Exec.{Result, ok, err, panic}

pub record Memberlist : Type 0 where
  pub port : ℤ

pub record Dashboard : Type 0 where
  pub port : ℤ
  pub enabled : Bool

pub record Cache : Type 0 where
  pub size : ℤ

pub record Config : Type 0 where
  pub port : ℤ
  pub volumes : List String
  pub remote : String
  pub replica : ℤ
  pub volume_downtime : ℤ
  pub name : String
  pub cache : Cache
  pub memberlist : Memberlist
  pub dashboard : Dashboard

-- Durations are nanoseconds; the tick of a volume is 30 seconds.
abbrev pub ticker_duration : ℤ
ticker_duration = pos 30000000000

abbrev pub default_port : ℤ
default_port = pos 3805

abbrev pub default_replica : ℤ
default_replica = pos 3

abbrev pub default_cache_size : ℤ
default_cache_size = pos 200

abbrev pub default_volume_downtime : ℤ
default_volume_downtime = pos 120000000000

pub data Value : Type 0 where
  number : ℤ → Value
  word : String → Value

-- viper.Viper: a value for each name, given by a flag, the environment, a file or as a default.
pub record Viper : Type 1 where
  pub State : Type 0
  pub set_default : State → String → Value → State
  pub get_string : State → String → String
  pub read_in_config : State → String → Result State
  pub unmarshal : State → Result Config

module _ (viper : Viper) where
  unfoldable pub with_defaults : ℤ → String → viper.State → viper.State
  with_defaults free_port name v =
      let v1 = viper.set_default v "memberlist.port" (number free_port) in
      let v2 = viper.set_default v1 "port" (number default_port) in
      let v3 = viper.set_default v2 "replica" (number default_replica) in
      let v4 = viper.set_default v3 "volume-downtime" (number default_volume_downtime) in
      let v5 = viper.set_default v4 "cache.size" (number default_cache_size) in
      viper.set_default v5 "name" (word name)

  -- The file is read where one is named.
  unfoldable pub with_file : viper.State → Result viper.State
  with_file v =
      if viper.get_string v "config" == ""
      then ok v
      else viper.read_in_config v (viper.get_string v "config")

  abbrev pub checked : Result Config → Result Config
  checked (ok cfg) =
      if ltb_ℤ cfg.volume_downtime ticker_duration
      then err "the volume-downtime cannot be lower than 30s"
      else ok cfg
  checked (err e) = err e
  checked panic = panic

  abbrev pub unmarshalled : Result viper.State → Result Config
  unmarshalled (ok v) = checked (viper.unmarshal v)
  unmarshalled (err e) = err e
  unmarshalled panic = panic

  -- `free_port` is what `util.FreePort` returns, and `name` the random name.
  unfoldable pub new_config : Result ℤ → String → viper.State → Result Config
  unfolding with_defaults with_file
  new_config (ok free_port) name v = unmarshalled (with_file (with_defaults free_port name v))
  new_config (err e) name v = err e
  new_config panic name v = panic
