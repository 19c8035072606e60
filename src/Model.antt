-- ===== src/Model.antt =====
-- storing/model/: the configuration as it is sent, and the two conversions.
pub mod Conversions
use rebost.Prelude.{String, Bool, List, ℤ, pos}
use rebost.Config.{Config, Memberlist, Dashboard, Cache}

pub record ConfigMemberlist : Type 0 where
  pub port : ℤ

pub record ConfigDashboard : Type 0 where
  pub port : ℤ
  pub enabled : Bool

pub record ModelConfig : Type 0 where
  pub port : ℤ
  pub volumes : List String
  pub remote : String
  pub replica : ℤ
  pub name : String
  pub memberlist : ConfigMemberlist
  pub dashboard : ConfigDashboard

-- The downtime and the cache keep their zero values.
unfoldable pub to_config : ModelConfig → Config
to_config c = record {
  port = c.port;
  volumes = c.volumes;
  remote = c.remote;
  replica = c.replica;
  volume_downtime = pos 0;
  name = c.name;
  cache = record { size = pos 0 };
  memberlist = record { port = c.memberlist.port };
  dashboard = record { port = c.dashboard.port; enabled = c.dashboard.enabled };
}

unfoldable pub config_to_model : Config → ModelConfig
config_to_model c = record {
  port = c.port;
  volumes = c.volumes;
  remote = c.remote;
  replica = c.replica;
  name = c.name;
  memberlist = record { port = c.memberlist.port };
  dashboard = record { port = c.dashboard.port; enabled = c.dashboard.enabled };
}
