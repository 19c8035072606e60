-- ===== src/Model/Conversions.antt =====
-- The two conversions of the configuration.
use rebost.Prelude.{◌≡◌, refl, pos}
use rebost.Config.{Config}
use rebost.Model.{ModelConfig, to_config, config_to_model}

-- The two conversions lose nothing of the form that is sent, and of the configuration itself the
-- downtime of volumes and the size of the cache.
pub conversions_inverse :
    (m : ModelConfig) (c : Config)
    → (config_to_model (to_config m) ≡ m)
      × (to_config (config_to_model c)
          ≡ record c { volume_downtime = pos 0; cache = record { size = pos 0 } })
unfolding to_config config_to_model
conversions_inverse m c = (refl, refl)
