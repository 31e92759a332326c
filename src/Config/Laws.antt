-- ===== src/Config/Laws.antt =====
-- What the services make of the configuration that internal/pkg/config/config.go reads.
use nebengjek.Prelude.{Str, ◌≡◌, refl, some}
use nebengjek.Config.Load.{Os, init_config, load_config_from_env}
use nebengjek.Matching.Repo.ActiveRide.{ttl}
use nebengjek.Locating.Repo.{availability_ttl}

-- Whatever the variables and the file are, an active ride is kept for 24 hours and an available
-- user for 30 minutes.
pub lifetimes_fixed :
    (dotenv : Str → Os → Os) (path : Str) (os : Os)
    → (ttl (some (init_config dotenv path os).match) ≡ 86400000000000)
      × (availability_ttl (some (init_config dotenv path os).location.availability_ttl_minutes)
          ≡ 1800000000000)
unfolding ttl availability_ttl init_config load_config_from_env
lifetimes_fixed dotenv path os = (refl, refl)
