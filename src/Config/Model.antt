-- ===== src/Config/Model.antt =====
-- internal/pkg/models/config.go: what the services are configured with.
use nebengjek.Prelude.{Str, Bool}
use nebengjek.Domain.Places.{Float64, Int64}
use nebengjek.Users.Env.{JwtConfig}
use nebengjek.Matching.Env.{MatchConfig}
use nebengjek.Http.Routes.{ApiKeyConfig}

pub record ServicesConfig : Type 0 where
  pub match_service_url : Str
  pub rides_service_url : Str
  pub location_service_url : Str

pub record AppConfig : Type 0 where
  pub name : Str
  pub environment : Str
  pub debug : Bool
  pub version : Str

pub record ServerConfig : Type 0 where
  pub host : Str
  pub port : Int64
  pub grpc_port : Int64
  pub read_timeout : Int64
  pub write_timeout : Int64
  pub shutdown_timeout : Int64

pub record DatabaseConfig : Type 0 where
  pub driver : Str
  pub host : Str
  pub port : Int64
  pub username : Str
  pub password : Str
  pub database : Str
  pub ssl_mode : Str
  pub max_conns : Int64
  pub idle_conns : Int64

pub record RedisConfig : Type 0 where
  pub host : Str
  pub port : Int64
  pub password : Str
  pub db : Int64
  pub pool_size : Int64

pub record NatsConfig : Type 0 where
  pub url : Str

pub record PricingConfig : Type 0 where
  pub rate_per_km : Float64
  pub admin_fee_percent : Float64

pub record PaymentConfig : Type 0 where
  pub qr_code_base_url : Str
  pub gateway_url : Str
  pub timeout : Int64

pub record LocationConfig : Type 0 where
  pub availability_ttl_minutes : Int64

pub record RidesConfig : Type 0 where
  pub min_distance_km : Float64

pub record NewRelicConfig : Type 0 where
  pub license_key : Str
  pub app_name : Str
  pub enabled : Bool
  pub logs_enabled : Bool
  pub logs_endpoint : Str
  pub logs_api_key : Str
  pub forward_logs : Bool

pub record LoggerConfig : Type 0 where
  pub level : Str
  pub file_path : Str
  pub max_size : Int64
  pub max_age : Int64
  pub max_backups : Int64
  pub compress : Bool
  pub type : Str

pub record Config : Type 0 where
  pub app : AppConfig
  pub server : ServerConfig
  pub database : DatabaseConfig
  pub redis : RedisConfig
  pub nats : NatsConfig
  pub jwt : JwtConfig
  pub api_key : ApiKeyConfig
  pub pricing : PricingConfig
  pub payment : PaymentConfig
  pub services : ServicesConfig
  pub match : MatchConfig
  pub location : LocationConfig
  pub rides : RidesConfig
  pub new_relic : NewRelicConfig
  pub logger : LoggerConfig
