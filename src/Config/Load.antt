-- ===== src/Config/Load.antt =====
-- internal/pkg/config/config.go: the configuration from the variables of the process.
use nebengjek.Prelude.{
  Str, str, str_eq, Bool, true, false, [], Option, none, some, if◌then◌else◌, ◌||◌,
}
use nebengjek.Domain.Places.{Float64, Int64}
use nebengjek.Users.Env.{JwtConfig}
use nebengjek.Matching.Env.{MatchConfig}
use nebengjek.Http.Routes.{ApiKeyConfig}
use nebengjek.Config.Model.{
  Config, AppConfig, ServerConfig, DatabaseConfig, RedisConfig, NatsConfig, PricingConfig,
  PaymentConfig, ServicesConfig, LocationConfig, RidesConfig, NewRelicConfig, LoggerConfig,
}

-- `os.Getenv`, which gives the empty text for a variable that is not set, and the parsers of
-- strconv for the base ten in 64 bits and for floats.
pub record Os : Type 0 where
  pub getenv : Str → Str
  pub parse_int : Str → Option Int64
  pub parse_float : Str → Option Float64

-- `1.0`, `3000.0` and `5.0`
abbrev one_point : Float64
one_point = 4607182418800017408

abbrev three_thousand : Float64
three_thousand = 4658815484840378368

abbrev five : Float64
five = 4617315517961601024

-- `strconv.ParseBool`
unfoldable pub parse_bool : Str → Option Bool
parse_bool s =
    if str_eq s (str "1")
      || (str_eq s (str "t")
          || (str_eq s (str "T")
              || (str_eq s (str "TRUE") || (str_eq s (str "true") || str_eq s (str "True")))))
    then some true
    else if str_eq s (str "0")
        || (str_eq s (str "f")
            || (str_eq s (str "F")
                || (str_eq s (str "FALSE") || (str_eq s (str "false") || str_eq s (str "False")))))
    then some false
    else none

abbrev pub or_default {ℓ} : {A : Type ℓ} → A → Option A → A
or_default d none = d
or_default d (some a) = a

module _ (os : Os) where
  unfoldable pub get_env : Str → Str → Str
  get_env key d = if str_eq (os.getenv key) [] then d else os.getenv key

  -- A variable that is not set, is empty or cannot be parsed gives the default.
  unfoldable pub get_env_as {ℓ} : {A : Type ℓ} → (Str → Option A) → Str → A → A
  unfolding get_env
  get_env_as parse key d =
      let value = get_env key [] in if str_eq value [] then d else or_default d (parse value)

  abbrev pub get_env_as_int : Str → Int64 → Int64
  get_env_as_int = get_env_as os.parse_int

  abbrev pub get_env_as_int64 : Str → Int64 → Int64
  get_env_as_int64 = get_env_as os.parse_int

  abbrev pub get_env_as_bool : Str → Bool → Bool
  get_env_as_bool = get_env_as parse_bool

  abbrev pub get_env_as_float : Str → Float64 → Float64
  get_env_as_float = get_env_as os.parse_float

  abbrev pub app_config : AppConfig
  app_config = record {
    name = get_env (str "APP_NAME") [];
    environment = get_env (str "APP_ENV") [];
    debug = get_env_as_bool (str "APP_DEBUG") true;
    version = get_env (str "APP_VERSION") [];
  }

  abbrev pub server_config : ServerConfig
  server_config = record {
    host = get_env (str "SERVER_HOST") [];
    port = get_env_as_int (str "SERVER_PORT") 0;
    grpc_port = get_env_as_int (str "SERVER_GRPC_PORT") 0;
    read_timeout = get_env_as_int (str "SERVER_READ_TIMEOUT") 0;
    write_timeout = get_env_as_int (str "SERVER_WRITE_TIMEOUT") 0;
    shutdown_timeout = get_env_as_int (str "SERVER_SHUTDOWN_TIMEOUT") 0;
  }

  abbrev pub database_config : DatabaseConfig
  database_config = record {
    driver = get_env (str "DB_DRIVER") [];
    host = get_env (str "DB_HOST") [];
    port = get_env_as_int (str "DB_PORT") 0;
    username = get_env (str "DB_USERNAME") [];
    password = get_env (str "DB_PASSWORD") [];
    database = get_env (str "DB_DATABASE") [];
    ssl_mode = get_env (str "DB_SSL_MODE") [];
    max_conns = get_env_as_int (str "DB_MAX_CONNS") 0;
    idle_conns = get_env_as_int (str "DB_IDLE_CONNS") 0;
  }

  abbrev pub redis_config : RedisConfig
  redis_config = record {
    host = get_env (str "REDIS_HOST") [];
    port = get_env_as_int (str "REDIS_PORT") 0;
    password = get_env (str "REDIS_PASSWORD") [];
    db = get_env_as_int (str "REDIS_DB") 0;
    pool_size = get_env_as_int (str "REDIS_POOL_SIZE") 0;
  }

  abbrev pub nats_config : NatsConfig
  nats_config = record { url = get_env (str "NATS_URL") [] }

  abbrev pub jwt_config : JwtConfig
  jwt_config = record {
    secret = get_env (str "JWT_SECRET") [];
    expiration = get_env_as_int (str "JWT_EXPIRATION") 0;
    issuer = get_env (str "JWT_ISSUER") [];
  }

  abbrev pub api_key_config : ApiKeyConfig
  api_key_config = record {
    user_service = get_env (str "API_KEY_USER_SERVICE") [];
    match_service = get_env (str "API_KEY_MATCH_SERVICE") [];
    rides_service = get_env (str "API_KEY_RIDES_SERVICE") [];
    location_service = get_env (str "API_KEY_LOCATION_SERVICE") [];
  }

  abbrev pub pricing_config : PricingConfig
  pricing_config = record {
    rate_per_km = get_env_as_float (str "PRICING_RATE_PER_KM") three_thousand;
    admin_fee_percent = get_env_as_float (str "BILLING_ADMIN_FEE_PERCENT") five;
  }

  abbrev pub payment_config : PaymentConfig
  payment_config = record {
    qr_code_base_url =
        get_env (str "PAYMENT_QR_CODE_BASE_URL") (str "https://payment.nebengjek.com/qr");
    gateway_url = get_env (str "PAYMENT_GATEWAY_URL") (str "https://payment.nebengjek.com/api");
    timeout = get_env_as_int (str "PAYMENT_TIMEOUT") 30;
  }

  abbrev pub services_config : ServicesConfig
  services_config = record {
    match_service_url = get_env (str "MATCH_SERVICE_URL") (str "http://localhost:9993");
    rides_service_url = get_env (str "RIDES_SERVICE_URL") (str "http://localhost:9992");
    location_service_url = get_env (str "LOCATION_SERVICE_URL") (str "http://localhost:9994");
  }

  abbrev pub match_config : MatchConfig
  match_config = record {
    search_radius_km = get_env_as_float (str "MATCH_SEARCH_RADIUS_KM") one_point;
    active_ride_ttl_hours = 0;
  }

  abbrev pub location_config : LocationConfig
  location_config = record { availability_ttl_minutes = 0 }

  abbrev pub rides_config : RidesConfig
  rides_config = record {
    min_distance_km = get_env_as_float (str "RIDES_MIN_DISTANCE_KM") one_point;
  }

  abbrev pub new_relic_config : NewRelicConfig
  new_relic_config = record {
    license_key = get_env (str "NEW_RELIC_LICENSE_KEY") [];
    app_name = get_env (str "NEW_RELIC_APP_NAME") [];
    enabled = get_env_as_bool (str "NEW_RELIC_ENABLED") false;
    logs_enabled = get_env_as_bool (str "NEW_RELIC_LOGS_ENABLED") false;
    logs_endpoint = get_env (str "NEW_RELIC_LOGS_ENDPOINT") [];
    logs_api_key = get_env (str "NEW_RELIC_LOGS_API_KEY") [];
    forward_logs = get_env_as_bool (str "NEW_RELIC_FORWARD_LOGS") false;
  }

  abbrev pub logger_config : LoggerConfig
  logger_config = record {
    level = get_env (str "LOG_LEVEL") (str "info");
    file_path = get_env (str "LOG_FILE_PATH") (str "logs/nebengjek.log");
    max_size = get_env_as_int64 (str "LOG_MAX_SIZE") 100;
    max_age = get_env_as_int (str "LOG_MAX_AGE") 7;
    max_backups = get_env_as_int (str "LOG_MAX_BACKUPS") 3;
    compress = get_env_as_bool (str "LOG_COMPRESS") true;
    type = get_env (str "LOG_TYPE") (str "file");
  }

  -- `loadConfigFromEnv`
  unfoldable pub load_config_from_env : Config
  load_config_from_env = record {
    app = app_config;
    server = server_config;
    database = database_config;
    redis = redis_config;
    nats = nats_config;
    jwt = jwt_config;
    api_key = api_key_config;
    pricing = pricing_config;
    payment = payment_config;
    services = services_config;
    match = match_config;
    location = location_config;
    rides = rides_config;
    new_relic = new_relic_config;
    logger = logger_config;
  }

-- `InitConfig`: `godotenv.Load` gives other variables to the process, if it can read the file.
unfoldable pub init_config : (Str → Os → Os) → Str → Os → Config
unfolding load_config_from_env get_env
init_config dotenv path os =
    let local = str_eq (get_env os (str "APP_ENV") (str "local")) (str "local") in
    load_config_from_env (if local then dotenv path os else os)
