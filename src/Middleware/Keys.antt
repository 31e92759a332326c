-- ===== src/Middleware/Keys.antt =====
-- APIKeyHandler of internal/pkg/middleware/unified.go.
use nebengjek.Prelude.{Str, str, str_eq, List, [], ◌∷◌, Option, some, none, if◌then◌else◌}

-- `m.config.APIKeys[service]`
unfoldable pub key_of_service : Str → List (Str × Str) → Option Str
key_of_service service [] = none
key_of_service service ((s, key) ∷ keys) =
    if str_eq s service then some key else key_of_service service keys

abbrev pub service_or : Option Str → Str → Str → Option Str → Option Str
service_or none service api_key rest = rest
service_or (some key) service api_key rest = if str_eq key api_key then some service else rest

-- The first of the allowed services whose key is the given one.
unfoldable pub matching_service : List (Str × Str) → Str → List Str → Option Str
unfolding key_of_service
matching_service keys api_key [] = none
matching_service keys api_key (service ∷ services) =
    service_or (key_of_service service keys) service api_key
      (matching_service keys api_key services)

-- The handler is called with the service, or the request is refused with a message under 401.
pub data Verdict : Type 0 where
  next : Str → Verdict
  unauthorized : Str → Verdict

abbrev pub verdict : Option Str → Verdict
verdict none = unauthorized (str "Invalid API key")
verdict (some service) = next service

-- The key is that of the header X-API-Key, empty if there is none.
unfoldable pub api_key_handler : List (Str × Str) → List Str → Str → Verdict
unfolding matching_service
api_key_handler keys allowed_services api_key =
    if str_eq api_key []
    then unauthorized (str "API key required")
    else verdict (matching_service keys api_key allowed_services)
