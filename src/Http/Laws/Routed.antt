-- ===== src/Http/Laws/Routed.antt =====
-- The requests of the gateways reach the handlers that they are meant for: the gateways of
-- services/match/gateway/http.go and services/users/gateway/http against the routes of the services
-- that they call, with the keys of one configuration.
use nebengjek.Utils.Msisdn.{every}
use nebengjek.Prelude.{
  ℕ, Bool, not, ◌&&◌, ◌==◌, true, false, ◌∙◌, ap, str_eq_refl, refl, if◌then◌else◌, ◌⊎◌, ◌∷◌, some,
  none, ◌≢◌, ◌++◌, ◌≡◌, Option, List, [], Str, str, str_eq,
}
use nebengjek.Http.Client.{request_id_header, api_key_header, request_of, Request, Env, Call}
use nebengjek.Middleware.Keys
use nebengjek.Http.Routes.{api_key_handler, Route, api_keys, ApiKeyConfig}
use nebengjek.Middleware.Keys.{next}
use nebengjek.Http.Laws.Sent.{sent, Sends, IsRequest}
use nebengjek.Exec.{Exec}
use nebengjek.Exec.Emits.{Emits-map, Emits}

unfoldable pub route_named : Str → List Route → Option Route
route_named name [] = none
route_named name (r ∷ rs) = if str_eq r.handler name then some r else route_named name rs

-- `Header.Get`
unfoldable pub header_of : Str → List (Str × Str) → Str
header_of name [] = []
header_of name ((n, v) ∷ headers) = if str_eq n name then v else header_of name headers

-- Not a byte that ends a segment of a path, or that is read in another way in a URL.
abbrev pub is_plain : ℕ → Bool
is_plain c = not (c == b'/') && (not (c == b'?') && (not (c == b'#') && not (c == b'%')))

-- A segment of a path as it stands in a URL: not empty, and of plain bytes.
abbrev pub is_segment : Str → Bool
is_segment [] = false
is_segment (c ∷ s) = is_plain c && every is_plain s

-- The end of a path: nothing, or another segment.
abbrev pub is_end : Str → Bool
is_end [] = true
is_end (c ∷ s) = c == b'/'

-- An endpoint fits a path with one segment that is a name, where it has another segment, or it is the
-- path with a query.
abbrev pub Fits : Str → Str → Type 0
Fits path endpoint =
    ((before : Str) × (name : Str) × (after : Str) × (id : Str) × (path
        ≡ before ++ (b':' ∷ (name ++ after)))
      × (endpoint ≡ before ++ (id ++ after))
      × (is_segment name ≡ true)
      × (is_end after ≡ true)
      × (is_segment id ≡ true))
    ⊎ ((query : Str) × (endpoint ≡ path ++ (b'?' ∷ query)))

-- The request goes to a path that fits the route of the handler, with its method and with a key
-- that the check before the handler lets pass.
pub record RoutedTo (base_url : Str) (config : ApiKeyConfig) (routes : List Route) (name : Str)
    (r : Request) : Type 0 where
  pub route : Route
  pub found : route_named name routes ≡ some route
  pub endpoint : Str
  pub url : r.url ≡ base_url ++ endpoint
  pub fits : Fits route.path endpoint
  pub method : r.method ≡ route.method
  pub service : Str
  pub guard : route.guard ≡ api_key_handler (service ∷ [])
  pub passes :
      Keys.api_key_handler (api_keys config) (service ∷ []) (header_of (str "X-API-Key") r.headers)
      ≡ next service

-- The key that is configured for a service passes the check for that service.
key_passes :
    (keys : List (Str × Str)) (service key : Str)
    → Keys.key_of_service service keys ≡ some key
    → key ≢ []
    → Keys.api_key_handler keys (service ∷ []) key ≡ next service
unfolding Keys.api_key_handler Keys.matching_service str_eq
key_passes keys service [] e ne = absurd (ne refl)
key_passes keys service (c ∷ key) e ne = rw (e, str_eq_refl (c ∷ key)) refl

key_in_header :
    (key : Str) (rest : List (Str × Str))
    → key ≢ []
    → header_of (str "X-API-Key") (api_key_header key ++ rest) ≡ key
unfolding header_of str_eq str
key_in_header [] rest ne = absurd (ne refl)
key_in_header (c ∷ key) rest ne = refl

module _ (env : Env) (config : ApiKeyConfig) where
  key_sent :
      (method endpoint : Str) (body : Option Str)
      → env.api_key ≢ []
      → header_of (str "X-API-Key") (request_of env method endpoint body).headers ≡ env.api_key
  unfolding header_of str_eq str
  key_sent method endpoint body ne = key_in_header env.api_key (request_id_header env.request_id) ne

  -- What the requests of a computation are sent to.
  abbrev pub Reaches {ℓ} : {A : Type ℓ} → List Route → Str → Exec Call A → Type ℓ
  Reaches routes name m = Emits (RoutedTo env.base_url config routes name) sent m

  module _ (service : Str) (own : Keys.key_of_service service (api_keys config) ≡ some env.api_key)
      (ne : env.api_key ≢ []) where
    request-RoutedTo :
        (routes : List Route) (x : Route) (endpoint : Str)
        → route_named x.handler routes ≡ some x
        → x.guard ≡ api_key_handler (service ∷ [])
        → Fits x.path endpoint
        → (r : Request) → IsRequest env x.method endpoint r
        → RoutedTo env.base_url config routes x.handler r
    request-RoutedTo routes x endpoint found guard fits r (body, same) = record {
      route = x;
      found = found;
      endpoint = endpoint;
      url = ap (λ y. y.url) same;
      fits = fits;
      method = ap (λ y. y.method) same;
      service = service;
      guard = guard;
      passes =
          ap (λ y. Keys.api_key_handler (api_keys config) (service ∷ []) y)
            (ap (λ y. header_of (str "X-API-Key") y.headers) same
              ∙ key_sent x.method endpoint body ne)
          ∙ key_passes (api_keys config) service env.api_key own ne;
    }

    pub reaches {ℓ} :
        {A : Type ℓ} (routes : List Route) (x : Route) (endpoint : Str) (m : Exec Call A)
        → route_named x.handler routes ≡ some x
        → x.guard ≡ api_key_handler (service ∷ [])
        → Fits x.path endpoint
        → Sends env x.method endpoint m
        → Reaches routes x.handler m
    reaches routes x endpoint m found guard fits sends =
        Emits-map (request-RoutedTo routes x endpoint found guard fits) sent m sends
