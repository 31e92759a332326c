-- ===== src/Http/Parse.antt =====
-- internal/utils/http.go: ParseJSONResponse. A decoded value and what encoding/json makes of it are
-- parameters.
use nebengjek.Prelude.{Str, str, ◌++◌, Bool, true, false, Option, some, none, if◌then◌else◌}
use nebengjek.Exec.{error_text, message, wrap, Result, ok, err}

-- `Response`, where `none` is a nil `Data`.
pub record Response (J : Type 0) : Type 0 where
  pub success : Bool
  pub error : Str
  pub payload : Option J

-- `encoding/json`; of a map its fields, of which `none` is not there and `some none` is nil. The
-- other two are the type assertions `.(bool)` and `.(string)`.
pub record Encoding (J T : Type 0) : Type 0 where
  pub response : Str → Result (Response J)
  pub marshal : J → Result Str
  pub unmarshal : Str → Result T
  pub map_of : J → Option (Str → Option (Option J))
  pub as_bool : J → Option Bool
  pub as_string : J → Option Str

module _ {J T : Type 0} (json : Encoding J T) where
  -- `_, hasSuccess := dataMap["success"]`
  abbrev is_present : Option (Option J) → Bool
  is_present none = false
  is_present (some v) = true

  -- `nestedSuccess, _ := dataMap["success"].(bool)`
  abbrev bool_of : Option (Option J) → Bool
  bool_of none = false
  bool_of (some none) = false
  bool_of (some (some v)) = elim (json.as_bool v) [ none ↦ false | some b ↦ b ]

  -- `nestedError, hasError := dataMap["error"].(string)`
  abbrev string_of : Option (Option J) → Option Str
  string_of none = none
  string_of (some none) = none
  string_of (some (some v)) = json.as_string v

  abbrev unmarshal_or : Str → Result T → Result (Option T)
  unmarshal_or s (ok target) = ok (some target)
  unmarshal_or s (err e) = err (wrap s e)

  -- The value goes through its text into the target.
  abbrev into_target : Str → Str → J → Result (Option T)
  into_target encoding decoding v = elim (json.marshal v) [
    | err e ↦ err (wrap encoding e)
    | ok text ↦ unmarshal_or decoding (json.unmarshal text)
  ]

  abbrev pub standard : J → Result (Option T)
  standard =
      into_target (str "failed to re-marshal response data")
        (str "failed to unmarshal response data into target")

  -- `if nestedData, hasData := dataMap["data"]; hasData && nestedData != nil`
  abbrev data_of : J → Option (Option J) → Result (Option T)
  data_of v none = standard v
  data_of v (some none) = standard v
  data_of v (some (some inner)) =
      into_target (str "failed to re-marshal nested response data")
        (str "failed to unmarshal nested response data into target") inner

  -- `if hasError && !nestedSuccess`
  abbrev unless_refused : Bool → Option Str → Result (Option T) → Result (Option T)
  unless_refused true e r = r
  unless_refused false none r = r
  unless_refused false (some e) r = err (message (str "API error in nested response: " ++ e))

  abbrev nested : J → Option (Str → Option (Option J)) → Result (Option T)
  nested v none = standard v
  nested v (some fields) =
      if is_present (fields (str "success"))
      then unless_refused (bool_of (fields (str "success"))) (string_of (fields (str "error")))
          (data_of v (fields (str "data")))
      else standard v

  abbrev of_data : Option J → Result (Option T)
  of_data none = ok none
  of_data (some v) = nested v (json.map_of v)

  -- The target is `none` if nothing is written to it. The first error wraps `e` and adds the body;
  -- it is given by its text.
  unfoldable pub parse_json_response : Str → Result (Option T)
  parse_json_response body = elim (json.response body) [
    | err e ↦ err (
        message
          (str "failed to decode API response: " ++ (error_text e ++ (str ", body: " ++ body))))
    | ok response ↦
        if response.success
        then of_data response.payload
        else err (message (str "API error: " ++ response.error))
  ]
