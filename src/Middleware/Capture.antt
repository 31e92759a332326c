-- ===== src/Middleware/Capture.antt =====
-- The capture of a response for the log, and what is taken from it, in
-- internal/pkg/middleware/unified.go. The wrapped writer is not part of it.
use nebengjek.Prelude.{
  Str, str, str_eq, ◌++◌, List, [], ◌∷◌, ◌-◌, ltb, leb, length, Option, some, none, format_int, ℕ,
  if◌then◌else◌,
}
use nebengjek.Exec.{Result, ok, err}
use nebengjek.Utils.Strings.{take}

-- `responseBodyCapture.Write`: the body after a write.
unfoldable pub write : Str → Str → Str
unfolding take
write body b =
    if ltb (length body) 1024
    then if leb (length b) (1024 - length body)
      then body ++ b
      else body ++ take (1024 - length body) b
    else body

-- A handler writes one piece after another.
unfoldable pub write_all : Str → List Str → Str
unfolding write
write_all body [] = body
write_all body (b ∷ bs) = write_all (write body b) bs

-- A value of a decoded object: a string, or something else.
pub data Value : Type 0 where
  text : Str → Value
  other : Value

unfoldable pub value_of : Str → List (Str × Value) → Option Value
value_of name [] = none
value_of name ((n, v) ∷ fields) = if str_eq n name then some v else value_of name fields

-- The first 500 bytes and an ellipsis, of a text that is longer.
unfoldable pub shortened : Str → Str
unfolding take
shortened s = if ltb 500 (length s) then take 500 s ++ str "..." else s

abbrev pub text_or : Option Value → Str → Str
text_or (some (text s)) rest = s
text_or (some other) rest = rest
text_or none rest = rest

-- `json.Unmarshal` and `json.Marshal` of an object are arguments.
module _ (parse : Str → Result (List (Str × Value))) (print : List (Str × Value) → Str) where
  abbrev pub details_of : Str → Result (List (Str × Value)) → Str
  unfolding shortened value_of
  details_of body (err e) = shortened body
  details_of body (ok fields) =
      text_or (value_of (str "error") fields)
        (text_or (value_of (str "message") fields) (shortened (print fields)))

  unfoldable pub extract_error_from_response : Str → ℕ → Str
  unfolding details_of
  extract_error_from_response [] status =
      if leb 500 status
      then str "Internal server error (HTTP " ++ (format_int status ++ str ")")
      else if leb 400 status
      then str "Client error (HTTP " ++ (format_int status ++ str ")")
      else str ""
  extract_error_from_response (c ∷ body) status = details_of (c ∷ body) (parse (c ∷ body))
