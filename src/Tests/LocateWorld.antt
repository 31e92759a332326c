-- ===== src/Tests/LocateWorld.antt =====
-- A concrete world for the location service: a Redis that answers what was written last, and
-- numbers that are formatted as texts of one number.
use nebengjek.Prelude.{str, false, arith, none, ◌≡◌, List, Bool, ℕ, refl, [], ◌∷◌, Str}
use nebengjek.Tests.RideWorld.{ops}
use nebengjek.Locating.Env.{hash_get, set_is_member, Env, Call, History}
use nebengjek.Exec.{external, err, Ok, Result, ok}
use nebengjek.Locating.Laws.Tracking.{stored_fields, AnswersAt}
use nebengjek.Locating.Laws.Nearby.{stored_member, AnswersMember}

abbrev one_number : Str → Result ℕ
one_number (x ∷ []) = ok x
one_number _ = err (external (str "invalid syntax"))

abbrev number_value : Str → ℕ
number_value (x ∷ []) = x
number_value _ = 0

abbrev always : Call → History → Ok
always c t = ok tt

abbrev member_answer : Call → History → Result Bool
member_answer (set_is_member k m) t = ok (stored_member always k m t)
member_answer c t = ok false

abbrev fields_answer : Call → History → Result (List Str)
fields_answer (hash_get k) t = ok (stored_fields always k t)
fields_answer c t = ok []

abbrev pub redis : Env
redis = record {
  clock = λ h. 9;
  reply = always;
  geo_reply = λ c h. ok (
      record { name = 2 ∷ []; longitude = 0; latitude = 0; dist = 1 }
      ∷ record { name = 5 ∷ []; longitude = 0; latitude = 0; dist = 2 }
      ∷ []);
  member_reply = member_answer;
  fields_reply = fields_answer;
  map_reply = λ c h. ok [];
  format_float = λ x. x ∷ [];
  parse_float = one_number;
  format_int = λ n. n ∷ [];
  parse_int = one_number;
  float_value = number_value;
  int_value = number_value;
  client_float = λ x. x ∷ [];
  unix = λ t. t;
  of_unix = λ n. n;
  floats = ops;
  availability_ttl_minutes = none;
}

some_injective : (a b : Bool) → ok a ≡ ok b → b ≡ a
some_injective a b e = ground arith

pub redis-AnswersMember : AnswersMember redis
redis-AnswersMember k m t b r = some_injective (stored_member always k m t) b r

pub redis-AnswersAt : (ride_id : Str) (t : History) → AnswersAt redis ride_id t
redis-AnswersAt ride_id t = refl
