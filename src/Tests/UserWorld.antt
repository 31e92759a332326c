-- ===== src/Tests/UserWorld.antt =====
-- A concrete world for the users service: a Redis that answers with the last value of a key, a
-- table with one driver and one passenger, and a JSON of one-time passwords that is their code.
use nebengjek.Prelude.{
  str_eq_iff, inl, inr, ap, ◌+◌, Bool-cases, ◌&&◌, Str, str, str_eq, str_eq_refl, [], ◌∷◌, ◌≡◌,
  refl, none, true, false, arith, if◌then◌else◌,
}
use nebengjek.Exec.{Result, ok, err, redis_nil, no_rows, message}
use nebengjek.Domain.Users.{User, Otp}
use nebengjek.Users.Env.{
  Env, Call, History, Json, redis_set, redis_get, redis_delete, select_user_by_field,
}
use nebengjek.Tests.RideWorld.{ops}
use nebengjek.Users.Laws.Otps.{ReadsBack, AnswersGet}

-- The last value of a key.
unfoldable pub value_in : Str → History → Result Str
value_in k [] = err redis_nil
value_in k (redis_set k' v ttl ∷ t) = if str_eq k' k then ok v else value_in k t
value_in k (redis_delete k' ∷ t) = if str_eq k' k then err redis_nil else value_in k t
value_in k (c ∷ t) = value_in k t

abbrev pub written_number : Str
written_number = str "+62 811-123456"

abbrev pub number : Str
number = str "62811123456"

abbrev pub code : Str
code = str "3456"

abbrev pub otp : Otp
otp = record { id = 5 ∷ []; msisdn = number; code = code }

-- The codec knows one password; any other fails to encode.
abbrev encode : Otp → Result Str
encode o =
    if str_eq o.id (5 ∷ []) && (str_eq o.msisdn number && str_eq o.code code)
    then ok (1 ∷ [])
    else err (message (str "unsupported"))

abbrev pub passenger : User
passenger = record {
  id = 4;
  msisdn = number;
  full_name = str "Siti";
  role = str "passenger";
  created_at = 1;
  updated_at = 1;
  is_active = true;
  driver_info = none;
  rating = 0;
}

abbrev failing : {A : Type 0} → Str → Result A
failing s = err (message (str "unsupported"))

-- The requests that the sockets send are all of one kind each.
abbrev pub json : Json
json = record {
  encode_otp = encode;
  decode_otp = λ s. ok otp;
  decode_beacon = failing;
  decode_finder = failing;
  decode_confirm = λ s. ok (record { id = 1 ∷ []; user_id = 9 ∷ []; role = []; status = s });
  decode_location = λ s. ok (record {
    ride_id = 1 ∷ [];
    driver_id = 9 ∷ [];
    location = record { latitude = 6; longitude = 106; timestamp = 7 };
    created_at = 7;
  });
  decode_start = failing;
  decode_arrival = failing;
  decode_payment = failing;
  encode_proposal = λ p. ok (2 ∷ []);
  encode_ride = λ r. ok (3 ∷ []);
  encode_payment_request = λ p. ok (4 ∷ []);
  encode_payment = λ p. ok (5 ∷ []);
  decode_proposal = failing;
  decode_ride_resp = λ s. ok (record {
    ride_id = s;
    match_id = 1 ∷ [];
    driver_id = 2 ∷ [];
    passenger_id = 3 ∷ [];
    status = str "PICKUP";
    total_cost = 0;
    created_at = 7;
    updated_at = 7;
  });
  encode_ride_resp = λ r. ok r.ride_id;
  decode_ride_complete = failing;
  encode_ride_complete = λ r. ok (6 ∷ []);
}

abbrev user_answer : Call → History → Result User
user_answer (select_user_by_field field value) t = ok (record passenger { role = str "driver" })
user_answer c t = ok passenger

abbrev text_answer : Call → History → Result Str
text_answer (redis_get k) t = value_in k t
text_answer c t = ok []

abbrev pub user_world : Env
user_world = record {
  clock = λ h. 9;
  fresh_uuid = λ h. 5;
  uuid_string = λ u. u ∷ [];
  time_add = λ t d. t + d;
  unix = λ t. t;
  reply = λ c h. ok tt;
  user_reply = user_answer;
  driver_reply = λ c h. err no_rows;
  text_reply = text_answer;
  proposal_reply = λ c h. err (message (str "unavailable"));
  payment_request_reply = λ c h. err (message (str "unavailable"));
  payment_reply = λ c h. err (message (str "unavailable"));
  ride_reply = λ c h. err (message (str "unavailable"));
  floats = ops;
  json = json;
  jwt = record { secret = str "key"; expiration = 60; issuer = str "nebengjek" };
  sign = λ secret c. ok (c.user_id ∷ []);
  parse_token = λ s secret. ok (record { claims = none; valid = false });
}

pub user_world-AnswersGet : AnswersGet user_world
unfolding value_in
user_world-AnswersGet = record {
  written = λ k v ttl t r. ground (arith, str_eq_refl k);
  deleted = λ k t r. ground (arith, str_eq_refl k);
}

same_otp :
    (a b c : Str)
    → a ≡ 5 ∷ []
    → b ≡ number
    → c ≡ code
    → otp ≡ record { id = a; msisdn = b; code = c }
same_otp a b c p q r = rw (p, q, r) refl

encoded_otp :
    (a b c s : Str)
    → encode (record { id = a; msisdn = b; code = c }) ≡ ok s
    → otp ≡ record { id = a; msisdn = b; code = c }
encoded_otp a b c s e = elim (Bool-cases (str_eq a (5 ∷ []))) [
  | inr n ↦ absurd (ground arith)
  | inl x ↦ elim (Bool-cases (str_eq b number)) [
    | inr n ↦ absurd (ground arith)
    | inl y ↦ elim (Bool-cases (str_eq c code)) [
      | inr n ↦ absurd (ground arith)
      | inl z ↦ same_otp a b c ((str_eq_iff a _).0 x) ((str_eq_iff b _).0 y) ((str_eq_iff c _).0 z)
    ]
  ]
]

pub user_world-ReadsBack : ReadsBack user_world
user_world-ReadsBack o s e = ap (λ x. ok x) (encoded_otp o.id o.msisdn o.code s e)
