-- ===== src/Tests/RideWorld.antt =====
-- A small concrete world for the rides service: the table holds one ride, its ledger sums to 100,
-- and the numbers of the float64 stand for whole numbers.
use nebengjek.Riding.Laws.Starting.{Compares}
use nebengjek.Prelude.{ltb, inl, leb, ◌%◌, ◌*◌, arith, str, ◌-◌, ◌+◌, ◌^◌, ◌<◌, [], ◌∷◌, Str}
use nebengjek.Exec.{Error, Ok, external, err, Result, ok}
use nebengjek.Domain.Rides.{PaymentStatus, BillingLedger, RideStatus, Payment, Ride}
use nebengjek.Domain.Places.{zero_location, Uuid, Float64}
use nebengjek.Domain.Floats.{FloatOps}
use nebengjek.Riding.Env.{publish_ride_pickup, insert_ride, add_total_cost, History, Call, Env}
use nebengjek.Domain.Matches.{MatchStatus, MatchProposal}

abbrev pub ops : FloatOps
ops = record {
  lt = λ a b. ltb a b;
  le = λ a b. leb a b;
  add = λ a b. a + b;
  sub = λ a b. a - b;
  mul = λ a b. a * b;
  div = λ a b. a;
  sin = λ a. a;
  cos = λ a. a;
  sqrt = λ a. a;
  atan2 = λ a b. a;
  round = λ a. a;
  of_int = λ n. n;
  to_int = λ x. x % 2 ^ 64;
  format_two = λ x. x ∷ [];
}

pub ops-Compares : Compares ops
ops-Compares x h = inl (ground arith)

pub to_int_bounded : (x : Float64) → ops.to_int x < 2 ^ 64
to_int_bounded x = omega arith

abbrev one_id : Str → Result Uuid
one_id (u ∷ []) = ok u
one_id _ = err (external (str "invalid UUID"))

abbrev pub trip : RideStatus → Ride
trip s = record {
  ride_id = 1;
  match_id = 4;
  driver_id = 2;
  passenger_id = 3;
  status = s;
  total_cost = 100;
  created_at = 7;
  updated_at = 7;
}

abbrev pub bill : Payment
bill = record {
  payment_id = 6;
  ride_id = 1;
  adjusted_cost = 100;
  admin_fee = 5;
  driver_payout = 95;
  status = PaymentStatus.pending;
  created_at = 8;
}

abbrev pub ride_world : RideStatus → Env
ride_world s = record {
  clock = λ h. 9;
  fresh_uuid = λ h. 5;
  parse_uuid = one_id;
  uuid_string = λ u. u ∷ [];
  reply = λ c h. ok tt;
  count_reply = λ c h. ok 1;
  int_reply = λ c h. ok 100;
  ride_reply = λ c h. ok (trip s);
  payment_reply = λ c h. ok bill;
  floats = ops;
  cfg = record {
    admin_fee_percent = 0;
    rate_per_km = 3000;
    min_distance_km = 1;
    qr_code_base_url = [];
  };
}

-- The first addition to the total fails, and the later ones succeed.
abbrev flaky_reply : Call → History → Ok
flaky_reply (add_total_cost n id) (a ∷ b ∷ c ∷ d ∷ t) = ok tt
flaky_reply (add_total_cost n id) t = err (external (str "timeout"))
flaky_reply c t = ok tt

abbrev pub flaky_world : Env
flaky_world = record (ride_world RideStatus.ongoing) { reply = flaky_reply }

abbrev pub entry : BillingLedger
entry = record { entry_id = 8; ride_id = 0; distance = 2; cost = 50; created_at = 0 }

-- A table of payments that shows the payment as settled once more than one call has been made.
abbrev later_payment : History → Result Payment
later_payment (a ∷ b ∷ t) = ok (record bill { status = PaymentStatus.accepted })
later_payment t = ok bill

abbrev pub paying_world : Env
paying_world = record (ride_world RideStatus.ongoing) { payment_reply = λ c h. later_payment h }

abbrev pub proposal : MatchProposal
proposal = record {
  id = 4 ∷ [];
  passenger_id = 3 ∷ [];
  driver_id = 2 ∷ [];
  user_location = zero_location;
  driver_location = zero_location;
  target_location = zero_location;
  match_status = MatchStatus.accepted;
}

abbrev pub duplicate_error : Error
duplicate_error = external (str "rides_match_id_unique")

-- The first insert of a ride succeeds and its publication fails; a later insert is a duplicate.
abbrev once_reply : Call → History → Ok
once_reply (insert_ride r) (a ∷ b ∷ c ∷ t) = err duplicate_error
once_reply (insert_ride r) t = ok tt
once_reply (publish_ride_pickup r) t = err (external (str "nats: timeout"))
once_reply c t = ok tt

abbrev pub message_world : Env
message_world = record (ride_world RideStatus.driver_pickup) { reply = once_reply }
