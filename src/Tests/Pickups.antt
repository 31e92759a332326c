-- ===== src/Tests/Pickups.antt =====
-- A pickup on its way at concrete inputs. A text is encoded with its length in front.
use nebengjek.Prelude.{subst, arith, ◌++◌, ℕ, length, Str, str, [], ◌∷◌, ◌≡◌, refl}
use nebengjek.Exec.{Result, ok, returned}
use nebengjek.Nats.Publish
use nebengjek.Domain.Rides.{RideStatus, Ride, RideResp}
use nebengjek.Utils.Msisdn.{drop}
use nebengjek.Utils.Strings.{take}
use nebengjek.Utils.Laws.Masks.{drop-append, take-append}
use nebengjek.Users.Env.{add_client, History, Env}
use nebengjek.Domain.Places.{Uuid}
use nebengjek.Riding.Gateway.{pickup_response, publish_ride_pickup}
use nebengjek.Tests.UserWorld.{user_world}
use nebengjek.Users.Deliveries.{handle_ride_pickup_event_js}
use nebengjek.Users.Laws.Notices.{deliveries, sent}
use nebengjek.Users.Socket.Clients.{clients_after}
use nebengjek.Users.Laws.Pickups.{pickup_told}

abbrev put_text : Str → Str → Str
put_text s rest = length s ∷ (s ++ rest)

abbrev text_in : Str → Str
unfolding take
text_in [] = []
text_in (n ∷ s) = take n s

abbrev after : Str → Str
unfolding drop
after [] = []
after (n ∷ s) = drop n s

abbrev number_in : Str → ℕ
number_in [] = 0
number_in (n ∷ s) = n

abbrev tail : Str → Str
tail [] = []
tail (n ∷ s) = s

abbrev written : RideResp → Str
written r = put_text r.ride_id (
    put_text r.match_id (
      put_text r.driver_id (
        put_text r.passenger_id
          (put_text r.status (r.total_cost ∷ r.created_at ∷ r.updated_at ∷ [])))))

abbrev encode : RideResp → Result Str
encode r = ok (written r)

abbrev decode : Str → Result RideResp
unfolding text_in after
decode s =
    let s1 = after s in
    let s2 = after s1 in
    let s3 = after s2 in
    let s4 = after s3 in
    let s5 = after s4 in
    ok (record {
      ride_id = text_in s;
      match_id = text_in s1;
      driver_id = text_in s2;
      passenger_id = text_in s3;
      status = text_in s4;
      total_cost = number_in s5;
      created_at = number_in (tail s5);
      updated_at = number_in (tail (tail s5));
    })

text_in-put_text : (s rest : Str) → text_in (put_text s rest) ≡ s
unfolding text_in
text_in-put_text s rest = take-append s rest (length s) refl

after-put_text : (s rest : Str) → after (put_text s rest) ≡ rest
unfolding after
after-put_text s rest = drop-append s rest (length s) refl

decode-written : (r : RideResp) → decode (written r) ≡ ok r
unfolding decode
decode-written r = simp (text_in-put_text, after-put_text) refl

decode-encode : (r : RideResp) (s : Str) → encode r ≡ ok s → decode s ≡ ok r
decode-encode r s e =
    let same : written r ≡ s = ground arith in subst (λ x. decode x ≡ ok r) same (decode-written r)

abbrev world : Env
world = record user_world { json = record (user_world.json) { decode_ride_resp = decode } }

abbrev publishing : Publish.Env
publishing = record { unix_nano = λ t. str "17"; publish_reply = λ o t. ok tt }

abbrev one_digit : Uuid → Str
one_digit u = u ∷ []

abbrev ride : Ride
ride = record {
  ride_id = 1;
  match_id = 4;
  driver_id = 2;
  passenger_id = 3;
  status = RideStatus.driver_pickup;
  total_cost = 0;
  created_at = 0;
  updated_at = 0;
}

published : (publish_ride_pickup publishing one_digit encode ride []).0 ≡ returned tt
unfolding publish_ride_pickup
published = refl

-- Only the passenger is connected.
abbrev connected : History
connected = add_client (3 ∷ []) 7 ∷ []

pickup_told_example :
    (opts : Publish.PublishOptions) × ((publish_ride_pickup publishing one_digit encode ride []).1
      ≡ Publish.publish_msg opts ∷ Publish.now ∷ [])
    × (opts.subject ≡ str "ride.pickup")
    × ((handle_ride_pickup_event_js world opts.payload connected).0 ≡ returned tt)
    × (sent (handle_ride_pickup_event_js world opts.payload connected).1
        ≡ deliveries
            (clients_after connected)
            ((2 ∷ []) ∷ (3 ∷ []) ∷ [])
            (str "ride_pickup")
            (world.json.encode_ride_resp (pickup_response publishing one_digit ride))
          ++ sent connected)
pickup_told_example =
    pickup_told publishing one_digit encode ride [] world connected published decode-encode
