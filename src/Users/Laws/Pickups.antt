-- ===== src/Users/Laws/Pickups.antt =====
-- A pickup from its publication to the sockets: PublishRidePickup of services/rides/gateway/nats.go and
-- handleRidePickupEvent of services/users/handler/nats/ride.go.
use nebengjek.Prelude.{none, refl, inl, arith, inr, ◌++◌, ◌∷◌, ◌≡◌, [], Str, str}
use nebengjek.Exec.{Result, ok, returned}
use nebengjek.Nats.Publish
use nebengjek.Riding.Gateway.{publish_ride_pickup, pickup_response}
use nebengjek.Users.Laws.Notices.{handle_event_told, deliveries, sent, notice_of, Notice}
use nebengjek.Domain.Rides.{Ride, RideResp}
use nebengjek.Users.Deliveries.{
  handle_ride_pickup_event_js, of_ride, ride_pickup_users, handle_event, ride_consumer,
}
use nebengjek.Users.Env.{History, Env}
use nebengjek.Domain.Places.{Uuid}
use nebengjek.Users.Socket.Clients.{clients_after}
use nebengjek.Exec.Laws.{Result-cases}

-- What the users service decodes is what the rides service has encoded.
abbrev pub Decodes : (RideResp → Result Str) → Env → Type 0
Decodes encode world =
    (r : RideResp) (s : Str) → encode r ≡ ok s → world.json.decode_ride_resp s ≡ ok r

-- A pickup that was published is one message under the subject of pickups. The users service
-- acknowledges it, tells exactly the driver and the passenger of the ride over the sockets that they
-- have registered, and tells them the pickup of that very ride, if it decodes what was encoded.
pub pickup_told :
    (env : Publish.Env) (uuid_string : Uuid → Str) (encode : RideResp → Result Str) (ride : Ride)
    (p : Publish.History) (world : Env) (t : History)
    → (publish_ride_pickup env uuid_string encode ride p).0 ≡ returned tt
    → Decodes encode world
    → (opts : Publish.PublishOptions) × ((publish_ride_pickup env uuid_string encode ride p).1
        ≡ Publish.publish_msg opts ∷ Publish.now ∷ p)
      × (opts.subject ≡ str "ride.pickup")
      × ((handle_ride_pickup_event_js world opts.payload t).0 ≡ returned tt)
      × (sent (handle_ride_pickup_event_js world opts.payload t).1
          ≡ deliveries
              (clients_after t)
              (uuid_string ride.driver_id ∷ uuid_string ride.passenger_id ∷ [])
              (str "ride_pickup")
              (world.json.encode_ride_resp (pickup_response env uuid_string ride))
            ++ sent t)
unfolding publish_ride_pickup Publish.publish_event Publish.publish_with_options notice_of
    handle_event ride_consumer handle_ride_pickup_event_js pickup_response
pickup_told env uuid_string encode ride p world t h decodes =
    elim (Result-cases (encode (pickup_response env uuid_string ride))) [
      | inr (e, q) ↦ absurd (ground arith)
      | inl (s, q) ↦
          let r = pickup_response env uuid_string ride in
          let n : Notice = record {
            users = r.driver_id ∷ r.passenger_id ∷ [];
            event = str "ride_pickup";
            raw = world.json.encode_ride_resp r;
          } in
          let (done, told) =
            handle_event_told world (of_ride ride_pickup_users) none s t n (rw (decodes r s q) refl)
              refl in
          (
            record {
              subject = str "ride.pickup";
              payload = s;
              msg_id =
                  str "ride-pickup"
                  ++ (b'-' ∷ (uuid_string ride.ride_id ++ (b'-' ∷ env.unix_nano p)));
              timeout = Publish.seconds 15;
            },
            rw q refl,
            refl,
            done,
            told,
          )
    ]
