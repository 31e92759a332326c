-- ===== src/Riding/Laws/Starting.antt =====
-- The beginning of a ride: CreateRide and StartRide in services/rides/usecase/ride.go.
use nebengjek.Riding.Repo
use nebengjek.Prelude.{false, Bool-cases, refl, true, inl, inr, ◌⊎◌, ◌∷◌, arith, ◌≡◌}
use nebengjek.Exec.{err, Error, ok, returned}
use nebengjek.Riding.Usecase.{is_duplicate, create_ride}
use nebengjek.Riding.Env.{new_uuid, now, publish_ride_pickup, insert_ride, History, Env}
use nebengjek.Riding.History.{pickups}
use nebengjek.Domain.Matches.{MatchProposal}
use nebengjek.Domain.Rides.{RideStatus, Ride}
use nebengjek.Exec.Laws.{Result-cases}
use nebengjek.Domain.Places.{Uuid, Float64}
use nebengjek.Domain.Floats.{hundred_f, FloatOps}

-- The ride that CreateRide inserts for the ids of a proposal.
abbrev pub IsNewRide : Env → MatchProposal → Ride → Type 0
IsNewRide env mp r =
    (env.parse_uuid mp.id ≡ ok r.match_id)
    × (env.parse_uuid mp.driver_id ≡ ok r.driver_id)
    × (env.parse_uuid mp.passenger_id ≡ ok r.passenger_id)
    × (r.status ≡ RideStatus.driver_pickup)
    × (r.total_cost ≡ 0)

-- The calls before the insert, and the row that is inserted.
abbrev before_insert : History → History
before_insert t = now ∷ new_uuid ∷ t

abbrev pub new_row : Env → Uuid → Uuid → Uuid → History → Ride
new_row env m d p t = record {
  ride_id = env.fresh_uuid t;
  match_id = m;
  driver_id = d;
  passenger_id = p;
  status = RideStatus.driver_pickup;
  total_cost = 0;
  created_at = env.clock (new_uuid ∷ t);
  updated_at = env.clock (new_uuid ∷ t);
}

-- CreateRide that succeeds has inserted a new ride of the proposal, waiting for its pickup. Either
-- the insert was acknowledged, and the pickup of that very ride was published once, or it failed
-- as a duplicate, and nothing was published.
pub created_returned :
    (env : Env) (mp : MatchProposal) (t : History)
    → (create_ride env mp t).0 ≡ returned tt
    → let t' = (create_ride env mp t).1 in
      (r : Ride) × (h : History) × IsNewRide env mp r
      × ((env.reply (insert_ride r) h ≡ ok tt)
            × (t' ≡ publish_ride_pickup r ∷ insert_ride r ∷ h)
            × (pickups t' ≡ r ∷ pickups t)
          ⊎ (e : Error) × (env.reply (insert_ride r) h ≡ err e)
            × (is_duplicate e ≡ true)
            × (t' ≡ insert_ride r ∷ h)
            × (pickups t' ≡ pickups t))
unfolding create_ride Repo.create_ride pickups
created_returned env mp t h = elim (Result-cases (env.parse_uuid mp.id)) [
  | inr (x, a) ↦ absurd (ground arith)
  | inl (m, a) ↦ elim (Result-cases (env.parse_uuid mp.driver_id)) [
    | inr (x, b) ↦ absurd (ground arith)
    | inl (d, b) ↦ elim (Result-cases (env.parse_uuid mp.passenger_id)) [
      | inr (x, c) ↦ absurd (ground arith)
      | inl (p, c) ↦
          let r = new_row env m d p t in
          elim (Result-cases (env.reply (insert_ride r) (before_insert t))) [
            | inl (u, q) ↦
                (r, before_insert t, (a, b, c, refl, refl), inl (q, ground arith, ground arith))
            | inr (e, q) ↦ elim (Bool-cases (is_duplicate e)) [
              | inl y ↦ (
                r,
                before_insert t,
                (a, b, c, refl, refl),
                inr (e, q, y, ground arith, ground arith),
              )
              | inr n ↦ absurd (ground arith)
            ]
          ]
    ]
  ]
]

-- What IEEE 754 says of 100 and any other number: if it is not less, the other is at most 100 or it
-- is not a number.
abbrev pub Compares : FloatOps → Type 0
Compares floats =
    (x : Float64)
    → floats.lt hundred_f x ≡ false
    → (floats.le x hundred_f ≡ true) ⊎ (floats.le x x ≡ false)
