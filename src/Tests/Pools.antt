-- ===== src/Tests/Pools.antt =====
-- The theorems about active rides, beacons and automatic rejections at concrete inputs.
use nebengjek.Prelude.{true, ◌≢◌, ◌∷◌, List, refl, [], ◌≡◌}
use nebengjek.Tests.MatchWorld.{halfway, redis_world}
use nebengjek.Matching.Usecase.Reject.{
  is_rejectable, add_rejection, collect_rejections, handle_auto_rejection_for_accepted_match,
}
use nebengjek.Matching.Repo.ActiveRide.{set_active_ride}
use nebengjek.Domain.Matches.{MatchStatus, Match}
use nebengjek.Matching.Laws.Rejection.{auto_rejection-ne-panicked, batch_of}
use nebengjek.Exec.{returned, panicked}
use nebengjek.Exec.Emits.{Extends}
use nebengjek.Matching.Laws.AutoRejection.{auto_rejection-Extends, IsReadRejection}
use nebengjek.Matching.Env.{ctx_done}
use nebengjek.Matching.History.{rejected_events}

-- Ride 9 of driver 2 and passenger 3 is recorded.
recorded : (set_active_ride redis_world (2 ∷ []) (3 ∷ []) (9 ∷ []) []).0 ≡ returned tt
unfolding set_active_ride
recorded = refl

-- The list of a passenger's matches: an open one, the accepted one, and a closed one.
abbrev closed : Match
closed = record halfway { id = 8; status = MatchStatus.rejected }

abbrev won : Match
won = record halfway { id = 4; status = MatchStatus.accepted; passenger_confirmed = true }

abbrev matches : List Match
matches = halfway ∷ won ∷ closed ∷ []

collected :
    (collect_rejections redis_world won matches []).0
    ≡ returned (batch_of redis_world (halfway ∷ []))
unfolding collect_rejections add_rejection is_rejectable
collected = refl

auto_rejection-ne-panicked_example :
    (handle_auto_rejection_for_accepted_match redis_world won []).0 ≢ panicked
auto_rejection-ne-panicked_example = auto_rejection-ne-panicked redis_world won []

auto_rejection-Extends_example :
    Extends
      (IsReadRejection redis_world won (ctx_done ∷ []))
      (rejected_events [])
      (rejected_events (handle_auto_rejection_for_accepted_match redis_world won []).1)
auto_rejection-Extends_example = auto_rejection-Extends redis_world won []
