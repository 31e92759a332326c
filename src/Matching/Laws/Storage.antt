-- ===== src/Matching/Laws/Storage.antt =====
-- What a match loses on its way to the table and back: ToDTO and ToMatch of
-- internal/pkg/models/match.go.
use nebengjek.Prelude.{refl, ◌≡◌}
use nebengjek.Domain.Matches.{Match, MatchDto, to_dto, to_match}

-- A row read and written again is the same row.
pub to_dto-to_match : (d : MatchDto) → to_dto (to_match d) ≡ d
unfolding to_dto to_match
to_dto-to_match d = refl

-- A match written and read again is the match, but for the times of its three locations, which
-- become the time of its creation.
pub to_match-to_dto :
    (m : Match)
    → to_match (to_dto m) ≡ record m {
      driver_location = record (m.driver_location) { timestamp = m.created_at };
      passenger_location = record (m.passenger_location) { timestamp = m.created_at };
      target_location = record (m.target_location) { timestamp = m.created_at };
    }
unfolding to_dto to_match
to_match-to_dto m = refl
