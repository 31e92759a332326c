-- ===== src/Tests/Proposals.antt =====
-- The theorems about proposals at concrete inputs.
use nebengjek.Matching.Repo.Create
use nebengjek.Prelude.{◌∷◌, refl, [], ◌≡◌}
use nebengjek.Tests.MatchWorld.{fresh_match, empty_world}
use nebengjek.Matching.Env.{History, Call, Env}
use nebengjek.Domain.Matches.{to_dto, MatchDto, Match}
use nebengjek.Exec.{ok, returned, no_rows, err, Result}
use nebengjek.Matching.Laws.Proposals.{look_up}

abbrev created : Match
created = record fresh_match { id = 5; created_at = 7; updated_at = 9 }

-- A table that shows the created row once something has been called.
abbrev shown_row : Call → History → Result MatchDto
shown_row c [] = err no_rows
shown_row c (x ∷ t) = ok (to_dto created)

abbrev table_world : Env
table_world = record empty_world { row_reply = shown_row }

creates_there : (Create.create_match table_world fresh_match []).0 ≡ returned created
unfolding Create.create_match Create.set_up
creates_there = refl

shown_there :
    table_world.row_reply (look_up fresh_match) (Create.create_match table_world fresh_match []).1
    ≡ ok (to_dto created)
unfolding Create.create_match Create.set_up
shown_there = refl
