-- ===== src/Tests/Matches.antt =====
-- The theorems about the match service at concrete inputs.
use nebengjek.Prelude.{◌+◌, arith, ◌≢◌, str_eq, false, ◌∷◌, true, refl, [], ◌≡◌}
use nebengjek.Domain.Matches.{MatchProposal, MatchStatus, to_match, to_dto, Match, MatchDto}
use nebengjek.Matching.Repo.Confirm.{
  store_confirmation, update_match_confirmation_flags, validate_user_for_match, confirm_tx,
  confirm_match_by_user,
}
use nebengjek.Tests.MatchWorld.{confirm_request, world, halfway}
use nebengjek.Exec.{ok, returned}
use nebengjek.Matching.Env.{begin_tx, select_match_for_update, History}
use nebengjek.Matching.Laws.Lifecycle.{confirm-Edge, Edge, IsConsistent}
use nebengjek.Matching.Usecase.Confirm.{handle_match_acceptance}
use nebengjek.Matching.History.{accepted_events, commits, returns, Commits}
use nebengjek.Matching.Laws.Confirmation.{
  confirm_returned, confirmed_history, confirm-Commits, Confirms,
}
use nebengjek.Matching.Usecase.Propose.{build_match_proposal}
use nebengjek.Matching.Laws.Acceptance.{accept_stored, stranger_accepts, attempted}

abbrev row : MatchDto
row = to_dto halfway

abbrev done : Match
done = record (to_match row) {
  status = MatchStatus.accepted;
  passenger_confirmed = true;
  updated_at = 9;
}

-- Passenger 3 confirms the match that driver 2 has confirmed.
passenger_confirms :
    (confirm_match_by_user (world row) (1 ∷ []) (3 ∷ []) false []).0 ≡ returned done
unfolding confirm_match_by_user confirm_tx validate_user_for_match update_match_confirmation_flags
    store_confirmation to_dto to_match
passenger_confirms = refl

confirm_returned_example :
    (dto : MatchDto) × ((world row).row_reply (select_match_for_update (1 ∷ [])) (begin_tx ∷ [])
      ≡ ok dto)
    × Confirms (world row) (3 ∷ []) false (to_match dto) done
    × ((confirm_match_by_user (world row) (1 ∷ []) (3 ∷ []) false []).1
        ≡ confirmed_history (1 ∷ []) done [])
confirm_returned_example =
    confirm_returned (world row) (1 ∷ []) (3 ∷ []) false done [] passenger_confirms

confirm-Commits_example :
    Commits
      (world row)
      (returns (confirm_match_by_user (world row) (1 ∷ []) (4 ∷ []) false []).0)
      []
      (confirm_match_by_user (world row) (1 ∷ []) (4 ∷ []) false []).1
confirm-Commits_example = confirm-Commits (world row) (1 ∷ []) (4 ∷ []) false []

row-IsConsistent : IsConsistent (to_match row)
unfolding to_match to_dto
row-IsConsistent = refl

confirm-Edge_example : IsConsistent done × Edge (to_match row).status done.status
confirm-Edge_example =
    confirm-Edge (world row) (1 ∷ []) (3 ∷ []) false row done [] refl row-IsConsistent
      passenger_confirms

-- The use case stores the same confirmation, once both users have left the pools.
passenger_stores : (attempted (world row) halfway (confirm_request 3) []).0 ≡ returned done
unfolding confirm_match_by_user confirm_tx validate_user_for_match update_match_confirmation_flags
    store_confirmation to_dto to_match str_eq
passenger_stores = refl

accept_stored_example :
    let (r, t') = handle_match_acceptance (world row) halfway (confirm_request 3) [] in
    (r ≡ returned (build_match_proposal (world row) done))
    × (commits (world row) t' ≡ 1 + commits (world row) [])
    × (accepted_events t' ≡ build_match_proposal (world row) done ∷ accepted_events [])
accept_stored_example =
    accept_stored (world row) halfway (confirm_request 3) [] done passenger_stores

stranger_is_not_driver :
    str_eq (confirm_request 4).user_id ((world row).uuid_string halfway.driver_id) ≡ false
unfolding str_eq
stranger_is_not_driver = refl

not_the_passenger :
    (d : MatchDto) (h : History)
    → (world row).row_reply (select_match_for_update (1 ∷ [])) h ≡ ok d
    → d.passenger_id ≢ 4
unfolding to_dto
not_the_passenger d h e p = ground arith

stranger_accepts_example :
    let (r, t') = handle_match_acceptance (world row) halfway (confirm_request 4) [] in
    (p : MatchProposal) × (r ≡ returned p)
    × (p.match_status ≡ MatchStatus.accepted)
    × (accepted_events t' ≡ p ∷ accepted_events [])
    × (commits (world row) t' ≡ commits (world row) [])
stranger_accepts_example =
    stranger_accepts (world row) halfway (confirm_request 4) 4 [] refl stranger_is_not_driver refl
      not_the_passenger
