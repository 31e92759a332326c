-- ===== src/Matching/Repo/Confirm.antt =====
-- services/match/repository/match.go: validateUserForMatch, updateMatchConfirmationFlags,
-- ConfirmMatchByUser.
use nebengjek.Prelude.{Str, str, ◌++◌, Bool, true, false, not, ◌&&◌, ◌==◌, if◌then◌else◌}
use nebengjek.Exec.{
  Error, message, wrap, Result, ok, err, Ok, Exec, pure, of_result, wrapping, deferring, fail_if,
  ◌>>=◌, ◌>>◌,
}
use nebengjek.Domain.Matches.{
  MatchStatus, pending, driver_confirmed, passenger_confirmed, accepted, status_text, Match, to_dto,
  to_match,
}
use nebengjek.Matching.Env.{
  Call, begin_tx, commit_tx, rollback_tx, select_match_for_update, update_confirmation, Env, send,
  time_now, query_row,
}
use nebengjek.Matching.Repo.Status.{require_rows}

-- `Status == PENDING || DRIVER_CONFIRMED || PASSENGER_CONFIRMED`, the test that the program makes
-- in four places.
abbrev pub is_open : MatchStatus → Bool
is_open pending = true
is_open driver_confirmed = true
is_open passenger_confirmed = true
is_open _ = false

-- `if userUUID, err := uuid.Parse(userID); err != nil ...` and the two role tests.
unfoldable pub validate_user_for_match : Env → Match → Str → Bool → Ok
validate_user_for_match env m user_id is_driver = elim (env.parse_uuid user_id) [
  | err e ↦ err (wrap (str "invalid user ID format") e)
  | ok u ↦
      if is_driver && not (m.driver_id == u)
      then err (message (str "user is not the driver for this match"))
      else if not is_driver && not (m.passenger_id == u)
      then err (message (str "user is not the passenger for this match"))
      else ok tt
]

-- `match.DriverConfirmed = true` or `match.PassengerConfirmed = true`
abbrev pub with_flag : Bool → Match → Match
with_flag true m = record m { driver_confirmed = true }
with_flag false m = record m { passenger_confirmed = true }

-- The status that two flags determine.
abbrev pub status_of_flags : Bool → Bool → MatchStatus
status_of_flags true true = accepted
status_of_flags true false = driver_confirmed
status_of_flags false true = passenger_confirmed
status_of_flags false false = pending

-- The match with its flag set, and the new status.
unfoldable pub update_match_confirmation_flags : Match → Bool → Result (Match × MatchStatus)
update_match_confirmation_flags m is_driver =
    if is_driver && m.driver_confirmed
    then err (message (str "driver has already confirmed this match"))
    else if not is_driver && m.passenger_confirmed
    then err (message (str "passenger has already confirmed this match"))
    else (let m' = with_flag is_driver m in
        ok (m', status_of_flags m'.driver_confirmed m'.passenger_confirmed))

pub cannot_be_confirmed : MatchStatus → Error
cannot_be_confirmed s =
    message (str "match cannot be confirmed: current status is " ++ status_text s)

module _ (env : Env) where
  -- `match.Status = newStatus; match.UpdatedAt = time.Now()`, the update and the commit.
  unfoldable pub store_confirmation : Match → Exec Call Match
  store_confirmation m = do
    t ← time_now env
    wrapping (str "failed to update match")
        (send env (update_confirmation (to_dto (record m { updated_at = t }))))
    require_rows env (message (str "match not found or was modified by another transaction"))
    wrapping (str "failed to commit transaction") (send env commit_tx)
    pure (record m { updated_at = t })

  unfoldable pub confirm_tx : Str → Str → Bool → Exec Call Match
  confirm_tx match_id user_id is_driver = do
    dto ← wrapping (str "failed to get match") (query_row env (select_match_for_update match_id))
    of_result (validate_user_for_match env (to_match dto) user_id is_driver)
    fail_if (not (is_open (to_match dto).status)) (cannot_be_confirmed (to_match dto).status)
    flagged ← of_result (update_match_confirmation_flags (to_match dto) is_driver)
    store_confirmation (record (flagged.0) { status = flagged.1 })

  unfoldable pub confirm_match_by_user : Str → Str → Bool → Exec Call Match
  confirm_match_by_user match_id user_id is_driver = do
    wrapping (str "failed to begin transaction") (send env begin_tx)
    deferring rollback_tx (confirm_tx match_id user_id is_driver)
