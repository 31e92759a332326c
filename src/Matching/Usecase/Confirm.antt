-- ===== src/Matching/Usecase/Confirm.antt =====
-- services/match/usecase/match.go: a driver or a passenger accepts or rejects a match.
use nebengjek.Prelude.{Str, str, str_eq, ◌++◌, Bool, true, false, ◌&&◌, if◌then◌else◌}
use nebengjek.Exec.{message, Result, ok, err, Exec, pure, fail, attempt, wrapping, ◌>>=◌, ◌>>◌}
use nebengjek.Domain.Matches.{
  MatchStatus, driver_confirmed, passenger_confirmed, accepted, rejected, Match, MatchProposal,
  MatchConfirmRequest,
}
use nebengjek.Matching.Env.{
  Call, remove_available_driver, remove_available_passenger, publish_match_accepted,
  publish_match_rejected, go_auto_rejection, Env, launch, send, time_now,
}
use nebengjek.Matching.Repo.Status
use nebengjek.Matching.Repo.Status.{update_match_status}
use nebengjek.Matching.Repo.Confirm.{is_open, with_flag, confirm_match_by_user}
use nebengjek.Matching.Usecase.Propose.{build_match_proposal}

-- The status that the use case computes from the flags; with no flag it leaves the old one.
abbrev pub status_from_flags : Bool → Bool → MatchStatus → MatchStatus
status_from_flags true true s = accepted
status_from_flags true false s = driver_confirmed
status_from_flags false true s = passenger_confirmed
status_from_flags false false s = s

-- The local match after the flag is set and the status is recomputed.
unfoldable pub confirmed_locally : Match → Bool → Match
confirmed_locally m is_driver =
    let m' = with_flag is_driver m in
    record m' { status = status_from_flags m'.driver_confirmed m'.passenger_confirmed m'.status }

module _ (env : Env) where
  -- Both users leave the pools when both flags are set; the errors of these calls are dropped.
  leave_pools_if : Bool → Match → Exec Call (Unit {0})
  leave_pools_if true m = do
    attempt (send env (remove_available_driver (env.uuid_string m.driver_id)))
    attempt (send env (remove_available_passenger (env.uuid_string m.passenger_id)))
    pure tt
  leave_pools_if false m = pure tt

  -- The match that the caller's pointer then shows, and the repository's result.
  unfoldable pub update_match_confirmation : Match → Str → Bool → Exec Call (Match × Result Match)
  unfolding leave_pools_if
  update_match_confirmation m user_id is_driver = do
    let m' = confirmed_locally m is_driver
    leave_pools_if (m'.driver_confirmed && m'.passenger_confirmed) m'
    t ← time_now env
    stored ← attempt (confirm_match_by_user env (env.uuid_string m.id) user_id is_driver)
    pure (record m' { updated_at = t }, stored)

  unfoldable pub publish_accepted : Match → Exec Call (Unit {0})
  publish_accepted m = do
    attempt (send env (publish_match_accepted (build_match_proposal env m)))
    pure tt

  announce_if_accepted : MatchStatus → Match → Exec Call (Unit {0})
  unfolding publish_accepted
  announce_if_accepted accepted m = do launch (go_auto_rejection m); publish_accepted m
  announce_if_accepted s m = pure tt

  -- `updatedMatch = match // Use original match if update fails`
  abbrev pub stored_or_local : Match × Result Match → Match
  stored_or_local (m, ok stored) = stored
  stored_or_local (m, err e) = m

  unfoldable pub handle_match_acceptance : Match → MatchConfirmRequest → Exec Call MatchProposal
  unfolding update_match_confirmation announce_if_accepted
  handle_match_acceptance m req = do
    result ←
        update_match_confirmation m req.user_id (str_eq req.user_id (env.uuid_string m.driver_id))
    let updated = stored_or_local result
    announce_if_accepted updated.status updated
    pure (build_match_proposal env updated)

  -- `match.Status = models.MatchStatusRejected // Fallback to local update`
  abbrev pub reread_or_local : Match → Result Match → Match
  reread_or_local m (ok stored) = stored
  reread_or_local m (err e) = record m { status = rejected }

  unfoldable pub handle_match_rejection : Match → Exec Call MatchProposal
  handle_match_rejection m = do
    attempt (update_match_status env (env.uuid_string m.id) rejected)
    reread ← attempt (Status.get_match env (env.uuid_string m.id))
    let proposal = build_match_proposal env (reread_or_local m reread)
    attempt (send env (publish_match_rejected proposal))
    pure proposal

  -- `switch req.Status`
  dispatch_status : Match → MatchConfirmRequest → Exec Call MatchProposal
  dispatch_status m req =
      if str_eq req.status (str "ACCEPTED")
      then handle_match_acceptance m req
      else if str_eq req.status (str "REJECTED")
      then handle_match_rejection m
      else fail (message (str "unsupported match status: " ++ req.status))

  unfoldable pub confirm_match_status : MatchConfirmRequest → Exec Call MatchProposal
  unfolding dispatch_status
  confirm_match_status req = do
    m ← wrapping (str "match not found in database") (Status.get_match env req.id)
    dispatch_status m req

  unfoldable pub get_match : Str → Exec Call Match
  get_match match_id = Status.get_match env match_id

  unfoldable pub get_pending_match : Str → Exec Call Match
  get_pending_match match_id = do
    m ← wrapping (str "failed to find match") (Status.get_match env match_id)
    if is_open m.status then pure m else fail (message (str "match is not in pending state"))
