-- ===== src/Matching/Repo/Create.antt =====
-- services/match/repository/match.go: checkExistingPendingMatch, insertMatch, CreateMatch.
use nebengjek.Prelude.{str, ◌==◌, if◌then◌else◌}
use nebengjek.Exec.{Result, ok, err, Exec, pure, attempt, wrapping, deferring, ◌>>=◌, ◌>>◌}
use nebengjek.Domain.Places.{Time, Uuid}
use nebengjek.Domain.Matches.{MatchStatus, unset, pending, Match, MatchDto, to_dto, to_match}
use nebengjek.Matching.Env.{
  Call, begin_tx, commit_tx, rollback_tx, select_pair, insert_match, Env, send, time_now, uuid_new,
  query_row,
}

-- The query of `checkExistingPendingMatch` reads no target, so the scanned row keeps zeros there.
abbrev pub without_target : MatchDto → MatchDto
without_target d = record d { target_longitude = 0; target_latitude = 0 }

-- `if match.Status == "" { match.Status = MatchStatusPending }`
abbrev pub status_or_pending : MatchStatus → MatchStatus
status_or_pending unset = pending
status_or_pending s = s

-- The fields that `CreateMatch` sets before the insert.
unfoldable pub set_up : Uuid → Time → Match → Match
set_up id t m = record m {
  id = id;
  created_at = if m.created_at == 0 then t else m.created_at;
  updated_at = t;
  status = status_or_pending m.status;
}

module _ (env : Env) where
  unfoldable pub check_existing_pending_match : Uuid → Uuid → Exec Call Match
  check_existing_pending_match driver_id passenger_id = do
    dto ← query_row env (select_pair driver_id passenger_id pending)
    pure (to_match (without_target dto))

  insert_body : MatchDto → Exec Call (Unit {0})
  insert_body dto = do
    wrapping (str "failed to insert match") (send env (insert_match dto))
    send env commit_tx

  unfoldable pub insert : Match → Exec Call (Unit {0})
  unfolding insert_body
  insert m = do
    wrapping (str "failed to begin transaction") (send env begin_tx)
    deferring rollback_tx (insert_body (to_dto m))

  insert_new : Match → Exec Call Match
  unfolding insert
  insert_new m = do
    id ← uuid_new env
    t ← time_now env
    insert (set_up id t m)
    pure (set_up id t m)

  -- Any error of the check, not only `sql.ErrNoRows`, leads to the insert.
  create_or_reuse : Match → Result Match → Exec Call Match
  unfolding insert_new
  create_or_reuse m (ok existing) = pure existing
  create_or_reuse m (err e) = insert_new m

  unfoldable pub create_match : Match → Exec Call Match
  unfolding create_or_reuse check_existing_pending_match
  create_match m = do
    existing ← attempt (check_existing_pending_match m.driver_id m.passenger_id)
    create_or_reuse m existing
