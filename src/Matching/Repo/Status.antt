-- ===== src/Matching/Repo/Status.antt =====
-- services/match/repository/match.go: GetMatch, UpdateMatchStatus, ListMatchesByPassenger,
-- BatchUpdateMatchStatus.
use nebengjek.Prelude.{Str, str, List, [], ◌∷◌, ◌++◌, ◌==◌}
use nebengjek.Exec.{
  Error, message, wrap, Result, ok, err, Exec, pure, call, of_result, wrapping, deferring, fail_if,
  ◌>>=◌, ◌>>◌,
}
use nebengjek.Domain.Places.{Uuid}
use nebengjek.Domain.Matches.{MatchStatus, Match, MatchDto, to_match}
use nebengjek.Matching.Env.{
  Call, begin_tx, commit_tx, rollback_tx, select_match, update_status, rows_affected,
  select_by_passenger, batch_update_status, Env, send, time_now, query_row,
}

-- The rows loop of `ListMatchesByPassenger`.
pub scan_rows : List (Result MatchDto) → Result (List Match)
scan_rows [] = ok []
scan_rows (err e ∷ rest) = err (wrap (str "failed to scan match") e)
scan_rows (ok d ∷ rest) =
    let found = scan_rows rest in elim found [ ok ms ↦ ok (to_match d ∷ ms) | err e ↦ err e ]

module _ (env : Env) where
  unfoldable pub get_match : Str → Exec Call Match
  get_match match_id = do
    dto ← wrapping (str "failed to get match") (query_row env (select_match match_id))
    pure (to_match dto)

  -- `result.RowsAffected()`, and the error if it is 0
  abbrev pub require_rows : Error → Exec Call (Unit {0})
  require_rows missing = do
    n ←
        wrapping (str "failed to get rows affected")
          (call rows_affected (env.count_reply rows_affected))
    fail_if (n == 0) missing

  update_status_tx : Str → MatchStatus → Exec Call (Unit {0})
  update_status_tx match_id status = do
    t ← time_now env
    wrapping (str "failed to update match status") (send env (update_status status t match_id))
    require_rows (message (str "match not found"))
    wrapping (str "failed to commit transaction") (send env commit_tx)

  unfoldable pub update_match_status : Str → MatchStatus → Exec Call (Unit {0})
  unfolding update_status_tx
  update_match_status match_id status = do
    wrapping (str "failed to get match") (query_row env (select_match match_id))
    wrapping (str "failed to begin transaction") (send env begin_tx)
    deferring rollback_tx (update_status_tx match_id status)

  unfoldable pub list_matches_by_passenger : Uuid → Exec Call (List Match)
  unfolding scan_rows
  list_matches_by_passenger passenger_id = do
    rows ← wrapping (str "failed to list matches") (
        call (select_by_passenger passenger_id) (env.rows_reply (select_by_passenger passenger_id)))
    matches ← of_result (scan_rows rows.scans)
    wrapping (str "error iterating matches") (of_result rows.end_of_rows)
    pure matches

  parse_ids : List Str → Result (List Uuid)
  parse_ids [] = ok []
  parse_ids (id ∷ ids) =
      let rest = parse_ids ids in
      elim (env.parse_uuid id) [
        | ok u ↦ elim rest [ ok us ↦ ok (u ∷ us) | err e ↦ err e ]
        | err e ↦ err (message (str "invalid match ID format: " ++ id))
      ]

  unfoldable pub batch_update_match_status : List Str → MatchStatus → Exec Call (Unit {0})
  unfolding parse_ids
  batch_update_match_status [] status = pure tt
  batch_update_match_status (id ∷ ids) status = do
    uuids ← of_result (parse_ids (id ∷ ids))
    t ← time_now env
    wrapping (str "failed to batch update match statuses")
        (send env (batch_update_status status t uuids))
    wrapping (str "failed to get rows affected")
        (call rows_affected (env.count_reply rows_affected))
    pure tt
