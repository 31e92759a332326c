-- ===== src/Matching/Env.antt =====
-- What the match service calls outside its own code: the statements that
-- services/match/repository/match.go sends to PostgreSQL, the Redis commands, the operations of
-- MatchGW (services/match/gateways.go), the clock, the context and new UUIDs.
use nebengjek.Prelude.{ℕ, Str, List, Option}
use nebengjek.Exec.{Result, Ok, Exec, call}
use nebengjek.Domain.Places.{Float64, Int64, Time, Uuid, Location}
use nebengjek.Domain.Matches.{MatchStatus, MatchDto, Match, MatchProposal, NearbyUser}

pub data Call : Type 0 where
  now : Call
  new_uuid : Call
  ctx_done : Call
  begin_tx : Call
  commit_tx : Call
  rollback_tx : Call
  -- `SELECT ... WHERE driver_id = $1 AND passenger_id = $2 AND status = $3`
  select_pair : Uuid → Uuid → MatchStatus → Call
  insert_match : MatchDto → Call
  -- `SELECT ... WHERE id = $1`, and the same with `FOR UPDATE`
  select_match : Str → Call
  select_match_for_update : Str → Call
  -- `UPDATE matches SET status = $1, updated_at = $2 WHERE id = $3`
  update_status : MatchStatus → Time → Str → Call
  -- `UPDATE matches SET status, driver_confirmed, passenger_confirmed, updated_at WHERE id = :id`
  update_confirmation : MatchDto → Call
  rows_affected : Call
  select_by_passenger : Uuid → Call
  -- `UPDATE matches SET status = $1, updated_at = $2 WHERE id = ANY($3) AND status IN (...)`
  batch_update_status : MatchStatus → Time → List Uuid → Call
  redis_set : Str → Str → Int64 → Call
  redis_delete : Str → Call
  redis_get : Str → Call
  add_available_driver : Str → Location → Call
  remove_available_driver : Str → Call
  add_available_passenger : Str → Location → Call
  remove_available_passenger : Str → Call
  find_nearby_drivers : Location → Float64 → Call
  publish_match_found : MatchProposal → Call
  publish_match_accepted : MatchProposal → Call
  publish_match_rejected : MatchProposal → Call
  -- `go func() { ... handleAutoRejectionForAcceptedMatch(bgCtx, match) }()`
  go_auto_rejection : Match → Call

-- `cfg.Match`
pub record MatchConfig : Type 0 where
  pub search_radius_km : Float64
  pub active_ride_ttl_hours : Int64

-- `*sql.Rows`: what each Scan gives, and `rows.Err()`.
pub record Rows : Type 0 where
  pub scans : List (Result MatchDto)
  pub end_of_rows : Ok

abbrev pub History : Type 0
History = List Call

-- The replies. Each may depend on all that was called before.
pub record Env : Type 0 where
  pub clock : History → Time
  pub fresh_uuid : History → Uuid
  pub parse_uuid : Str → Result Uuid
  pub uuid_string : Uuid → Str
  pub reply : Call → History → Ok
  pub count_reply : Call → History → Result ℕ
  pub row_reply : Call → History → Result MatchDto
  pub rows_reply : Call → History → Result Rows
  pub text_reply : Call → History → Result Str
  pub nearby_reply : Call → History → Result (List NearbyUser)
  pub cfg : MatchConfig
  -- `r.cfg` of the repository, which may be nil
  pub repo_cfg : Option MatchConfig

-- A `go` statement: it starts the goroutine and cannot fail.
abbrev pub launch : Call → Exec Call (Unit {0})
launch c = call c (λ h. Result.ok tt)

module _ (env : Env) where
  abbrev pub send : Call → Exec Call (Unit {0})
  send c = call c (env.reply c)

  abbrev pub time_now : Exec Call Time
  time_now t = call now (λ h. Result.ok (env.clock h)) t

  abbrev pub uuid_new : Exec Call Uuid
  uuid_new t = call new_uuid (λ h. Result.ok (env.fresh_uuid h)) t

  abbrev pub query_row : Call → Exec Call MatchDto
  query_row c = call c (env.row_reply c)
