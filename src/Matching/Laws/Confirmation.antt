-- ===== src/Matching/Laws/Confirmation.antt =====
-- The two confirmations of a match, ConfirmMatchByUser in services/match/repository/match.go.
use nebengjek.Prelude.{Str, Bool, true, false, ◌∷◌, ◌≡◌, ◌≢◌, inl, inr, arith}
use nebengjek.Exec.{panicked, returned, ok}
use nebengjek.Exec.Laws.{Result-cases}
use nebengjek.Domain.Places.{Uuid}
use nebengjek.Domain.Matches.{MatchStatus, Match, MatchDto, to_dto, to_match}
use nebengjek.Matching.Env.{
  now, begin_tx, commit_tx, rollback_tx, rows_affected, select_match_for_update,
  update_confirmation, History, Env,
}
use nebengjek.Matching.History.{commits, accepted_events, Commits, returns}
use nebengjek.Matching.Repo.Confirm.{
  is_open, with_flag, status_of_flags, validate_user_for_match, update_match_confirmation_flags,
  store_confirmation, confirm_tx, confirm_match_by_user,
}

-- The flag of the user who confirms, and the user's id.
abbrev pub flag_of : Bool → Match → Bool
flag_of true m = m.driver_confirmed
flag_of false m = m.passenger_confirmed

abbrev pub party_of : Bool → Match → Uuid
party_of true m = m.driver_id
party_of false m = m.passenger_id

-- The history that a successful confirmation leaves.
abbrev pub confirmed_history : Str → Match → History → History
confirmed_history match_id m t =
    rollback_tx
    ∷ commit_tx
    ∷ rows_affected
    ∷ update_confirmation (to_dto m)
    ∷ now
    ∷ select_match_for_update match_id
    ∷ begin_tx
    ∷ t

-- What a returned match tells of the row that was read.
pub record Confirms (env : Env) (user_id : Str) (is_driver : Bool) (m m' : Match) : Type 0 where
  pub was_open : is_open m.status ≡ true
  pub by_party : env.parse_uuid user_id ≡ ok (party_of is_driver m)
  pub was_unset : flag_of is_driver m ≡ false
  pub flagged : m' ≡ record (with_flag is_driver m) {
    status = status_of_flags m'.driver_confirmed m'.passenger_confirmed;
    updated_at = m'.updated_at;
  }

validated :
    (env : Env) (m : Match) (user_id : Str) (is_driver : Bool)
    → validate_user_for_match env m user_id is_driver ≡ ok tt
    → env.parse_uuid user_id ≡ ok (party_of is_driver m)
unfolding validate_user_for_match
validated env m user_id true h = ground arith
validated env m user_id false h = ground arith

flagged_lem :
    (m : Match) (is_driver : Bool) (p : Match × MatchStatus)
    → update_match_confirmation_flags m is_driver ≡ ok p
    → (flag_of is_driver m ≡ false)
      × (p.0 ≡ with_flag is_driver m)
      × (p.1 ≡ status_of_flags p.0.driver_confirmed p.0.passenger_confirmed)
unfolding update_match_confirmation_flags
flagged_lem m true p h = ground arith
flagged_lem m false p h = ground arith

stored :
    (env : Env) (m m' : Match) (t : History)
    → (store_confirmation env m t).0 ≡ returned m'
    → (m' ≡ record m { updated_at = env.clock t })
      × ((store_confirmation env m t).1
          ≡ commit_tx ∷ rows_affected ∷ update_confirmation (to_dto m') ∷ now ∷ t)
unfolding store_confirmation
stored env m m' t h = ground arith

stored-Commits :
    (env : Env) (m : Match) (t : History)
    → Commits env (returns (store_confirmation env m t).0) t (store_confirmation env m t).1
unfolding store_confirmation commits accepted_events
stored-Commits env m t = ground arith

-- What follows once the row has been read, if its flag can be set.
module _ (env : Env) (match_id user_id : Str) (is_driver : Bool) (dto : MatchDto)
    (p : Match × MatchStatus) (t : History)
    (read : env.row_reply (select_match_for_update match_id) t ≡ ok dto)
    (set : update_match_confirmation_flags (to_match dto) is_driver ≡ ok p) where
  new_match : Match
  new_match = record (p.0) { status = p.1 }

  confirmed :
      (m' : Match)
      → (confirm_tx env match_id user_id is_driver t).0 ≡ returned m'
      → Confirms env user_id is_driver (to_match dto) m'
        × ((confirm_tx env match_id user_id is_driver t).1
            ≡ commit_tx
              ∷ rows_affected
              ∷ update_confirmation (to_dto m')
              ∷ now
              ∷ select_match_for_update match_id
              ∷ t)
  unfolding confirm_tx new_match
  confirmed m' h = ground (
    arith,
    validated env (to_match dto) user_id is_driver,
    flagged_lem (to_match dto) is_driver p,
    stored env new_match m' (select_match_for_update match_id ∷ t),
  )

  confirmed-Commits :
      Commits env
        (returns (confirm_tx env match_id user_id is_driver t).0)
        t
        (confirm_tx env match_id user_id is_driver t).1
  unfolding confirm_tx commits accepted_events new_match
  confirmed-Commits =
      ground (arith, stored-Commits env new_match (select_match_for_update match_id ∷ t))

-- If ConfirmMatchByUser returns a match, then the row it read under lock was open, the caller is
-- the party of the row, whose flag was not set; the match is the row with that flag and the
-- status of both flags, and the history is the whole transaction, committed.
pub confirm_returned :
    (env : Env) (match_id user_id : Str) (is_driver : Bool) (m' : Match) (t : History)
    → (confirm_match_by_user env match_id user_id is_driver t).0 ≡ returned m'
    → (dto : MatchDto) × (env.row_reply (select_match_for_update match_id) (begin_tx ∷ t) ≡ ok dto)
      × Confirms env user_id is_driver (to_match dto) m'
      × ((confirm_match_by_user env match_id user_id is_driver t).1
          ≡ confirmed_history match_id m' t)
unfolding confirm_match_by_user
confirm_returned env match_id user_id is_driver m' t h =
    elim (Result-cases (env.row_reply (select_match_for_update match_id) (begin_tx ∷ t))) [
      | inl (dto, e) ↦
          elim (Result-cases (update_match_confirmation_flags (to_match dto) is_driver)) [
            | inl (p, set) ↦
                let done = confirmed env match_id user_id is_driver dto p (begin_tx ∷ t) e set m' in
                (dto, e, ground (arith, done), ground (arith, done))
            | inr (x, bad) ↦ absurd (unfold confirm_tx in ground arith)
          ]
      | inr (x, e) ↦ absurd (unfold confirm_tx in ground arith)
    ]

-- Exactly the calls that return a match have committed a transaction: a call that fails, at any
-- step and for any reason, has committed none. No call publishes an acceptance itself.
pub confirm-Commits :
    (env : Env) (match_id user_id : Str) (is_driver : Bool) (t : History)
    → Commits env
        (returns (confirm_match_by_user env match_id user_id is_driver t).0)
        t
        (confirm_match_by_user env match_id user_id is_driver t).1
unfolding confirm_match_by_user commits accepted_events
confirm-Commits env match_id user_id is_driver t =
    elim (Result-cases (env.row_reply (select_match_for_update match_id) (begin_tx ∷ t))) [
      | inl (dto, e) ↦
          elim (Result-cases (update_match_confirmation_flags (to_match dto) is_driver)) [
            | inl (p, set) ↦
                ground (
                  arith,
                  confirmed-Commits env match_id user_id is_driver dto p (begin_tx ∷ t) e set,
                )
            | inr (x, bad) ↦ unfold confirm_tx in ground arith
          ]
      | inr (x, e) ↦ unfold confirm_tx in ground arith
    ]

-- ConfirmMatchByUser returns or fails, and never panics.
pub confirm_settles :
    (env : Env) (match_id user_id : Str) (is_driver : Bool) (t : History)
    → (confirm_match_by_user env match_id user_id is_driver t).0 ≢ panicked
unfolding confirm_match_by_user confirm_tx store_confirmation
confirm_settles env match_id user_id is_driver t h = ground arith
