-- ===== src/Matching/Laws/Lifecycle.antt =====
-- The life of a match from its proposal to its acceptance, as ConfirmMatchByUser moves it.
use nebengjek.Prelude.{Str, Bool, true, false, ◌∷◌, ◌≡◌, subst, ◌↔◌, ◌&&◌, arith}
use nebengjek.Exec.{returned, ok}
use nebengjek.Domain.Matches.{
  MatchStatus, pending, driver_confirmed, passenger_confirmed, accepted, Match, MatchDto, to_match,
}
use nebengjek.Matching.Env.{begin_tx, select_match_for_update, History, Env}
use nebengjek.Matching.Repo.Confirm.{status_of_flags, confirm_match_by_user}
use nebengjek.Matching.Laws.Confirmation.{Confirms, confirm_returned}

-- The life of a match until both have confirmed.
pub data Edge : MatchStatus → MatchStatus → Type 0 where
  driver_first : Edge pending driver_confirmed
  passenger_first : Edge pending passenger_confirmed
  passenger_second : Edge driver_confirmed accepted
  driver_second : Edge passenger_confirmed accepted

-- The status of a match that was not rejected is the one that its flags determine.
abbrev pub IsConsistent : Match → Type 0
IsConsistent m = m.status ≡ status_of_flags m.driver_confirmed m.passenger_confirmed

ruleset edges = (driver_first, passenger_first, passenger_second, driver_second)

Confirms-Edge :
    (env : Env) (user_id : Str) (is_driver : Bool) (m m' : Match)
    → IsConsistent m
    → Confirms env user_id is_driver m m'
    → IsConsistent m' × Edge m.status m'.status
Confirms-Edge env user_id true m m' c h = grind (arith, edges)
Confirms-Edge env user_id false m m' c h = grind (arith, edges)

-- From a row whose status agrees with its flags, a confirmation that returns goes along one edge
-- of the life of a match, to a match whose status agrees with its flags.
pub confirm-Edge :
    (env : Env) (match_id user_id : Str) (is_driver : Bool) (dto : MatchDto) (m' : Match)
    (t : History)
    → env.row_reply (select_match_for_update match_id) (begin_tx ∷ t) ≡ ok dto
    → IsConsistent (to_match dto)
    → (confirm_match_by_user env match_id user_id is_driver t).0 ≡ returned m'
    → IsConsistent m' × Edge (to_match dto).status m'.status
confirm-Edge env match_id user_id is_driver dto m' t e c h =
    let (read, e', done, _) = confirm_returned env match_id user_id is_driver m' t h in
    let same : read ≡ dto = cc in
    Confirms-Edge env user_id is_driver (to_match dto) m' c
      (subst (λ d. Confirms env user_id is_driver (to_match d) m') same done)

-- The open rows of a consistent table are those that some user can still confirm, and an accepted
-- one has both flags.
pub consistent_accepted :
    (m : Match)
    → IsConsistent m
    → (m.status ≡ accepted) ↔ ((m.driver_confirmed && m.passenger_confirmed) ≡ true)
consistent_accepted m c = ground arith
