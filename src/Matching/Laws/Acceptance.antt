-- ===== src/Matching/Laws/Acceptance.antt =====
-- ConfirmMatchStatus of services/match/usecase/match.go with status ACCEPTED: what is published and
-- what is stored.
use nebengjek.Prelude.{
  inr, inl, ◌≢◌, Str, ◌+◌, str_eq, Bool, true, false, ◌&&◌, ◌∷◌, ◌≡◌, arith, if◌then◌else◌,
}
use nebengjek.Exec.{ok, Error, Outcome, returned, failed}
use nebengjek.Domain.Matches.{
  MatchProposal, to_match, MatchDto, MatchStatus, accepted, Match, MatchConfirmRequest,
}
use nebengjek.Matching.Env.{
  begin_tx, select_match_for_update, now, remove_available_driver, remove_available_passenger,
  go_auto_rejection, publish_match_accepted, History, Env,
}
use nebengjek.Matching.History.{commits, accepted_events}
use nebengjek.Matching.Repo.Confirm.{confirm_match_by_user}
use nebengjek.Matching.Usecase.Propose.{build_match_proposal}
use nebengjek.Matching.Usecase.Confirm.{confirmed_locally, handle_match_acceptance}
use nebengjek.Matching.Laws.Confirmation.{
  confirm_settles, confirm_returned, party_of, confirm-Commits,
}
use nebengjek.Domain.Places.{Uuid}
use nebengjek.Exec.Laws.{Outcome-cases}

abbrev pub is_accepted : MatchStatus → Bool
is_accepted accepted = true
is_accepted _ = false

-- The history once both users have left the pools, which they do if both flags are set.
abbrev pub left_pools : Env → Match → History → History
left_pools env m t =
    if m.driver_confirmed && m.passenger_confirmed
    then remove_available_passenger (env.uuid_string m.passenger_id)
      ∷ remove_available_driver (env.uuid_string m.driver_id)
      ∷ t
    else t

module _ (env : Env) (m : Match) (req : MatchConfirmRequest) (t : History) where
  abbrev pub by_driver : Bool
  by_driver = str_eq req.user_id (env.uuid_string m.driver_id)

  abbrev pub local : Match
  local = confirmed_locally m by_driver

  abbrev pub attempted : Outcome Match × History
  attempted =
      confirm_match_by_user env (env.uuid_string m.id) req.user_id by_driver
        (now ∷ left_pools env local t)

  -- The call ends with the proposal of `m2`, which is announced if it is accepted.
  abbrev Settles : Match → Type 0
  Settles m2 = handle_match_acceptance env m req t ≡ (
    returned (build_match_proposal env m2),
    if is_accepted m2.status
        then publish_match_accepted (build_match_proposal env m2)
          ∷ go_auto_rejection m2
          ∷ attempted.1
        else attempted.1,
  )

  Settles-stored : (m2 : Match) → attempted.0 ≡ returned m2 → Settles m2
  unfolding handle_match_acceptance
  Settles-stored m2 h = ground arith

  Settles-local :
      (e : Error)
      → attempted.0 ≡ failed e
      → Settles (record local { updated_at = env.clock (left_pools env local t) })
  unfolding handle_match_acceptance
  Settles-local e h = ground arith

-- If the confirmation is stored, then one transaction was committed, the reply is the stored match,
-- and an acceptance is published once and of that match if it is accepted, and else not at all.
pub accept_stored :
    (env : Env) (m : Match) (req : MatchConfirmRequest) (t : History) (m2 : Match)
    → (attempted env m req t).0 ≡ returned m2
    → let (r, t') = handle_match_acceptance env m req t in
      (r ≡ returned (build_match_proposal env m2))
      × (commits env t' ≡ 1 + commits env t)
      × (accepted_events t' ≡ (
          if is_accepted m2.status
          then build_match_proposal env m2 ∷ accepted_events t
          else accepted_events t))
unfolding commits accepted_events
accept_stored env m req t m2 h = ground (
  arith,
  Settles-stored env m req t m2 h,
  confirm-Commits env (env.uuid_string m.id) req.user_id (by_driver env m req t)
      (now ∷ left_pools env (local env m req t) t),
)

pub accept_unstored :
    (env : Env) (m : Match) (req : MatchConfirmRequest) (t : History) (e : Error)
    → (attempted env m req t).0 ≡ failed e
    → let m2 = record (local env m req t) {
      updated_at = env.clock (left_pools env (local env m req t) t);
    } in
      let (r, t') = handle_match_acceptance env m req t in
      (r ≡ returned (build_match_proposal env m2))
      × (commits env t' ≡ commits env t)
      × (accepted_events t' ≡ (
          if is_accepted m2.status
          then build_match_proposal env m2 ∷ accepted_events t
          else accepted_events t))
unfolding commits accepted_events
accept_unstored env m req t e h = ground (
  arith,
  Settles-local env m req t e h,
  confirm-Commits env (env.uuid_string m.id) req.user_id (by_driver env m req t)
      (now ∷ left_pools env (local env m req t) t),
)

-- A caller whose id is neither of the two parties of the row cannot confirm: the repository fails.
stranger_fails :
    (env : Env) (match_id user_id : Str) (is_driver : Bool) (u : Uuid) (t : History)
    → env.parse_uuid user_id ≡ ok u
    → ((d : MatchDto) (h : History)
        → env.row_reply (select_match_for_update match_id) h ≡ ok d
        → party_of is_driver (to_match d) ≢ u)
    → (e : Error) × ((confirm_match_by_user env match_id user_id is_driver t).0 ≡ failed e)
stranger_fails env match_id user_id is_driver u t p other =
    elim (Outcome-cases (confirm_match_by_user env match_id user_id is_driver t).0) [
      | inl (m', r) ↦
          let (d, read, done, _) = confirm_returned env match_id user_id is_driver m' t r in
          absurd (other d (begin_tx ∷ t) read (cc (p, done.by_party)))
      | inr (inl f) ↦ f
      | inr (inr bad) ↦ absurd (confirm_settles env match_id user_id is_driver t bad)
    ]

-- A caller who is neither the driver nor the passenger, and who accepts a match that the driver has
-- confirmed, gets an ACCEPTED reply, and the acceptance is published, with nothing committed.
pub stranger_accepts :
    (env : Env) (m : Match) (req : MatchConfirmRequest) (u : Uuid) (t : History)
    → env.parse_uuid req.user_id ≡ ok u
    → str_eq req.user_id (env.uuid_string m.driver_id) ≡ false
    → m.driver_confirmed ≡ true
    → ((d : MatchDto) (h : History)
        → env.row_reply (select_match_for_update (env.uuid_string m.id)) h ≡ ok d
        → d.passenger_id ≢ u)
    → let (r, t') = handle_match_acceptance env m req t in
      (p : MatchProposal) × (r ≡ returned p)
      × (p.match_status ≡ accepted)
      × (accepted_events t' ≡ p ∷ accepted_events t)
      × (commits env t' ≡ commits env t)
unfolding confirmed_locally build_match_proposal
stranger_accepts env m req u t parsed stranger flagged other =
    let (e, f) =
      stranger_fails env (env.uuid_string m.id) req.user_id (by_driver env m req t) u
        (now ∷ left_pools env (local env m req t) t) parsed
        (λ d h r. rw stranger (unfold to_match in other d h r)) in
    let m2 = record (local env m req t) {
      updated_at = env.clock (left_pools env (local env m req t) t);
    } in
    let settled = accept_unstored env m req t e f in
    (
      build_match_proposal env m2,
      settled.0,
      ground (arith, settled),
      ground (arith, settled),
      settled.1,
    )
