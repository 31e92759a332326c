-- ===== src/Matching/Usecase/Reject.antt =====
-- services/match/usecase/match.go: the automatic rejection of the other matches of a passenger,
-- which runs in a goroutine of its own after a match is accepted.
use nebengjek.Prelude.{
  ℕ, suc, Str, str, Bool, not, ◌&&◌, ◌==◌, Option, none, some, List, [], ◌∷◌, if◌then◌else◌,
}
use nebengjek.Exec.{Result, ok, err, Exec, pure, panic, attempt, wrapping, ◌>>=◌, ◌>>◌}
use nebengjek.Domain.Matches.{rejected, Match, MatchProposal}
use nebengjek.Matching.Env.{Call, ctx_done, publish_match_rejected, Env, send}
use nebengjek.Matching.Repo.Status.{
  list_matches_by_passenger, update_match_status, batch_update_match_status,
}
use nebengjek.Matching.Repo.Confirm.{is_open}

-- The two slices that the loop builds.
pub record Batch : Type 0 where
  pub ids : List Str
  pub events : List MatchProposal

-- `events[i]`; out of range Go panics.
abbrev pub get_elem? {ℓ} : {A : Type ℓ} → List A → ℕ → Option A
get_elem? [] i = none
get_elem? (x ∷ xs) ℕ.zero = some x
get_elem? (x ∷ xs) (suc i) = get_elem? xs i

module _ (env : Env) where
  unfoldable pub create_rejection_event : Match → MatchProposal
  create_rejection_event m = record {
    id = env.uuid_string m.id;
    passenger_id = env.uuid_string m.passenger_id;
    driver_id = env.uuid_string m.driver_id;
    user_location = m.passenger_location;
    driver_location = m.driver_location;
    target_location = m.target_location;
    match_status = rejected;
  }

  -- `select { case <-ctx.Done(): return ... default: }`
  abbrev pub check_ctx : Str → Exec Call (Unit {0})
  check_ctx s = wrapping s (send env ctx_done)

  -- A match is rejected unless it is the accepted one or is closed already.
  unfoldable pub is_rejectable : Match → Match → Bool
  is_rejectable accepted_match m = not (m.id == accepted_match.id) && is_open m.status

  unfoldable pub add_rejection : Match → Match → Batch → Batch
  add_rejection accepted_match m batch =
      if is_rejectable accepted_match m
      then record {
        ids = env.uuid_string m.id ∷ batch.ids;
        events = create_rejection_event m ∷ batch.events;
      }
      else batch

  -- The loop over the passenger's matches: the context is checked in each round.
  unfoldable pub collect_rejections : Match → List Match → Exec Call Batch
  collect_rejections accepted_match [] = pure (record { ids = []; events = [] })
  collect_rejections accepted_match (m ∷ ms) =
      let rest = collect_rejections accepted_match ms in
      do
        check_ctx (str "auto-rejection cancelled during processing")
        batch ← rest
        pure (add_rejection accepted_match m batch)

  unfoldable pub publish_rejection_events : List MatchProposal → Exec Call (Unit {0})
  publish_rejection_events [] = pure tt
  publish_rejection_events (event ∷ events) =
      let rest = publish_rejection_events events in
      do
        check_ctx (str "auto-rejection cancelled during event publishing")
        attempt (send env (publish_match_rejected event))
        rest

  -- The event is published only if the update of its match succeeded.
  unfoldable pub publish_if_updated :
      Option MatchProposal → Result (Unit {0}) → Exec Call (Unit {0})
  publish_if_updated event (err e) = pure tt
  publish_if_updated none (ok u) = panic
  publish_if_updated (some event) (ok u) = do
    attempt (send env (publish_match_rejected event))
    pure tt

  unfoldable pub process_individual_rejections :
      ℕ → List Str → List MatchProposal → Exec Call (Unit {0})
  process_individual_rejections i [] events = pure tt
  process_individual_rejections i (id ∷ ids) events =
      let rest = process_individual_rejections (suc i) ids events in
      do
        check_ctx (str "auto-rejection cancelled during fallback updates")
        updated ← attempt (update_match_status env id rejected)
        publish_if_updated (get_elem? events i) updated
        rest

  unfoldable pub after_batch : Batch → Result (Unit {0}) → Exec Call (Unit {0})
  after_batch batch (ok u) = publish_rejection_events batch.events
  after_batch batch (err e) = process_individual_rejections 0 batch.ids batch.events

  unfoldable pub reject_all : Batch → Exec Call (Unit {0})
  reject_all batch = do
    updated ← attempt (batch_update_match_status env batch.ids rejected)
    after_batch batch updated

  unfoldable pub reject_unless_empty : List Str → Batch → Exec Call (Unit {0})
  reject_unless_empty [] batch = pure tt
  reject_unless_empty (id ∷ ids) batch = reject_all batch

  unfoldable pub process_rejection_batch : Batch → Exec Call (Unit {0})
  process_rejection_batch batch = reject_unless_empty batch.ids batch

  unfoldable pub handle_auto_rejection_for_accepted_match : Match → Exec Call (Unit {0})
  handle_auto_rejection_for_accepted_match accepted_match = do
    check_ctx (str "auto-rejection cancelled")
    matches ←
        wrapping (str "failed to list passenger matches")
          (list_matches_by_passenger env accepted_match.passenger_id)
    batch ← collect_rejections accepted_match matches
    wrapping (str "failed to process rejection batch") (process_rejection_batch batch)
