-- ===== src/Users/Laws/Acts.antt =====
-- The acts of a user, and the requests that a connection passes on: what the forwarding use cases
-- and the first handlers of services/users/handler/websocket/echo_handler.go do in whose name.
use nebengjek.Prelude.{
  Str, str, str_eq, str_eq_iff, List, [], ◌∷◌, some, ◌≡◌, ◌⊎◌, inl, inr, refl, false, Bool-cases,
  arith, not,
}
use nebengjek.Exec.{wrapping, fail_if, call, Error, Result, ok, err, Exec, attempt}
use nebengjek.Exec.Emits.{Emits, Emits-bind, Emits-silent, Emits-attempt, Emits-wrapping}
use nebengjek.Domain.Matches.{MatchConfirmRequest}
use nebengjek.Domain.Rides.{LocationUpdate}
use nebengjek.Domain.Users.{FinderRequest, BeaconRequest}
use nebengjek.Users.Env.{send, Conn, Call, History, Env, publish_location_update, match_confirm}
use nebengjek.Users.Repo
use nebengjek.Users.Usecase.Forward
use nebengjek.Users.Usecase.Forward.{update_user_location, confirm_match, at_origin, given_or_now}
use nebengjek.Users.Socket.Events
use nebengjek.Users.Socket.Events.{or_report, handle_message}
use nebengjek.Users.Socket.Clients.{server, client, ErrorSeverity, send_error, notify_client}

-- What a user tells other services: where he is, and what he makes of a match.
pub data Act : Type 0 where
  located : LocationUpdate → Act
  confirmed : MatchConfirmRequest → Act

-- The acts of a history, the newest first.
unfoldable pub acts : History → List Act
acts [] = []
acts (publish_location_update lu ∷ t) = located lu ∷ acts t
acts (match_confirm req ∷ t) = confirmed req ∷ acts t
acts (c ∷ t) = acts t

-- An act is in the name of a user. A confirmation is an acceptance or a rejection.
abbrev pub InNameOf : Str → Act → Type 0
InNameOf u (located lu) = lu.driver_id ≡ u
InNameOf u (confirmed req) =
    (req.user_id ≡ u) × ((req.status ≡ str "ACCEPTED") ⊎ (req.status ≡ str "REJECTED"))

module _ (env : Env) (u : Str) where
  abbrev pub Acts {ℓ} : {A : Type ℓ} → Exec Call A → Type ℓ
  Acts m = Emits (InNameOf u) acts m

  pub send_error-Acts :
      (ws : Conn) (e : Error) (code : Str) (w : ErrorSeverity) → Acts (send_error env ws e code w)
  unfolding send_error acts
  send_error-Acts ws e code w = Emits-silent _ _ _ (λ t. ground arith)

  pub notify-Acts :
      (user_id event : Str) (raw : Result Str) → Acts (notify_client env user_id event raw)
  unfolding notify_client acts
  notify-Acts user_id event raw = Emits-silent _ _ _ (λ t. ground arith)

  pub or_report-Acts :
      {A : Type 0} (ws : Conn) (w : ErrorSeverity) (r : Result A) (k : A → Exec Call (Unit {0}))
      → ((a : A) → Acts (k a))
      → Acts (or_report env u ws w r k)
  or_report-Acts ws w (ok a) k p = p a
  or_report-Acts ws w (err e) k p = send_error-Acts ws e _ w

  by_id-silent : (id : Str) (t : History) → acts (Repo.get_user_by_id env id t).1 ≡ acts t
  unfolding Repo.get_user_by_id Repo.get_user_by_field Repo.get_driver_info acts
  by_id-silent id t = ground arith

  by_msisdn-silent : (id : Str) (t : History) → acts (Repo.get_user_by_msisdn env id t).1 ≡ acts t
  unfolding Repo.get_user_by_msisdn Repo.get_driver_info acts
  by_msisdn-silent id t = ground arith

  refused-silent :
      (req : MatchConfirmRequest)
      → str_eq req.status (str "ACCEPTED") ≡ false
      → str_eq req.status (str "REJECTED") ≡ false
      → (t : History) → acts (confirm_match env req t).1 ≡ acts t
  unfolding confirm_match acts
  refused-silent req n k t = ground arith

  publish-Acts :
      (lu : LocationUpdate) → lu.driver_id ≡ u → Acts (send env (publish_location_update lu))
  unfolding acts
  publish-Acts lu e = record { at = λ t. (located lu ∷ [], refl, (e, tt)) }

  pub location-Acts :
      (lu : LocationUpdate) → lu.driver_id ≡ u → Acts (update_user_location env (some lu))
  unfolding update_user_location acts
  location-Acts lu e =
      Emits-bind _ _ (fail_if (at_origin env lu.location) _) _
        (Emits-silent _ _ _ (λ t. ground arith))
        λ x.
          Emits-bind _ _ (wrapping _ (Repo.get_user_by_id env lu.driver_id)) _
            (Emits-wrapping _ _ _ _ (Emits-silent _ _ _ (by_id-silent lu.driver_id)))
            λ user.
              Emits-bind _ _ (fail_if (not (Repo.is_driver user)) _) _
                (Emits-silent _ _ _ (λ t. ground arith))
                λ y.
                  Emits-bind _ _ (given_or_now env lu.location.timestamp) _
                    (Emits-silent _ _ _ (λ t. ground arith))
                    λ time.
                      publish-Acts
                        (record lu { location = record lu.location { timestamp = time } }) e

  sent-Acts :
      (req : MatchConfirmRequest) (role : Str)
      → InNameOf u (confirmed req)
      → Acts (
          call
            (match_confirm (record req { role = role }))
            (env.proposal_reply (match_confirm (record req { role = role }))))
  unfolding acts
  sent-Acts req role p = record {
    at = λ t. (confirmed (record req { role = role }) ∷ [], refl, (p, tt));
  }

  valid-Acts :
      (req : MatchConfirmRequest) → InNameOf u (confirmed req) → Acts (confirm_match env req)
  unfolding confirm_match acts
  valid-Acts req p = Emits-bind _ _ (fail_if _ _) _ (Emits-silent _ _ _ (λ t. ground arith)) λ x.
      Emits-bind _ _ (wrapping _ (Repo.get_user_by_id env req.user_id)) _
        (Emits-wrapping _ _ _ _ (Emits-silent _ _ _ (by_id-silent req.user_id)))
        λ user. sent-Acts req user.role p

  pub confirm-Acts : (req : MatchConfirmRequest) → req.user_id ≡ u → Acts (confirm_match env req)
  confirm-Acts req e = elim (Bool-cases (str_eq req.status (str "ACCEPTED"))) [
    | inl y ↦ valid-Acts req (e, inl ((str_eq_iff req.status _).0 y))
    | inr n ↦ elim (Bool-cases (str_eq req.status (str "REJECTED"))) [
      | inl y ↦ valid-Acts req (e, inr ((str_eq_iff req.status _).0 y))
      | inr k ↦ Emits-silent _ _ _ (refused-silent req n k)
    ]
  ]

  told_beacon-Acts : (req : BeaconRequest) → Acts (Forward.update_beacon_status env req)
  unfolding Forward.update_beacon_status acts
  told_beacon-Acts req = Emits-silent _ _ _ (λ t. ground (arith, by_msisdn-silent req.msisdn t))

  pub beacon-Acts : (ws : Conn) (s : Str) → Acts (Events.handle_beacon_update env u ws s)
  unfolding Events.handle_beacon_update acts
  beacon-Acts ws s = or_report-Acts ws client (env.json.decode_beacon s) _ λ req.
      Emits-bind _ _ (attempt (Forward.update_beacon_status env req)) _
        (Emits-attempt _ _ _ (told_beacon-Acts req))
        λ done. or_report-Acts ws server done _ λ x. Emits-silent _ _ _ (λ t. ground arith)

  told_finder-Acts : (req : FinderRequest) → Acts (Forward.update_finder_status env req)
  unfolding Forward.update_finder_status acts
  told_finder-Acts req = Emits-silent _ _ _ (λ t. ground (arith, by_msisdn-silent req.msisdn t))

  pub finder-Acts : (ws : Conn) (s : Str) → Acts (Events.handle_finder_update env u ws s)
  unfolding Events.handle_finder_update acts
  finder-Acts ws s = or_report-Acts ws client (env.json.decode_finder s) _ λ req.
      Emits-bind _ _ (attempt (Forward.update_finder_status env req)) _
        (Emits-attempt _ _ _ (told_finder-Acts req))
        λ done. or_report-Acts ws server done _ λ x. Emits-silent _ _ _ (λ t. ground arith)
