-- ===== src/Matching/Web.antt =====
-- services/match/handler/http/match.go.
use nebengjek.Prelude.{Str, str, str_eq, ◌++◌, [], ◌||◌, if◌then◌else◌}
use nebengjek.Exec.{Result, ok, err, error_text, Exec, pure}
use nebengjek.Domain.Matches.{MatchConfirmRequest, MatchProposal}
use nebengjek.Http.Responses.{
  Reply, success_response, error_response_handler, bad_request_response, answer,
}
use nebengjek.Matching.Env.{Call, Env}
use nebengjek.Matching.Usecase.Confirm.{confirm_match_status}

module _ (env : Env) where
  -- The request with the id of the path.
  abbrev pub confirm_if_valid : MatchConfirmRequest → Exec Call (Reply MatchProposal)
  confirm_if_valid req =
      if str_eq req.user_id []
      then pure (bad_request_response (str "User ID is required"))
      else if str_eq req.status (str "ACCEPTED") || str_eq req.status (str "REJECTED")
      then answer (confirm_match_status env req)
          (λ e. error_response_handler 500 (str "Failed to confirm match: " ++ error_text e))
          (λ p. success_response 200 (str "Match confirmation processed successfully") p)
      else pure (bad_request_response (str "Status must be either ACCEPTED or REJECTED"))

  abbrev pub confirm_bound : Str → Result MatchConfirmRequest → Exec Call (Reply MatchProposal)
  confirm_bound match_id (ok req) = confirm_if_valid (record req { id = match_id })
  confirm_bound match_id (err e) =
      pure (bad_request_response (str "Invalid request body: " ++ error_text e))

  unfoldable pub confirm_match : Str → Result MatchConfirmRequest → Exec Call (Reply MatchProposal)
  confirm_match match_id body =
      if str_eq match_id []
      then pure (bad_request_response (str "Match ID is required"))
      else confirm_bound match_id body
