-- ===== src/Matching/History.antt =====
-- Views of a history of the match service: what was committed and what was published.
use nebengjek.Prelude.{ℕ, suc, ◌+◌, List, [], ◌∷◌, ◌≡◌}
use nebengjek.Exec.{Outcome, returned, ok, err}
use nebengjek.Domain.Matches.{MatchProposal}
use nebengjek.Matching.Env.{commit_tx, publish_match_accepted, publish_match_rejected, History, Env}

-- The transactions of a history that the database has acknowledged.
unfoldable pub commits : Env → History → ℕ
commits env [] = 0
commits env (commit_tx ∷ t) = elim (env.reply commit_tx t) [
  | ok u ↦ suc (commits env t)
  | err e ↦ commits env t
]
commits env (c ∷ t) = commits env t

abbrev pub returns {ℓ} : {A : Type ℓ} → Outcome A → ℕ
returns (returned a) = 1
returns _ = 0

-- The proposals that were published as accepted, the newest first.
unfoldable pub accepted_events : History → List MatchProposal
accepted_events [] = []
accepted_events (publish_match_accepted p ∷ t) = p ∷ accepted_events t
accepted_events (c ∷ t) = accepted_events t

-- The transactions acknowledged between two histories, with nothing published as accepted.
abbrev pub Commits : Env → ℕ → History → History → Type 0
Commits env n t t' = (commits env t' ≡ n + commits env t) × (accepted_events t' ≡ accepted_events t)

-- The proposals that were published as rejected, the newest first.
unfoldable pub rejected_events : History → List MatchProposal
rejected_events [] = []
rejected_events (publish_match_rejected p ∷ t) = p ∷ rejected_events t
rejected_events (c ∷ t) = rejected_events t
