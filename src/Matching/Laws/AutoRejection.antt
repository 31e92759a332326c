-- ===== src/Matching/Laws/AutoRejection.antt =====
-- What the automatic rejection publishes: handleAutoRejectionForAcceptedMatch of
-- services/match/usecase/match.go.
use nebengjek.Prelude.{
  none, sym, ◌++◌, select, Bool-cases, inl, inr, Option, zero, suc, subst, Str, some, true, ℕ, All,
  List, [], ◌∷◌, refl, ◌≡◌, ◌≢◌, arith, str,
}
use nebengjek.Exec.{
  Result, Outcome, Exec, ok, err, pure, attempt, wrapping, returned, failed, panicked, wrap_outcome,
  ◌>>=◌,
}
use mathlib.Core.List.{append_assoc}
use nebengjek.Exec.Emits.{
  bind-Extends, Extends-refl, Emits-map, Emits-attempt, Emits-wrapping, Emits, Extends, Emits-bind,
  Emits-bind_returned, Emits-silent,
}
use nebengjek.Domain.Matches.{rejected, MatchStatus, Match, MatchProposal}
use nebengjek.Matching.Env.{send, publish_match_rejected, ctx_done, Call, History, Env}
use nebengjek.Matching.Usecase.Reject.{
  Batch, process_rejection_batch, reject_all, after_batch, handle_auto_rejection_for_accepted_match,
  publish_rejection_events, publish_if_updated, reject_unless_empty, process_individual_rejections,
  check_ctx, collect_rejections, create_rejection_event, get_elem?, is_rejectable,
}
use nebengjek.Matching.Repo.Status.{
  batch_update_match_status, update_match_status, list_matches_by_passenger,
}
use nebengjek.Matching.Repo.Confirm.{is_open}
use nebengjek.Matching.History.{rejected_events}
use nebengjek.Domain.Places.{Uuid}
use nebengjek.Matching.Laws.Rejection.{to_reject, collect_returned, batch_of}

abbrev pub IsMember : Match → List Match → Type 0
IsMember m ms = (before : List Match) × (after : List Match) × (ms ≡ before ++ (m ∷ after))

-- The rejection of one of some matches, which is open and is not the accepted one.
abbrev pub IsRejectionFor : Env → Match → List Match → MatchProposal → Type 0
IsRejectionFor env a ms p =
    (m : Match) × (p ≡ create_rejection_event env m)
    × IsMember m ms
    × (is_open m.status ≡ true)
    × (m.id ≢ a.id)

-- The same for the matches that were read for the passenger at a moment.
abbrev pub IsReadRejection : Env → Match → History → MatchProposal → Type 0
IsReadRejection env a h p =
    (ms : List Match) × ((list_matches_by_passenger env a.passenger_id h).0 ≡ returned ms)
    × IsRejectionFor env a ms p

members : (before ms : List Match) → All (λ m. IsMember m (before ++ ms)) ms
members before [] = tt
members before (m ∷ ms) = (
  (before, ms, refl),
  subst (λ xs. All (λ x. IsMember x xs) ms) (append_assoc before (m ∷ []) ms)
      (members (before ++ (m ∷ [])) ms),
)

to_reject-All :
    (env : Env) (a : Match) (Q : Match → Type 0) (ms : List Match)
    → All Q ms
    → All (λ m. Q m × (is_open m.status ≡ true) × (m.id ≢ a.id)) (to_reject env a ms)
unfolding select is_rejectable
to_reject-All env a Q [] u = tt
to_reject-All env a Q (m ∷ ms) (q, qs) = elim (Bool-cases (is_rejectable env a m)) [
  | inl y ↦ rw y ((q, ground arith, ground arith), to_reject-All env a Q ms qs)
  | inr n ↦ rw n (to_reject-All env a Q ms qs)
]

events-All :
    (env : Env) (a : Match) (read ms : List Match)
    → All (λ m. IsMember m read × (is_open m.status ≡ true) × (m.id ≢ a.id)) ms
    → All (IsRejectionFor env a read) (batch_of env ms).events
events-All env a read [] u = tt
events-All env a read (m ∷ ms) (p, ps) = ((m, refl, p.0, p.1, p.2), events-All env a read ms ps)

get_elem?-All :
    (P : MatchProposal → Type 0) (ps : List MatchProposal) (i : ℕ) (p : MatchProposal)
    → All P ps
    → get_elem? ps i ≡ some p
    → P p
get_elem?-All P [] i p u h = absurd (cc)
get_elem?-All P (x ∷ ps) zero p (q, qs) h = subst P (cc) q
get_elem?-All P (x ∷ ps) (suc i) p (q, qs) h = get_elem?-All P ps i p qs h

module _ (env : Env) (a : Match) (read : List Match) where
  abbrev Rejects {ℓ} : {A : Type ℓ} → Exec Call A → Type ℓ
  Rejects m = Emits (IsRejectionFor env a read) rejected_events m

  check-Emits : (s : Str) → Rejects (check_ctx env s)
  unfolding rejected_events
  check-Emits s = Emits-silent _ _ (check_ctx env s) (λ t. refl)

  publish-Emits :
      (p : MatchProposal)
      → IsRejectionFor env a read p
      → Rejects (attempt (send env (publish_match_rejected p)))
  unfolding rejected_events
  publish-Emits p q = record { at = λ t. (p ∷ [], refl, (q, tt)) }

  batch_update-Emits :
      (ids : List Str) (s : MatchStatus) → Rejects (batch_update_match_status env ids s)
  unfolding batch_update_match_status rejected_events
  batch_update-Emits [] s = Emits-silent _ _ _ (λ t. ground arith)
  batch_update-Emits (id ∷ ids) s = Emits-silent _ _ _ (λ t. ground arith)

  update-Emits : (id : Str) (s : MatchStatus) → Rejects (update_match_status env id s)
  unfolding update_match_status rejected_events
  update-Emits id s = Emits-silent _ _ _ (λ t. ground arith)

  collect-silent :
      (ms : List Match) (t : History)
      → rejected_events (collect_rejections env a ms t).1 ≡ rejected_events t
  unfolding collect_rejections rejected_events
  collect-silent [] t = refl
  collect-silent (m ∷ ms) t = ground (arith, collect-silent ms (ctx_done ∷ t))

  published-Emits :
      (ps : List MatchProposal)
      → All (IsRejectionFor env a read) ps
      → Rejects (publish_rejection_events env ps)
  unfolding publish_rejection_events
  published-Emits [] u = Emits-silent _ _ _ (λ t. refl)
  published-Emits (p ∷ ps) (q, qs) = Emits-bind _ _ (check_ctx env _) _ (check-Emits _) λ u.
      Emits-bind _ _ (attempt (send env (publish_match_rejected p))) _ (publish-Emits p q)
        λ r. published-Emits ps qs

  publish_if-Emits :
      (o : Option MatchProposal) (r : Result (Unit {0}))
      → ((p : MatchProposal) → o ≡ some p → IsRejectionFor env a read p)
      → Rejects (publish_if_updated env o r)
  unfolding publish_if_updated
  publish_if-Emits o (err e) h = Emits-silent _ _ _ (λ t. refl)
  publish_if-Emits none (ok u) h = Emits-silent _ _ _ (λ t. refl)
  publish_if-Emits (some p) (ok u) h =
      Emits-bind _ _ (attempt (send env (publish_match_rejected p))) _ (publish-Emits p (h p refl))
        λ r. Emits-silent _ _ (pure tt) (λ t. refl)

  individual-Emits :
      (i : ℕ) (ids : List Str) (ps : List MatchProposal)
      → All (IsRejectionFor env a read) ps
      → Rejects (process_individual_rejections env i ids ps)
  unfolding process_individual_rejections
  individual-Emits i [] ps u = Emits-silent _ _ _ (λ t. refl)
  individual-Emits i (id ∷ ids) ps u = Emits-bind _ _ (check_ctx env _) _ (check-Emits _) λ x.
      Emits-bind _ _ (attempt (update_match_status env id rejected)) _
        (Emits-attempt _ _ _ (update-Emits id rejected))
        λ r.
          Emits-bind _ _ (publish_if_updated env (get_elem? ps i) r) _
            (publish_if-Emits (get_elem? ps i) r (λ p h. get_elem?-All _ ps i p u h))
            λ y. individual-Emits (suc i) ids ps u

  after_batch-Emits :
      (b : Batch) (r : Result (Unit {0}))
      → All (IsRejectionFor env a read) b.events
      → Rejects (after_batch env b r)
  unfolding after_batch
  after_batch-Emits b (ok u) p = published-Emits b.events p
  after_batch-Emits b (err e) p = individual-Emits 0 b.ids b.events p

  process-Emits :
      (ids : List Str) (b : Batch)
      → All (IsRejectionFor env a read) b.events
      → Rejects (reject_unless_empty env ids b)
  unfolding reject_unless_empty reject_all
  process-Emits [] b p = Emits-silent _ _ _ (λ t. refl)
  process-Emits (id ∷ ids) b p =
      Emits-bind _ _ (attempt (batch_update_match_status env b.ids rejected)) _
        (Emits-attempt _ _ _ (batch_update-Emits b.ids rejected)) λ r. after_batch-Emits b r p

  -- What follows the reading of the matches.
  after_read-Emits : Rejects (do
    b ← collect_rejections env a read
    wrapping (str "failed to process rejection batch") (process_rejection_batch env b))
  unfolding process_rejection_batch
  after_read-Emits =
      Emits-bind_returned _ _ (collect_rejections env a read)
        (λ b. wrapping (str "failed to process rejection batch") (process_rejection_batch env b))
        (Emits-silent _ _ _ (collect-silent read))
        λ b t r.
          Emits-wrapping _ _ (str "failed to process rejection batch")
            (process_rejection_batch env b)
            (process-Emits b.ids b (
              subst (λ c. All (IsRejectionFor env a read) c.events)
                (sym (collect_returned env a read b t r))
                (events-All env a read (to_reject env a read)
                  (to_reject-All env a (λ m. IsMember m read) read (members [] read)))))

list-silent :
    (env : Env) (p : Uuid) (t : History)
    → rejected_events (list_matches_by_passenger env p t).1 ≡ rejected_events t
unfolding list_matches_by_passenger rejected_events
list-silent env p t = ground arith

unwrapped :
    {A : Type 0} (s : Str) (o : Outcome A) (x : A) → wrap_outcome s o ≡ returned x → o ≡ returned x
unwrapped s (returned y) x h = h
unwrapped s (failed e) x h = absurd (ground arith)
unwrapped s panicked x h = absurd (ground arith)

-- However the automatic rejection ends, and whatever the replies, it publishes rejections only of
-- matches that were among those it has read for the passenger, that were open there, and that are
-- not the accepted match.
pub auto_rejection-Extends :
    (env : Env) (a : Match) (t : History)
    → Extends
        (IsReadRejection env a (ctx_done ∷ t))
        (rejected_events t)
        (rejected_events (handle_auto_rejection_for_accepted_match env a t).1)
unfolding handle_auto_rejection_for_accepted_match rejected_events
auto_rejection-Extends env a t =
    let P = IsReadRejection env a (ctx_done ∷ t) in
    let h : History = ctx_done ∷ t in
    let listing = list_matches_by_passenger env a.passenger_id in
    let read = wrapping (str "failed to list passenger matches") listing in
    let rest : List Match → Exec Call (Unit {0}) = λ ms. collect_rejections env a ms >>= λ b.
    wrapping (str "failed to process rejection batch") (process_rejection_batch env b) in
    bind-Extends P rejected_events (check_ctx env (str "auto-rejection cancelled") t).0 t h
      (λ u. read >>= rest) (Extends-refl P (rejected_events t))
      λ u r.
        bind-Extends P rejected_events (read h).0 h (listing h).1 rest
          ([], list-silent env a.passenger_id h, tt)
          λ ms q.
            (Emits-map (λ p x. (ms, unwrapped _ (listing h).0 ms q, x)) rejected_events (rest ms)
                (after_read-Emits env a ms)).at
              (listing h).1
