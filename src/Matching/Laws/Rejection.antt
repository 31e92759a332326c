-- ===== src/Matching/Laws/Rejection.antt =====
-- The automatic rejection of a passenger's other matches, handleAutoRejectionForAcceptedMatch.
use nebengjek.Prelude.{
  ap, str, zero, none, Option, inr, inl, suc, some, arith, ◌<◌, refl, ◌∷◌, ◌≢◌, ◌≤◌, length, ◌+◌,
  map, Str, List, ℕ, select, [], ◌≡◌,
}
use nebengjek.Matching.Usecase.Reject.{
  reject_all, process_rejection_batch, reject_unless_empty,
  handle_auto_rejection_for_accepted_match, after_batch, publish_rejection_events, check_ctx,
  publish_if_updated, get_elem?, create_rejection_event, Batch, is_rejectable, collect_rejections,
  add_rejection, process_individual_rejections,
}
use nebengjek.Matching.Env.{publish_match_rejected, send, ctx_done, History, Env}
use nebengjek.Domain.Matches.{rejected, MatchStatus, MatchProposal, Match}
use nebengjek.Exec.{panicked, wrapping, attempt, ok, err, Result, returned}
use nebengjek.Matching.Repo.Status.{
  list_matches_by_passenger, batch_update_match_status, update_match_status,
}
use nebengjek.Exec.Laws.{Outcome-cases}
use nebengjek.Exec.Settles.{
  Settles-pure, Settles-bind_returned, Settles-wrapping, Settles-attempt, Settles-bind,
  settle_rules, Settles,
}
use nebengjek.Domain.Places.{Uuid}

-- The matches that are to be rejected, in order.
abbrev pub to_reject : Env → Match → List Match → List Match
to_reject env a ms = select (is_rejectable env a) ms

abbrev pub batch_of : Env → List Match → Batch
batch_of env ms = record {
  ids = map (λ m. env.uuid_string m.id) ms;
  events = map (create_rejection_event env) ms;
}

add_rejection_lem :
    (env : Env) (a m : Match) (ms : List Match)
    → add_rejection env a m (batch_of env (to_reject env a ms))
      ≡ batch_of env (to_reject env a (m ∷ ms))
unfolding add_rejection select
add_rejection_lem env a m ms = ground arith

-- The loop collects exactly the rejectable matches, one id and one event each, in the order of the
-- list, or it ends early because the context was done.
pub collect_returned :
    (env : Env) (a : Match) (ms : List Match) (b : Batch) (t : History)
    → (collect_rejections env a ms t).0 ≡ returned b
    → b ≡ batch_of env (to_reject env a ms)
unfolding collect_rejections select
collect_returned env a [] b t h = cc
collect_returned env a (m ∷ ms) b t h =
    elim (Outcome-cases (collect_rejections env a ms (ctx_done ∷ t)).0) [
      | inl (b', r) ↦
          ground
            (arith, collect_returned env a ms b' (ctx_done ∷ t) r, add_rejection_lem env a m ms)
      | inr (inl (e, r)) ↦ ground arith
      | inr (inr r) ↦ ground arith
    ]

-- Aligned slices: `events[i]` is there for every id.
get_elem?-some :
    {A : Type 0} (xs : List A) (i : ℕ) → i < length xs → (a : A) × (get_elem? xs i ≡ some a)
get_elem?-some [] i h = elim h [ ]
get_elem?-some (x ∷ xs) zero h = (x, refl)
get_elem?-some (x ∷ xs) (suc i) h = get_elem?-some xs i (omega arith)

update-Settles : (env : Env) (id : Str) (s : MatchStatus) → Settles (update_match_status env id s)
unfolding update_match_status
update-Settles env id s = search settle_rules depth 9

publish-Settles :
    (env : Env) (o : Option MatchProposal) (e : MatchProposal) (r : Result (Unit {0}))
    → o ≡ some e
    → Settles (publish_if_updated env o r)
unfolding publish_if_updated
publish-Settles env o e (err x) h = search settle_rules
publish-Settles env none e (ok u) h = absurd (cc)
publish-Settles env (some p) e (ok u) h = search settle_rules

pub individual-Settles :
    (env : Env) (i : ℕ) (ids : List Str) (events : List MatchProposal)
    → i + length ids ≤ length events
    → Settles (process_individual_rejections env i ids events)
unfolding process_individual_rejections
individual-Settles env i [] events le = search settle_rules
individual-Settles env i (id ∷ ids) events le =
    let (e, found) = get_elem?-some events i (omega arith) in
    let next = individual-Settles env (suc i) ids events (omega arith) in
    Settles-bind (check_ctx env (str "auto-rejection cancelled during fallback updates")) _
      (search settle_rules)
      λ _.
        Settles-bind (attempt (update_match_status env id rejected)) _
          (Settles-attempt _ (update-Settles env id rejected))
          λ r.
            Settles-bind (publish_if_updated env (get_elem? events i) r) _
              (publish-Settles env (get_elem? events i) e r found) λ _. next

collect-Settles : (env : Env) (a : Match) (ms : List Match) → Settles (collect_rejections env a ms)
unfolding collect_rejections
collect-Settles env a [] = search settle_rules
collect-Settles env a (m ∷ ms) =
    Settles-bind (check_ctx env (str "auto-rejection cancelled during processing")) _
      (search settle_rules)
      λ _.
        Settles-bind (collect_rejections env a ms) _ (collect-Settles env a ms)
          λ b. Settles-pure (add_rejection env a m b)

publish_events-Settles :
    (env : Env) (events : List MatchProposal) → Settles (publish_rejection_events env events)
unfolding publish_rejection_events
publish_events-Settles env [] = search settle_rules
publish_events-Settles env (e ∷ events) =
    Settles-bind (check_ctx env (str "auto-rejection cancelled during event publishing")) _
      (search settle_rules)
      λ _.
        Settles-bind (attempt (send env (publish_match_rejected e))) _ (search settle_rules)
          λ _. publish_events-Settles env events

batch_update-Settles :
    (env : Env) (ids : List Str) (s : MatchStatus) → Settles (batch_update_match_status env ids s)
unfolding batch_update_match_status
batch_update-Settles env [] s = search settle_rules
batch_update-Settles env (id ∷ ids) s = search settle_rules depth 9

list-Settles : (env : Env) (p : Uuid) → Settles (list_matches_by_passenger env p)
unfolding list_matches_by_passenger
list-Settles env p = search settle_rules depth 9

after_batch-Settles :
    (env : Env) (b : Batch) (r : Result (Unit {0}))
    → length b.ids ≤ length b.events
    → Settles (after_batch env b r)
unfolding after_batch
after_batch-Settles env b (ok u) le = publish_events-Settles env b.events
after_batch-Settles env b (err e) le = individual-Settles env 0 b.ids b.events (omega arith)

reject-Settles :
    (env : Env) (ids : List Str) (b : Batch)
    → length b.ids ≤ length b.events
    → Settles (reject_unless_empty env ids b)
unfolding reject_unless_empty reject_all
reject-Settles env [] b le = search settle_rules
reject-Settles env (id ∷ ids) b le =
    Settles-bind (attempt (batch_update_match_status env b.ids rejected)) _
      (Settles-attempt _ (batch_update-Settles env b.ids rejected))
      λ r. after_batch-Settles env b r le

process_batch-Settles :
    (env : Env) (b : Batch)
    → length b.ids ≤ length b.events
    → Settles (process_rejection_batch env b)
unfolding process_rejection_batch
process_batch-Settles env b le = reject-Settles env b.ids b le

length-batch_of :
    (env : Env) (ms : List Match) → length (batch_of env ms).ids ≡ length (batch_of env ms).events
length-batch_of env [] = refl
length-batch_of env (m ∷ ms) = ap suc (length-batch_of env ms)

pub auto_rejection-Settles :
    (env : Env) (a : Match) → Settles (handle_auto_rejection_for_accepted_match env a)
unfolding handle_auto_rejection_for_accepted_match
auto_rejection-Settles env a =
    Settles-bind (check_ctx env (str "auto-rejection cancelled")) _ (search settle_rules) λ _.
      Settles-bind
        (wrapping (str "failed to list passenger matches")
          (list_matches_by_passenger env a.passenger_id))
        _ (Settles-wrapping _ _ (list-Settles env a.passenger_id))
        λ ms.
          Settles-bind_returned (collect_rejections env a ms)
            (λ b.
              wrapping (str "failed to process rejection batch") (process_rejection_batch env b))
            (collect-Settles env a ms)
            λ b t r.
              let aligned : length b.ids ≤ length b.events =
                rw (collect_returned env a ms b t r)
                  (omega (arith, length-batch_of env (to_reject env a ms))) in
              Settles-wrapping (str "failed to process rejection batch")
                (process_rejection_batch env b) (process_batch-Settles env b aligned)

-- The goroutine of an automatic rejection never panics, whatever the replies: the events that the
-- fallback indexes are there.
pub auto_rejection-ne-panicked :
    (env : Env) (a : Match) (t : History)
    → (handle_auto_rejection_for_accepted_match env a t).0 ≢ panicked
auto_rejection-ne-panicked env a t = (auto_rejection-Settles env a).at t
