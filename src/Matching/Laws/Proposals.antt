-- ===== src/Matching/Laws/Proposals.antt =====
-- Proposing matches: CreateMatch of the repository, and the loop over the nearby drivers.
use nebengjek.Prelude.{
  reverse-cons, ap, ◌∙◌, ◌++◌, map, arith, reverse, ◌+◌, Option, ◌∷◌, List, if◌then◌else◌, Str,
  refl, [], ◌≡◌,
}
use nebengjek.Matching.Repo.Create
use nebengjek.Matching.Usecase.Propose.{str_to_uuid, propose_to_all, propose_to}
use nebengjek.Matching.History.{returns, commits}
use nebengjek.Matching.Env.{new_uuid, select_pair, Call, Env, History}
use nebengjek.Domain.Matches.{NearbyUser, pending, MatchDto, to_match, to_dto, Match}
use nebengjek.Matching.Repo.Create.{without_target, set_up}
use nebengjek.Exec.{Outcome, ok, is_ok, returned}
use nebengjek.Domain.Places.{Location, Uuid}
use nebengjek.Exec.Laws.{bind-returned}

abbrev pub look_up : Match → Call
look_up m = select_pair m.driver_id m.passenger_id pending

-- The match that is inserted: a fresh id, the time as `updated_at`, and the given creation time and
-- status unless they are missing.
abbrev pub inserted : Env → Match → History → Match
inserted env m t = set_up (env.fresh_uuid (look_up m ∷ t)) (env.clock (new_uuid ∷ look_up m ∷ t)) m

-- CreateMatch commits a transaction exactly if it returns a match that it has not found.
pub create_match-commits :
    (env : Env) (m : Match) (t : History)
    → commits env (Create.create_match env m t).1
      ≡ (if is_ok (env.row_reply (look_up m) t) then 0 else returns (Create.create_match env m t).0)
        + commits env t
unfolding Create.create_match commits
create_match-commits env m t = ground arith

reused :
    (env : Env) (m : Match) (d : MatchDto) (t : History)
    → env.row_reply (look_up m) t ≡ ok d
    → Create.create_match env m t ≡ (returned (to_match (without_target d)), look_up m ∷ t)
unfolding Create.create_match
reused env m d t e = ground arith

-- Proposing the same pair twice: if the table shows the row that was just inserted, the second
-- creation returns the match of the first, by its id, and commits nothing.
pub create_match_twice :
    (env : Env) (m m2 m' : Match) (t : History)
    → m2.driver_id ≡ m.driver_id
    → m2.passenger_id ≡ m.passenger_id
    → (Create.create_match env m t).0 ≡ returned m'
    → env.row_reply (look_up m) (Create.create_match env m t).1 ≡ ok (to_dto m')
    → let t' = (Create.create_match env m t).1 in
      (m'' : Match) × ((Create.create_match env m2 t').0 ≡ returned m'')
      × (m''.id ≡ m'.id)
      × (commits env (Create.create_match env m2 t').1 ≡ commits env t')
unfolding commits to_dto to_match
create_match_twice env m m2 m' t d p h shown =
    let t' = (Create.create_match env m t).1 in
    let found : env.row_reply (look_up m2) t' ≡ ok (to_dto m') = rw (d, p) shown in
    let same = reused env m2 (to_dto m') t' found in
    (
      to_match (without_target (to_dto m')),
      ap (λ (x : Outcome Match × History). x.0) same,
      refl,
      rw same,
    )

-- The pairs that were looked up, the newest first: one for each creation that was tried.
pub tried : History → List (Uuid × Uuid)
tried [] = []
tried (select_pair d p s ∷ t) = (d, p) ∷ tried t
tried (c ∷ t) = tried t

-- The pair of a found driver and the passenger.
abbrev pub pair_of : Env → Str → NearbyUser → Uuid × Uuid
pair_of env p driver = (str_to_uuid env driver.id, str_to_uuid env p)

tried-propose_to :
    (env : Env) (p : Str) (l : Location) (target : Option Location) (driver : NearbyUser)
    (t : History)
    → ((propose_to env p l target driver t).0 ≡ returned tt)
      × (tried (propose_to env p l target driver t).1 ≡ pair_of env p driver ∷ tried t)
unfolding propose_to tried Create.create_match
tried-propose_to env p l target driver t = ground arith

-- The loop over the drivers always succeeds, and it tries a match with every driver, in order,
-- whatever happened to the earlier ones.
pub propose_to_all_tries :
    (env : Env) (p : Str) (l : Location) (target : Option Location) (drivers : List NearbyUser)
    (t : History)
    → ((propose_to_all env p l target drivers t).0 ≡ returned tt)
      × (tried (propose_to_all env p l target drivers t).1
          ≡ reverse (map (pair_of env p) drivers) ++ tried t)
unfolding propose_to_all
propose_to_all_tries env p l target [] t = (refl, refl)
propose_to_all_tries env p l target (d ∷ ds) t =
    let first = tried-propose_to env p l target d t in
    let rest = propose_to_all_tries env p l target ds (propose_to env p l target d t).1 in
    let pairs = map (pair_of env p) ds in
    let step =
      bind-returned (propose_to env p l target d) (λ _. propose_to_all env p l target ds) t tt
        first.0 in
    (
      ap (λ (x : Outcome (Unit {0}) × History). x.0) step ∙ rest.0,
      ap (λ (x : Outcome (Unit {0}) × History). tried x.1) step
          ∙ (rest.1
              ∙ (ap (λ u. reverse pairs ++ u) (first.1)
                  ∙ reverse-cons (pair_of env p d) pairs (tried t))),
    )
