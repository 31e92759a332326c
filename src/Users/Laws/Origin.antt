-- ===== src/Users/Laws/Origin.antt =====
-- Where the user of a request comes from: the users table, or a new row.
use nebengjek.Prelude.{
  sym, subst, ◌⊎◌, Str, str, none, ◌≡◌, refl, ◌∷◌, true, Bool-cases, inl, inr, arith, ap, ◌∙◌,
}
use nebengjek.Exec.{settle, attempt, ok, err, Error, returned}
use nebengjek.Exec.Laws.{Result-cases, Outcome-cases, bind-returned}
use nebengjek.Domain.Users.{User}
use nebengjek.Users.Env.{
  rollback_tx, commit_tx, new_uuid, select_driver, begin_tx, select_user_by_msisdn, insert_user,
  Env, History, now,
}
use nebengjek.Users.Repo
use nebengjek.Users.Repo.{is_no_rows, is_driver, key_user_otp}
use nebengjek.Users.Usecase.Auth.{get_or_create_user, user_or_create}

-- A row of the users table for a number, and the user that it describes.
abbrev pub IsFound : Env → Str → History → User → Type 0
IsFound env f t user =
    (row : User) × (env.user_reply (select_user_by_msisdn f) t ≡ ok row)
    × (user.id ≡ row.id)
    × (user.msisdn ≡ row.msisdn)
    × (user.role ≡ row.role)

-- The insertion of a user is the last transaction, and it was committed.
abbrev pub IsInserted : Env → User → History → Type 0
IsInserted env user t' =
    (h : History) × (env.reply (insert_user user) (begin_tx ∷ h) ≡ ok tt)
    × (env.reply commit_tx (insert_user user ∷ begin_tx ∷ h) ≡ ok tt)
    × (t' ≡ rollback_tx ∷ commit_tx ∷ insert_user user ∷ begin_tx ∷ h)

pub user-IsFound :
    (env : Env) (f : Str) (t : History) (user : User)
    → (Repo.get_user_by_msisdn env f t).0 ≡ returned user
    → IsFound env f t user
unfolding Repo.get_user_by_msisdn Repo.get_driver_info
user-IsFound env f t user h = elim (Result-cases (env.user_reply (select_user_by_msisdn f) t)) [
  | inr (x, a) ↦ absurd (ground arith)
  | inl (row, a) ↦ elim (Bool-cases (is_driver row)) [
    | inr n ↦ (row, a, ground arith, ground arith, ground arith)
    | inl y ↦
        elim (Result-cases
          (env.driver_reply (select_driver row.id) (select_user_by_msisdn f ∷ t))) [
            | inl (d, b) ↦ (row, a, ground arith, ground arith, ground arith)
            | inr (x, b) ↦ elim (Bool-cases (is_no_rows x)) [
              | inl c ↦ (row, a, ground arith, ground arith, ground arith)
              | inr c ↦ absurd (ground arith)
            ]
          ]
  ]
]

pub create-IsInserted :
    (env : Env) (user made : User) (t : History)
    → (Repo.create_user env user t).0 ≡ returned made
    → (made.msisdn ≡ user.msisdn)
      × (made.role ≡ user.role)
      × IsInserted env made (Repo.create_user env user t).1
unfolding Repo.create_user
create-IsInserted env user made t h =
    let row : User = record user {
      id = env.fresh_uuid t;
      created_at = env.clock (new_uuid ∷ t);
      updated_at = env.clock (new_uuid ∷ t);
    } in
    let before = now ∷ new_uuid ∷ t in
    elim (Result-cases (env.reply begin_tx before)) [
      | inr (x, a) ↦ absurd (ground arith)
      | inl (u, a) ↦ elim (Result-cases (env.reply (insert_user row) (begin_tx ∷ before))) [
        | inr (x, b) ↦ absurd (ground arith)
        | inl (u', b) ↦
            elim (Result-cases (env.reply commit_tx (insert_user row ∷ begin_tx ∷ before))) [
              | inr (x, c) ↦ absurd (ground arith)
              | inl (u'', c) ↦
                  let same : row ≡ made = ground arith in
                  subst
                    (λ m.
                      (m.msisdn ≡ user.msisdn)
                      × (m.role ≡ user.role)
                      × IsInserted env m (Repo.create_user env user t).1)
                    same (refl, refl, (before, b, c, ground arith))
            ]
      ]
    ]

abbrev pub passenger_of : Env → Str → History → User
passenger_of env f t = record {
  id = 0;
  msisdn = f;
  full_name = str "";
  role = str "passenger";
  created_at = env.clock t;
  updated_at = env.clock (now ∷ t);
  is_active = true;
  driver_info = none;
  rating = 0;
}

created-IsInserted :
    (env : Env) (f : Str) (e : Error) (t : History) (user : User)
    → (user_or_create env f (err e) t).0 ≡ returned user
    → (user.msisdn ≡ f)
      × (user.role ≡ str "passenger")
      × IsInserted env user (user_or_create env f (err e) t).1
created-IsInserted env f e t user h =
    elim (Outcome-cases (Repo.create_user env (passenger_of env f t) (now ∷ now ∷ t)).0) [
      | inl (u, q) ↦
          create-IsInserted env (passenger_of env f t) user (now ∷ now ∷ t) (ground arith)
      | inr (inl (x, q)) ↦ absurd (ground arith)
      | inr (inr q) ↦ absurd (ground arith)
    ]

-- The user of a sign-in is the row of the number, or a passenger with that number who was created
-- when the row could not be read.
pub get_or_create-origin :
    (env : Env) (f : Str) (t : History) (user : User)
    → (get_or_create_user env f t).0 ≡ returned user
    → IsFound env f t user
      ⊎ ((user.msisdn ≡ f)
          × (user.role ≡ str "passenger")
          × IsInserted env user (get_or_create_user env f t).1)
unfolding get_or_create_user
get_or_create-origin env f t user h = elim (Outcome-cases (Repo.get_user_by_msisdn env f t).0) [
  | inl (u, q) ↦ inl (user-IsFound env f t user (ground arith))
  | inr (inr q) ↦ absurd (ground arith)
  | inr (inl (e, q)) ↦
      let same =
        bind-returned (attempt (Repo.get_user_by_msisdn env f)) (user_or_create env f) t (err e)
          (ap settle q) in
      let (a, b, c) =
        created-IsInserted env f e (Repo.get_user_by_msisdn env f t).1 user
          (ap (λ r. r.0) (sym same) ∙ h) in
      inr (a, b, rw same c)
]
