-- ===== src/Users/Laws/Drivers.antt =====
-- The registration of a driver: RegisterDriver in services/users/usecase/user.go.
use nebengjek.Prelude.{
  ◌∙◌, ap, sym, subst, Str, str, str_eq, str_eq_iff, some, ◌≡◌, ◌≢◌, ◌∷◌, [], false, Bool-cases,
  Option-cases, inl, inr, arith,
}
use nebengjek.Exec.{ok, returned}
use nebengjek.Exec.Laws.{Result-cases, Outcome-cases}
use nebengjek.Domain.Users.{User, Driver}
use nebengjek.Utils.Msisdn.{validate_msisdn}
use nebengjek.Users.Env.{
  Env, History, begin_tx, commit_tx, rollback_tx, now, update_role, insert_driver,
}
use nebengjek.Users.Repo
use nebengjek.Http.Responses.{success_response}
use nebengjek.Users.Web
use nebengjek.Users.Usecase.Account.{register_driver, validate_user_data, validate_driver_data}
use nebengjek.Users.Laws.Origin.{IsFound, user-IsFound}

-- The row of a user who becomes a driver, and the row of the driver.
abbrev pub promoted : User → Str → User → History → Env → User
promoted given f user t env = record given {
  msisdn = f;
  role = str "driver";
  id = user.id;
  updated_at = env.clock (begin_tx ∷ t);
}

-- The two rows of a driver are written in one transaction that was acknowledged.
abbrev pub IsPromoted : Env → User → Driver → History → History → Type 0
IsPromoted env row driver h t' =
    (env.reply (update_role row) (now ∷ begin_tx ∷ h) ≡ ok tt)
    × (env.reply (insert_driver driver) (update_role row ∷ now ∷ begin_tx ∷ h) ≡ ok tt)
    × (env.reply commit_tx (insert_driver driver ∷ update_role row ∷ now ∷ begin_tx ∷ h) ≡ ok tt)
    × (t' ≡ rollback_tx ∷ commit_tx ∷ insert_driver driver ∷ update_role row ∷ now ∷ begin_tx ∷ h)

update-IsPromoted :
    (env : Env) (user : User) (driver : Driver) (t : History) (r : User)
    → user.driver_info ≡ some driver
    → (Repo.update_to_driver env user t).0 ≡ returned r
    → (r ≡ record user { updated_at = env.clock (begin_tx ∷ t) })
      × IsPromoted env
          (record user { updated_at = env.clock (begin_tx ∷ t) })
          (record driver { user_id = user.id })
          t
          (Repo.update_to_driver env user t).1
unfolding Repo.update_to_driver
update-IsPromoted env user driver t r d h =
    let row : User = record user { updated_at = env.clock (begin_tx ∷ t) } in
    let info : Driver = record driver { user_id = user.id } in
    let h1 = now ∷ begin_tx ∷ t in
    elim (Result-cases (env.reply begin_tx t)) [
      | inr (x, a) ↦ absurd (ground arith)
      | inl (u, a) ↦ elim (Result-cases (env.reply (update_role row) h1)) [
        | inr (x, b) ↦ absurd (ground arith)
        | inl (u', b) ↦
            elim (Result-cases (env.reply (insert_driver info) (update_role row ∷ h1))) [
              | inr (x, c) ↦ absurd (ground arith)
              | inl (u'', c) ↦
                  elim (Result-cases
                    (env.reply commit_tx (insert_driver info ∷ update_role row ∷ h1))) [
                      | inr (x, e) ↦ absurd (ground arith)
                      | inl (v, e) ↦
                          let run : (Repo.update_to_driver env user t).0 ≡ returned row =
                            ground arith in
                          (cc, (b, c, e, ground arith))
                    ]
            ]
      ]
    ]

differs : (s u : Str) → str_eq s u ≡ false → s ≢ u
differs s u n e = grind (arith, str_eq_iff s u)

-- A registration of a driver, and the history it leaves.
abbrev pub IsRegistered : Env → User → History → User → History → Type 0
IsRegistered env given t r t' =
    (f : Str) × (user : User) × (driver : Driver) × (h : History) × (validate_msisdn given.msisdn
      ≡ ok f)
    × IsFound env f t user
    × (user.role ≢ str "driver")
    × (given.driver_info ≡ some driver)
    × (driver.vehicle_type ≢ [])
    × (driver.vehicle_plate ≢ [])
    × (r ≡ promoted given f user h env)
    × IsPromoted env (promoted given f user h env) (record driver { user_id = user.id }) h t'

pub register_driver_returned :
    (env : Env) (given : User) (t : History) (r : User)
    → (register_driver env (some given) t).0 ≡ returned r
    → IsRegistered env given t r (register_driver env (some given) t).1
unfolding register_driver validate_user_data validate_driver_data
register_driver_returned env given t r h = elim (Result-cases (validate_msisdn given.msisdn)) [
  | inr (x, a) ↦ absurd (ground arith)
  | inl (f, a) ↦ elim (Outcome-cases (Repo.get_user_by_msisdn env f t).0) [
    | inr q ↦ absurd (ground arith)
    | inl (user, q) ↦
        let t1 = (Repo.get_user_by_msisdn env f t).1 in
        elim (Bool-cases (str_eq user.role (str "driver"))) [
          | inl y ↦ absurd (ground arith)
          | inr n ↦ elim (Option-cases given.driver_info) [
            | inl d ↦ absurd (ground arith)
            | inr (driver, d) ↦ elim (Bool-cases (str_eq f [])) [
              | inl y ↦ absurd (ground arith)
              | inr k ↦ elim (Bool-cases (str_eq driver.vehicle_type [])) [
                | inl y ↦ absurd (ground arith)
                | inr v ↦ elim (Bool-cases (str_eq driver.vehicle_plate [])) [
                  | inl y ↦ absurd (ground arith)
                  | inr w ↦
                      let row : User = record given {
                        msisdn = f;
                        role = str "driver";
                        id = user.id;
                      } in
                      let same : register_driver env (some given) t
                          ≡ Repo.update_to_driver env row t1 =
                        ground arith in
                      let done =
                        subst
                          (λ o.
                            (r ≡ promoted given f user t1 env)
                            × IsPromoted env (promoted given f user t1 env)
                                (record driver { user_id = user.id }) t1 o.1)
                          (sym same)
                          (update-IsPromoted env row driver t1 r d
                            (ap (λ o. o.0) (sym same) ∙ h)) in
                      (
                        f,
                        user,
                        driver,
                        t1,
                        a,
                        user-IsFound env f t user q,
                        differs user.role (str "driver") n,
                        d,
                        differs driver.vehicle_type [] v,
                        differs driver.vehicle_plate [] w,
                        done.0,
                        done.1,
                      )
                ]
              ]
            ]
          ]
        ]
  ]
]

-- A request to register a driver that is answered with success was for a number in a valid form,
-- which the table shows for a user who is no driver, and a vehicle with a type and a plate. The role
-- of that very user and the vehicle were written in one transaction that was acknowledged, and the
-- answer is the row of the user.
pub driver_created :
    (env : Env) (given : User) (t : History) (text : Str) (r : User)
    → (Web.register_driver env (ok given) t).0 ≡ returned (success_response 201 text r)
    → IsRegistered env given t r (Web.register_driver env (ok given) t).1
unfolding Web.register_driver
driver_created env given t text r h = elim (Outcome-cases (register_driver env (some given) t).0) [
  | inl (u, q) ↦
      let same : Web.register_driver env (ok given) t ≡ (
        returned (success_response 201 (str "Driver registered successfully") u),
        (register_driver env (some given) t).1,
      ) =
        ground arith in
      let named : u ≡ r = ground arith in
      subst (λ o. IsRegistered env given t r o.1) (sym same)
        (register_driver_returned env given t r (q ∙ ap returned named))
  | inr (inl (e, q)) ↦ absurd (ground arith)
  | inr (inr q) ↦ absurd (ground arith)
]
