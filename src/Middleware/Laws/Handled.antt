-- ===== src/Middleware/Laws/Handled.antt =====
-- What the handler around a request makes of the handler in it: Handler of
-- internal/pkg/middleware/unified.go.
use nebengjek.Prelude.{
  ◌++◌, ◌∙◌, ap, inr, inl, arith, ◌∷◌, true, Bool-cases, some, leb, none, Bool, false, Option,
  if◌then◌else◌, ◌≡◌, ℕ, List, refl, [], Str, str, str_eq,
}
use nebengjek.Exec.{Ok, ok, err}
use nebengjek.Middleware.Recovery.{
  replied, panic_entry, log_request, handle_panic, debug, text, warn, left, told_txn, closed,
  log_if, request_entry, transaction, error, Entry, panic_reply, entered, returned, Level, Info,
  Response, panicking, Config, Field, Host, Ending, Exchange, handler,
}
use nebengjek.Middleware.Contexts.{or_new}
use nebengjek.Middleware.Tracing.{
  notice_error, end_transaction, set_web_response, TxnCall, Transaction,
}

unfoldable pub field_of : Str → List (Str × Field) → Option Field
field_of name [] = none
field_of name ((n, v) ∷ fields) = if str_eq n name then some v else field_of name fields

-- The level at which a request belongs in the log, by how it ended.
abbrev pub severity : Ending → ℕ → Level
severity (panicking r) status = error
severity (returned (err e)) status = error
severity (returned (ok u)) status =
    if leb 500 status then error else if leb 400 status then warn else debug

-- `c.JSON` on a response that is not committed yet: it is then, with the status.
abbrev pub CommitsJson : Host → Type 0
CommitsJson h =
    (code : ℕ) (fields : List (Str × Str)) (r : Response)
    → r.committed ≡ false
    → ((h.json code fields r).committed ≡ true) × ((h.json code fields r).status ≡ code)

-- The status that the client sees: what the handler has sent, or 500 after a panic before that.
abbrev pub seen_status : Ending → Response → ℕ
seen_status (panicking r) response = if response.committed then response.status else 500
seen_status (returned result) response = response.status

abbrev pub result_of : Ending → Ok
result_of (panicking r) = ok tt
result_of (returned result) = result

module _ (h : Host) (c : Config) (info : Info) where
  abbrev pub request_id_of : Str
  request_id_of = or_new h.new_uuid (info.header (str "X-Request-ID"))

  -- What the handler in it has left.
  abbrev pub inside : (Exchange → Ending × Exchange) → Exchange → Ending × Exchange
  inside next x = next (entered h c info request_id_of (transaction h c info c.tracer) x)

  pub record Handled (z : Ending × Exchange) (w : Ok × Exchange) : Type 0 where
    pub result : w.0 ≡ result_of z.0
    pub status : w.1.response.status ≡ seen_status z.0 z.1.response
    pub entry : Entry
    pub logged : w.1.log ≡ (if c.has_logger then entry ∷ z.1.log else z.1.log)
    pub level : entry.level ≡ severity z.0 z.1.response.status
    pub named : field_of (str "request_id") entry.fields ≡ some (text request_id_of)

  told-log :
      (txn : Option Transaction) (t : TxnCall) (x : Exchange)
      → ((told_txn txn t x).log ≡ x.log) × ((told_txn txn t x).response ≡ x.response)
  told-log none t x = (refl, refl)
  told-log (some txn) t x = (refl, refl)

  log_if-log :
      (b : Bool) (e : Entry) (x : Exchange)
      → ((log_if b e x).log ≡ (if b then e ∷ x.log else x.log))
        × ((log_if b e x).response ≡ x.response)
  log_if-log true e x = (refl, refl)
  log_if-log false e x = (refl, refl)

  entry_level :
      (id : Str) (result : Ok) (r : Response)
      → (request_entry h c info id result r).level ≡ severity (returned result) r.status
  unfolding request_entry
  entry_level id (err e) r = refl
  entry_level id (ok u) r = ground arith

  entry_named :
      (id : Str) (result : Ok) (r : Response)
      → field_of (str "request_id") (request_entry h c info id result r).fields ≡ some (text id)
  unfolding request_entry field_of str_eq str
  entry_named id (err e) r = refl
  entry_named id (ok u) r = elim (Bool-cases (leb 400 r.status)) [
    | inl y ↦ rw y refl
    | inr n ↦ rw n refl
  ]

  json_status :
      (commits : CommitsJson h) (fields : List (Str × Str)) (r : Response) (b : Bool)
      → r.committed ≡ b
      → (if b then r else h.json 500 fields r).status ≡ (if b then r.status else 500)
  json_status commits fields r true e = refl
  json_status commits fields r false e = (commits 500 fields r e).1

  left-Handled :
      (commits : CommitsJson h) (txn : Option Transaction) (e : Ending) (z : Exchange)
      → Handled (e, z) (closed h c info txn (left h c info request_id_of txn (e, z)))
  unfolding handle_panic field_of str_eq str
  left-Handled commits txn (returned result) z =
      let (p, q) = told-log txn set_web_response (log_request h c info request_id_of result z) in
      let (u, v) =
        told-log txn end_transaction
          (told_txn txn set_web_response (log_request h c info request_id_of result z)) in
      let (l, m) =
        log_if-log c.has_logger (request_entry h c info request_id_of result z.response) z in
      record {
        result = refl;
        status = ap (λ r. r.status) (v ∙ q ∙ m);
        entry = request_entry h c info request_id_of result z.response;
        logged = u ∙ p ∙ l;
        level = entry_level request_id_of result z.response;
        named = entry_named request_id_of result z.response;
      }
  left-Handled commits txn (panicking s) z =
      let e = panic_entry h c info s request_id_of z.response.writer in
      let x = log_if c.has_logger e z in
      let y = told_txn txn (notice_error (str "panic: " ++ s)) x in
      let (p, q) = told-log txn (notice_error (str "panic: " ++ s)) x in
      let (u, v) = told-log txn end_transaction (replied h c info request_id_of y) in
      let (l, m) = log_if-log c.has_logger e z in
      record {
        result = refl;
        status =
            ap (λ r. r.status) (v ∙ ap (λ r. panic_reply h c info request_id_of r) (q ∙ m))
            ∙ json_status commits _ z.response z.response.committed refl;
        entry = e;
        logged = u ∙ p ∙ l;
        level = refl;
        named = refl;
      }

  -- However the handler of a request ends, its caller gets an error only if that handler returned
  -- it, never a panic. After a panic the client sees the status 500, unless an answer was already
  -- sent. Where there is a logger, exactly one entry is added: it has the request's identity and
  -- the level error for a panic, an error or a status from 500, warn from 400, and debug otherwise.
  -- This is for a `c.JSON` that commits the response with its status.
  pub handler-Handled :
      (commits : CommitsJson h) (next : Exchange → Ending × Exchange) (x : Exchange)
      → Handled (inside next x) (handler h c info next x)
  unfolding handler
  handler-Handled commits next x =
      left-Handled commits (transaction h c info c.tracer) (inside next x).0 (inside next x).1
