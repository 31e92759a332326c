-- ===== src/Users/Laws/Registry.antt =====
-- The map of clients while connections come and go, in any order: the calls of HandleWebSocket and
-- its deferred calls in services/users/handler/websocket/echo_handler.go, interleaved.
use nebengjek.Prelude.{
  sym, ◌∙◌, subst, ap, Str, str_eq, str_eq_iff, List, [], ◌∷◌, some, none, ◌≡◌, ◌≢◌, refl,
  Bool-cases, inl, inr, ◌==◌, arith, if◌then◌else◌, reverse,
}
use nebengjek.Domain.Users.{WsMessage}
use nebengjek.Users.Env.{Conn, Env, History, Call, add_client, remove_client, ws_close}
use nebengjek.Users.Socket.Clients.{clients_after, with_client, without_client, client_of}
use nebengjek.Users.Socket.Serve.{serve_client}
use nebengjek.Users.Laws.Clients.{
  client-without, client-without_same, client-none, client-with, client-with_ne,
}
use nebengjek.Users.Laws.Programs.{registry_calls, serve_client-registry}

-- What all connections have done to the map so far, the newest first, and what each has still to do.
pub record Hub : Type 0 where
  pub done : History
  pub remaining : Conn → List Call

abbrev pub set_remaining : (Conn → List Call) → Conn → List Call → Conn → List Call
set_remaining remaining ws cs ws' = if ws' == ws then cs else remaining ws'

-- The connection `ws` does its next call, after which `rest` remains.
abbrev pub advanced : Hub → Conn → Call → List Call → Hub
advanced h ws c rest = record { done = c ∷ h.done; remaining = set_remaining h.remaining ws rest }

abbrev head_or : Call → List Call → Call
head_or c [] = c
head_or c (x ∷ xs) = x

abbrev tail_of : List Call → List Call
tail_of [] = []
tail_of (x ∷ xs) = xs

set_remaining_same :
    (remaining : Conn → List Call) (ws : Conn) (cs : List Call)
    → set_remaining remaining ws cs ws ≡ cs
set_remaining_same remaining ws cs = ground arith

set_remaining_ne :
    (remaining : Conn → List Call) (ws ws' : Conn) (cs : List Call)
    → ws' ≢ ws
    → set_remaining remaining ws cs ws' ≡ remaining ws'
set_remaining_ne remaining ws ws' cs n = ground arith

-- How far a connection has come: it waits for its handshake, is served, has been taken off the map,
-- and is closed.
pub data Phase : Type 0 where
  waiting serving leaving closed : Phase

module _ (env : Env) (owner : Conn → Str) (msgs : Conn → List WsMessage) where
  -- What serving a connection does to the map, the oldest first.
  unfoldable pub program : Conn → List Call
  program ws = reverse (registry_calls (serve_client env (owner ws) ws (msgs ws) []).1)

  unfoldable pub start : Hub
  start = record { done = []; remaining = program }

  -- One connection does its next call, whichever it is.
  pub data Step : Hub → Hub → Type 0 where
    advance :
        (h : Hub) (ws : Conn) (c : Call) (rest : List Call)
        → h.remaining ws ≡ c ∷ rest
        → Step h (advanced h ws c rest)

  pub data Reachable : Hub → Type 0 where
    begin : Reachable start
    next : (h h' : Hub) → Reachable h → Step h h' → Reachable h'

  abbrev rest_of : Phase → Conn → List Call
  rest_of waiting ws = add_client (owner ws) ws ∷ remove_client (owner ws) ∷ ws_close ws ∷ []
  rest_of serving ws = remove_client (owner ws) ∷ ws_close ws ∷ []
  rest_of leaving ws = ws_close ws ∷ []
  rest_of closed ws = []

  pub program-calls :
      (ws : Conn)
      → program ws ≡ add_client (owner ws) ws ∷ remove_client (owner ws) ∷ ws_close ws ∷ []
  unfolding program registry_calls
  program-calls ws = ap reverse (serve_client-registry env (owner ws) ws (msgs ws) [])

  abbrev InPhase : Hub → Type 0
  InPhase h = (ws : Conn) → (p : Phase) × (h.remaining ws ≡ rest_of p ws)

  -- Who is on the map is on it with an own connection that is being served.
  abbrev OnMap : Hub → Type 0
  OnMap h =
      (u : Str) (ws : Conn)
      → client_of u (clients_after h.done) ≡ some ws
      → (owner ws ≡ u) × (h.remaining ws ≡ rest_of serving ws)

  accept-OnMap :
      (h : Hub) (ws : Conn)
      → OnMap h
      → OnMap (advanced h ws (add_client (owner ws) ws) (rest_of serving ws))
  unfolding clients_after
  accept-OnMap h ws s u ws' e = elim (Bool-cases (str_eq (owner ws) u)) [
    | inl y ↦
        let same : ws ≡ ws' =
          grind
            (arith, client-with (owner ws) ws (clients_after h.done), str_eq_iff (owner ws) u) in
        subst
          (λ x.
            (owner x ≡ u)
            × (set_remaining h.remaining ws (rest_of serving ws) x ≡ rest_of serving x))
          same
          ((str_eq_iff (owner ws) u).0 y, set_remaining_same h.remaining ws (rest_of serving ws))
    | inr n ↦
        let old = s u ws' (
          grind (
            arith,
            client-with_ne (owner ws) u ws (clients_after h.done),
            str_eq_iff (owner ws) u,
          )) in
        (old.0, elim (Bool-cases (ws' == ws)) [ inl y ↦ ground arith | inr k ↦ ground arith ])
  ]

  leave-OnMap :
      (h : Hub) (ws : Conn)
      → OnMap h
      → OnMap (advanced h ws (remove_client (owner ws)) (rest_of leaving ws))
  unfolding clients_after
  leave-OnMap h ws s u ws' e = elim (Bool-cases (str_eq (owner ws) u)) [
    | inl y ↦ absurd (
        grind
          (arith, client-without_same (owner ws) (clients_after h.done), str_eq_iff (owner ws) u))
    | inr n ↦
        let old = s u ws' (
          grind
            (arith, client-without (owner ws) u (clients_after h.done), str_eq_iff (owner ws) u)) in
        let other : ws' ≢ ws = λ q. grind (arith, str_eq_iff (owner ws) u) in
        (old.0, set_remaining_ne h.remaining ws ws' _ other ∙ old.1)
  ]

  close-OnMap :
      (h : Hub) (ws : Conn)
      → OnMap h
      → h.remaining ws ≡ rest_of leaving ws
      → OnMap (advanced h ws (ws_close ws) [])
  unfolding clients_after
  close-OnMap h ws s p u ws' e =
      let old = s u ws' e in
      let other : ws' ≢ ws = λ q. grind arith in
      (old.0, set_remaining_ne h.remaining ws ws' _ other ∙ old.1)

  advanced-InPhase :
      (h : Hub) (ws : Conn) (c : Call) (p : Phase)
      → InPhase h
      → InPhase (advanced h ws c (rest_of p ws))
  advanced-InPhase h ws c p s ws' = elim (Bool-cases (ws' == ws)) [
    | inl y ↦ (p, ground arith)
    | inr n ↦ ((s ws').0, ground arith)
  ]

  unfoldable Advanced : Hub → Conn → Call → List Call → Type 0
  Advanced h ws c rest = InPhase (advanced h ws c rest) × OnMap (advanced h ws c rest)

  after-Advanced :
      (h : Hub) (ws : Conn) (c : Call) (rest : List Call) (p : Phase)
      → InPhase h
      → OnMap h
      → h.remaining ws ≡ rest_of p ws
      → rest_of p ws ≡ c ∷ rest
      → Advanced h ws c rest
  unfolding Advanced
  after-Advanced h ws c rest waiting i o q e =
      subst (λ x. Advanced h ws x rest) (ap (head_or c) e)
        (subst (λ x. Advanced h ws (add_client (owner ws) ws) x) (ap tail_of e)
          (advanced-InPhase h ws (add_client (owner ws) ws) serving i, accept-OnMap h ws o))
  after-Advanced h ws c rest serving i o q e =
      subst (λ x. Advanced h ws x rest) (ap (head_or c) e)
        (subst (λ x. Advanced h ws (remove_client (owner ws)) x) (ap tail_of e)
          (advanced-InPhase h ws (remove_client (owner ws)) leaving i, leave-OnMap h ws o))
  after-Advanced h ws c rest leaving i o q e =
      subst (λ x. Advanced h ws x rest) (ap (head_or c) e)
        (subst (λ x. Advanced h ws (ws_close ws) x) (ap tail_of e)
          (advanced-InPhase h ws (ws_close ws) closed i, close-OnMap h ws o q))
  after-Advanced h ws c rest closed i o q e = absurd (ground arith)

  step-Sound : (h h' : Hub) → InPhase h × OnMap h → Step h h' → InPhase h' × OnMap h'
  unfolding Advanced
  step-Sound _ _ s (advance h ws c rest e) =
      let (p, q) = s.0 ws in after-Advanced h ws c rest p s.0 s.1 q (sym q ∙ e)

  hub-Sound : (h : Hub) → Reachable h → InPhase h × OnMap h
  unfolding start clients_after
  hub-Sound _ begin = ((λ ws. (waiting, program-calls ws)), (λ u ws e. absurd (client-none u ws e)))
  hub-Sound _ (next h h' r step) = step-Sound h h' (hub-Sound h r) step

  -- However the calls of the connections interleave, the map gives for a user only a connection of
  -- that user that is being served: what serving it has still to do is to take the user off the map
  -- and to close it.
  pub registered_served :
      (h : Hub) (u : Str) (ws : Conn)
      → Reachable h
      → client_of u (clients_after h.done) ≡ some ws
      → (owner ws ≡ u) × (h.remaining ws ≡ remove_client u ∷ ws_close ws ∷ [])
  registered_served h u ws r e =
      let (o, q) = (hub-Sound h r).1 u ws e in
      (o, q ∙ ap (λ x. remove_client x ∷ ws_close ws ∷ []) o)

  -- From any point where two connections of a user have yet to begin, the calls can interleave so
  -- that the first is put on the map, then the second, and then the first ends: the user is off the
  -- map, while the second connection is still being served.
  pub reconnect_lost :
      (h : Hub) (ws ws' : Conn)
      → Reachable h
      → h.remaining ws ≡ program ws
      → h.remaining ws' ≡ program ws'
      → ws ≢ ws'
      → owner ws ≡ owner ws'
      → (h' : Hub) × Reachable h'
        × (h'.done
            ≡ remove_client (owner ws)
              ∷ add_client (owner ws') ws'
              ∷ add_client (owner ws) ws
              ∷ h.done)
        × (h'.remaining ws' ≡ remove_client (owner ws') ∷ ws_close ws' ∷ [])
        × (client_of (owner ws') (clients_after h'.done) ≡ none)
  unfolding clients_after with_client
  reconnect_lost h ws ws' r p q n o =
      let h1 = advanced h ws (add_client (owner ws) ws) (rest_of serving ws) in
      let h2 = advanced h1 ws' (add_client (owner ws') ws') (rest_of serving ws') in
      let q1 : h1.remaining ws' ≡ rest_of waiting ws' =
        set_remaining_ne h.remaining ws ws' _ (λ e. n (sym e)) ∙ (q ∙ program-calls ws') in
      let p2 : h2.remaining ws ≡ rest_of serving ws =
        set_remaining_ne h1.remaining ws' ws _ n ∙ set_remaining_same h.remaining ws _ in
      (
        advanced h2 ws (remove_client (owner ws)) (rest_of leaving ws),
        next h2 _
            (next h1 h2 (next h h1 r (advance h ws _ _ (p ∙ program-calls ws)))
              (advance h1 ws' _ _ q1))
            (advance h2 ws _ _ p2),
        refl,
        set_remaining_ne h2.remaining ws ws' _ (λ e. n (sym e))
            ∙ set_remaining_same h1.remaining ws' _,
        subst (λ u. client_of u (without_client (owner ws) (clients_after h2.done)) ≡ none) o
            (client-without_same (owner ws) (clients_after h2.done)),
      )
