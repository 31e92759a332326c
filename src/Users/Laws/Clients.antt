-- ===== src/Users/Laws/Clients.antt =====
-- The map of clients as a map: additions, removals and look-ups of
-- services/users/handler/websocket/echo_handler.go.
use nebengjek.Prelude.{Str, str_eq_iff, str_eq_refl, [], ◌∷◌, some, none, ◌≡◌, ◌≢◌, refl, arith}
use nebengjek.Users.Env.{Conn}
use nebengjek.Users.Socket.Clients.{Clients, with_client, without_client, client_of}

pub client-without :
    (u v : Str) (cs : Clients) → u ≢ v → client_of v (without_client u cs) ≡ client_of v cs
unfolding client_of without_client
client-without u v [] n = refl
client-without u v ((w, ws) ∷ cs) n =
    grind (arith, client-without u v cs n, str_eq_iff w u, str_eq_iff w v)

pub client-without_same : (u : Str) (cs : Clients) → client_of u (without_client u cs) ≡ none
unfolding client_of without_client
client-without_same u [] = refl
client-without_same u ((w, ws) ∷ cs) = ground (arith, client-without_same u cs)

pub client-none : (u : Str) (ws : Conn) → client_of u [] ≢ some ws
unfolding client_of
client-none u ws e = cc

pub client-with : (u : Str) (ws : Conn) (cs : Clients) → client_of u (with_client u ws cs) ≡ some ws
unfolding client_of with_client
client-with u ws cs = ground (arith, str_eq_refl u)

pub client-with_ne :
    (u v : Str) (ws : Conn) (cs : Clients)
    → u ≢ v
    → client_of v (with_client u ws cs) ≡ client_of v cs
unfolding client_of with_client
client-with_ne u v ws cs n = grind (arith, str_eq_iff u v)
