-- ===== src/Nats/Laws/Opening.antt =====
-- How a client is opened: NewClient of internal/pkg/nats/client.go.
use nebengjek.Prelude.{inl, inr, false, ◌⊎◌, ap, subst, true, arith, All, ◌≡◌, refl, Str}
use nebengjek.Exec.{Error, ok, err, Ok}
use nebengjek.Nats.Laws.Defaults.{streams-made}
use nebengjek.Nats.Client.{has, Client}
use nebengjek.Nats.Session.{no_maps, started, new_client}
use nebengjek.Nats.Defaults.{default_stream_configs}
use nebengjek.Nats.Setup.{create_streams, initialize_default_streams}

-- The streams of a client that has all of the default streams.
abbrev pub IsReady : Client → Type 0
IsReady c = All (λ s. has s.name c.streams ≡ true) default_stream_configs

started-IsReady : (r : Ok × Client) (c : Client) → (started r).0 ≡ ok c → (r.0 ≡ ok tt) × (r.1 ≡ c)
started-IsReady (ok u, d) c h = (refl, ground (arith, h))
started-IsReady (err e, d) c h = absurd (ground (arith, h))

pub new_client-IsReady :
    (connect js : Ok) (reply : Str → Ok) (c : Client)
    → (new_client connect js reply).0 ≡ ok c
    → IsReady c
unfolding new_client initialize_default_streams
new_client-IsReady (err e) js reply c h = absurd (ground arith)
new_client-IsReady (ok u) (err e) reply c h = absurd (ground arith)
new_client-IsReady (ok u) (ok v) reply c h =
    let made = create_streams reply default_stream_configs no_maps in
    let (p, q) = started-IsReady made c h in
    subst IsReady q (streams-made reply default_stream_configs no_maps p)

started-open :
    (r : Ok × Client)
    → ((c : Client) × (started r ≡ (ok c, true))) ⊎ ((e : Error) × (started r ≡ (err e, false)))
started-open (ok u, c) = inl (c, refl)
started-open (err e, c) = inr (_, refl)

-- NewClient leaves a connection open just when it returns a client, and all the default streams are
-- then in its maps. With an error it leaves no connection.
pub new_client-open :
    (connect js : Ok) (reply : Str → Ok)
    → ((c : Client) × (new_client connect js reply ≡ (ok c, true)) × IsReady c)
      ⊎ ((e : Error) × (new_client connect js reply ≡ (err e, false)))
unfolding new_client initialize_default_streams
new_client-open (err e) js reply = inr (_, refl)
new_client-open (ok u) (err e) reply = inr (_, refl)
new_client-open (ok u) (ok v) reply =
    elim (started-open (create_streams reply default_stream_configs no_maps)) [
      | inr x ↦ inr x
      | inl x ↦
          let (c, e) = x in inl (c, e, new_client-IsReady (ok u) (ok v) reply c (ap (λ r. r.0) e))
    ]
