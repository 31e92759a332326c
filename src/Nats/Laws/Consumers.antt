-- ===== src/Nats/Laws/Consumers.antt =====
-- Pausing, resuming and stopping a consumer: internal/pkg/nats/consumer.go.
use nebengjek.Prelude.{true, false, Bool, ◌≡◌, arith}
use nebengjek.Exec.{ok}
use nebengjek.Nats.Consumer.{Consumer, is_usable, resume, pause, stop, watch, is_active}

-- A JetStream consumer that was not stopped can be paused and resumed: it is inactive in between,
-- and active and delivering afterwards.
pub pause-resume :
    (c : Consumer) (valid : Bool)
    → is_usable c ≡ true
    → c.cancelled ≡ false
    → (is_active valid (pause c) ≡ false)
      × ((resume (ok tt) (pause c)).0 ≡ ok tt)
      × (is_active valid (watch (resume (ok tt) (pause c)).1) ≡ true)
      × ((watch (resume (ok tt) (pause c)).1).delivering ≡ true)
unfolding resume pause stop watch is_active
pause-resume c valid u n = ground arith

-- A JetStream consumer that was stopped can be resumed as well: that succeeds and the consumer
-- calls itself active, while its context is still cancelled and nothing is delivered.
pub stop-resume :
    (c : Consumer) (valid : Bool)
    → is_usable c ≡ true
    → ((resume (ok tt) (stop c)).0 ≡ ok tt)
      × (is_active valid (watch (resume (ok tt) (stop c)).1) ≡ true)
      × ((watch (resume (ok tt) (stop c)).1).delivering ≡ false)
unfolding resume pause stop watch is_active
stop-resume c valid u = ground arith
