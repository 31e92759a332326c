-- ===== src/Nats/Delivery.antt =====
-- How the services wrap a handler of messages: the functions with the ending JS in
-- services/match/handler/nats/nats.go, services/rides/handler/nats/nats.go and
-- services/location/handler/nats.go, with the helpers of internal/pkg/newrelic/tracing.go. The agent
-- of New Relic is not part of the repository; what it is told is the second history.
use nebengjek.Prelude.{Str, str, List, [], ◌∷◌, ℕ, length, Bool, true, false}
use nebengjek.Exec.{Error, Exec, Outcome, returned, failed, panicked}

pub data Attribute : Type 0 where
  text : Str → Attribute
  size : ℕ → Attribute

pub data Note : Type 0 where
  start_transaction : Str → Note
  add_attribute : Str → Attribute → Note
  notice_error : Error → Note
  end_transaction : Note

-- `if txn != nil`
abbrev pub note_if : Bool → Note → List Note → List Note
note_if true n notes = n ∷ notes
note_if false n notes = notes

unfoldable pub add_transaction_attribute : Bool → Str → Attribute → List Note → List Note
add_transaction_attribute live key value notes = note_if live (add_attribute key value) notes

unfoldable pub notice_transaction_error : Bool → Error → List Note → List Note
notice_transaction_error live e notes = note_if live (notice_error e) notes

-- The subject and the data of a message.
pub record Message : Type 0 where
  pub subject : Str
  pub content : Str

module _ {A : Type 0} where
  -- `return err` under `NoticeTransactionError`, or nil; a panic goes through.
  abbrev pub noticed : Bool → Outcome A → List Note → List Note
  noticed live (returned a) notes = notes
  noticed live (failed e) notes = notice_transaction_error live e notes
  noticed live panicked notes = notes

-- `defer txn.End()`, which the agent accepts without a transaction as well.
unfoldable pub in_transaction :
    {A C : Type 0}
    → Bool
    → Str
    → Str
    → (Str → Exec C A)
    → Message
    → List C
    → (Outcome A × List C) × List Note
unfolding add_transaction_attribute
in_transaction live name service handle msg t =
    let done = handle msg.content t in
    let notes = add_transaction_attribute live (str "service") (text service) (
      add_transaction_attribute live (str "message.size") (size (length msg.content)) (
        add_transaction_attribute live (str "message.subject") (text msg.subject)
          (start_transaction name ∷ []))) in
    (done, end_transaction ∷ noticed live done.0 notes)
