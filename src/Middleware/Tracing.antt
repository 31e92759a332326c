-- ===== src/Middleware/Tracing.antt =====
-- Transactions of the tracers in internal/pkg/observability/tracer.go. The agent of New Relic is
-- not part of the repository.
use nebengjek.Prelude.{Str, str, ◌++◌, List, [], ◌∷◌, Bool, true, false}
use nebengjek.Middleware.Contexts.{Context, background}

-- What the agent is told.
pub data TxnCall : Type 0 where
  start_transaction : Str → TxnCall
  set_web_request : TxnCall
  set_web_response : TxnCall
  notice_error : Str → TxnCall
  end_transaction : TxnCall

-- The tracer that does nothing, or that of an application.
pub data Tracer : Type 0 where
  no_op : Tracer
  new_relic : Tracer

-- A transaction of New Relic may be nil inside.
pub data Transaction : Type 0 where
  no_op_txn : Transaction
  new_relic_txn : Bool → Transaction

-- `CreateTracer`, of an application that may be nil.
abbrev pub create_tracer : Bool → Tracer
create_tracer true = new_relic
create_tracer false = no_op

-- What a method tells the agent: nothing, unless there is a transaction.
abbrev pub told : Transaction → TxnCall → List TxnCall → List TxnCall
told no_op_txn c trace = trace
told (new_relic_txn false) c trace = trace
told (new_relic_txn true) c trace = c ∷ trace

-- `StartTransaction`; whether the agent returns one is an argument.
abbrev pub started : Bool → Tracer → Transaction
started live no_op = no_op_txn
started live new_relic = new_relic_txn live

-- `newrelic.NewContext` under the transaction.
module _ (attach : Context → Context) where
  unfoldable pub get_context : Transaction → Context
  get_context no_op_txn = background
  get_context (new_relic_txn true) = attach background
  get_context (new_relic_txn false) = background

-- `SegmentHelper`: the names of segments.
abbrev pub and_part : Str → Str → Str
and_part name [] = name
and_part name (c ∷ s) = name ++ (str "/" ++ (c ∷ s))

abbrev pub database_segment : Str → Str → Str
database_segment operation table = and_part (str "Database/" ++ operation) table

abbrev pub external_segment : Str → Str → Str
external_segment service operation = and_part (str "External/" ++ service) operation

abbrev pub custom_segment : Str → Str
custom_segment name = str "Custom/" ++ name
