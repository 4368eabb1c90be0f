-- ===== src/Usage/Postgres/History.antt =====
-- Histories of calls on `class PostgresLedger` (backend/app/usage/db_ledger.py): the serial order in
-- which the locks put the transactions.
use zouseeking.Base.{Option, List, [], ◌∷◌, String}
use zouseeking.Base.Txn.{Outcome, done, raised, Ensures, ends, raises}
use zouseeking.Usage.Period.{DateTime}
use zouseeking.Usage.Ledger.Data.{Operation}
use zouseeking.Usage.Ledger.Steps.{PyValue, null}
use zouseeking.Usage.Postgres.Data.{Db, empty, DbFault, PgResult}
use zouseeking.Usage.Postgres.Steps.{Call, PgArgs}
use zouseeking.Usage.Postgres.Calls.{Charge, Transition, Uuids, consume, reserve, commit, release}
use zouseeking.Usage.Postgres.Invariant.{Inv, empty-Inv}
use zouseeking.Usage.Postgres.Charging.{Moves, charge-Moves}
use zouseeking.Usage.Postgres.Transitions.{transition-Moves}

pub data Request : Type 0 where
  consuming reserving : PgArgs → DateTime → String → Uuids → Request
  committing releasing : PgArgs → Option DateTime → Option String → PyValue → Uuids → Request

unfoldable pub call : Request → Call PgResult
call (consuming a at period ids) = consume a at period ids
call (reserving a at period ids) = reserve a at period ids
call (committing a at period key ids) = commit a at period key ids
call (releasing a at period key ids) = release a at period key ids

-- What a call is for, its arguments and its reservation key.
abbrev pub operation : Request → Operation
operation (consuming a at period ids) = Operation.consume
operation (reserving a at period ids) = Operation.reserve
operation (committing a at period key ids) = Operation.commit
operation (releasing a at period key ids) = Operation.release

abbrev pub args : Request → PgArgs
args (consuming a at period ids) = a
args (reserving a at period ids) = a
args (committing a at period key ids) = a
args (releasing a at period key ids) = a

abbrev pub reservation_key : Request → PyValue
reservation_key (committing a at period key ids) = key
reservation_key (releasing a at period key ids) = key
reservation_key (consuming a at period ids) = null
reservation_key (reserving a at period ids) = null

-- The tables after a transaction, which a raised exception rolls back.
abbrev pub after : Db → Outcome DbFault (PgResult × Db) → Db
after s (done (r, t)) = t
after s (raised e) = s

unfoldable pub run : List Request → Db → Db
unfolding call
run [] s = s
run (c ∷ cs) s = run cs (after s (call c s))

-- A call that is answered is a step of the abstract meter that the tables show: a repeated request
-- leaves it as it was, a charge adds its units within the limit, and a transition ends a live
-- reservation of those units, in its own period.
pub call-Moves :
    (c : Request) (s : Db)
    → Inv s
    → Ensures (Moves (operation c) (args c) (reservation_key c) s) (call c s)
unfolding call consume reserve commit release
call-Moves (consuming a at period ids) s v = charge-Moves Charge.consumes a at period ids s v
call-Moves (reserving a at period ids) s v = charge-Moves Charge.reserves a at period ids s v
call-Moves (committing a at period key ids) s v =
    transition-Moves Transition.commits a at period key ids s v
call-Moves (releasing a at period key ids) s v =
    transition-Moves Transition.releases a at period key ids s v

after-Inv :
    {o : Operation} {a : PgArgs} {key : PyValue} (s : Db) (m : Outcome DbFault (PgResult × Db))
    → Inv s
    → Ensures (Moves o a key s) m
    → Inv (after s m)
after-Inv s _ v (ends (w, step)) = w
after-Inv s _ v raises = v

run-Inv : (cs : List Request) (s : Db) → Inv s → Inv (run cs s)
unfolding run
run-Inv [] s v = v
run-Inv (c ∷ cs) s v = run-Inv cs _ (after-Inv s (call c s) v (call-Moves c s v))

-- After any calls on empty tables, each quota's counters are the sums over its events and fit its
-- limit, the registry repeats the events, and each reservation has ended at most once.
pub run-empty-Inv : (cs : List Request) → Inv (run cs empty)
run-empty-Inv cs = run-Inv cs empty empty-Inv
