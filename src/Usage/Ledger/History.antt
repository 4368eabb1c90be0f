-- ===== src/Usage/Ledger/History.antt =====
-- Any sequence of calls on the offline ledger (backend/app/usage/ledger.py).
use zouseeking.Base.{List, [], ◌∷◌}
use zouseeking.Usage.Errors.{Result, ok, err}
use zouseeking.Usage.Ledger.State.{Ledger, LedgerResult, init}
use zouseeking.Usage.Ledger.Steps.{Args, PyValue, Uuids}
use zouseeking.Usage.Ledger.Data.{Operation}
use zouseeking.Usage.Ledger.Calls.{consume, reserve, commit, release}
use zouseeking.Usage.Ledger.Invariant.{Inv, init-Inv}
use zouseeking.Usage.Ledger.Endings.{Ends, consume-Ends, reserve_or_transition-Ends}

-- A call of a public method that writes, with the identifiers that it draws.
pub data Call : Type 0 where
  consumes : Args → Uuids → Call
  reserves commits releases : Args → PyValue → Uuids → Call

unfoldable pub step : Call → Ledger → Result LedgerResult × Ledger
step (consumes a ids) s = consume a ids s
step (reserves a k ids) s = reserve a k ids s
step (commits a k ids) s = commit a k ids s
step (releases a k ids) s = release a k ids s

-- The lock orders the calls: a history is a list of them, and one that raises does not end it.
unfoldable pub run : List Call → Ledger → Ledger
unfolding step
run [] s = s
run (c ∷ cs) s = run cs (step c s).1

-- From a ledger that satisfies the invariant, a call keeps it; if the call raises, then not a
-- `KeyError`, and the events, the reservations, their index and every period's counters are as
-- before.
pub step-Ends : (c : Call) (s : Ledger) → Inv s → Ends s (step c s)
unfolding step reserve commit release
step-Ends (consumes a ids) s v = consume-Ends a ids s v
step-Ends (reserves a k ids) s v = reserve_or_transition-Ends Operation.reserve a k ids s v
step-Ends (commits a k ids) s v = reserve_or_transition-Ends Operation.commit a k ids s v
step-Ends (releases a k ids) s v = reserve_or_transition-Ends Operation.release a k ids s v

Ends-Inv : (s : Ledger) (m : Result LedgerResult × Ledger) → Ends s m → Inv m.1
Ends-Inv s (ok r, t) v = v
Ends-Inv s (err e, t) (v, _, _) = v

pub step-Inv : (c : Call) (s : Ledger) → Inv s → Inv (step c s).1
step-Inv c s v = Ends-Inv s (step c s) (step-Ends c s v)

pub run-Inv : (cs : List Call) (s : Ledger) → Inv s → Inv (run cs s)
unfolding run
run-Inv [] s v = v
run-Inv (c ∷ cs) s v = run-Inv cs (step c s).1 (step-Inv c s v)

-- After any calls on a new ledger the invariant holds: in every period the consumed units are the
-- sum over its consumed and committed events, the reserved units are the sum over its live
-- reservations, and the two together are within the limit.
pub run-init-Inv : (cs : List Call) → Inv (run cs init)
run-init-Inv cs = run-Inv cs init init-Inv
