-- ===== src/Runtime/Deadlines.antt =====
-- The deadline that the runtime is told and the one that the socket's exchange has.
use pytvt.Prelude.{ℕ, ◌+◌, ◌≤◌, ◌≡◌, Option, none, some, arith}
use pytvt.Runtime.{runtime_response_grace_ms, operation_timeout_ms, exchange_timeout_ms}

-- The deadlines of `_request`, the operation's and the exchange's.
abbrev IsGraced : ℕ → ℕ → Type 0
IsGraced ms ex = (1000 ≤ ms) × (ms ≤ ex) × (7000 ≤ ex → ms + runtime_response_grace_ms ≤ ex)

-- Where a request has a deadline for its operation, it is at least a second and no later than the
-- deadline of the exchange, and where the exchange has seven seconds or more, the operation's
-- deadline is at least six seconds earlier, which are the runtime's for its answer.
pub deadlines_leave_grace :
    (timeout total : Option ℕ) (fallback : ℕ) {ms ex : ℕ}
    → operation_timeout_ms timeout total ≡ some (some ms)
    → exchange_timeout_ms (some ms) fallback total ≡ some ex
    → IsGraced ms ex
unfolding operation_timeout_ms exchange_timeout_ms
deadlines_leave_grace timeout none fallback h k = (ground arith, ground arith, λ l. ground arith)
deadlines_leave_grace none (some total) fallback h k =
    (ground arith, ground arith, λ l. ground arith)
deadlines_leave_grace (some own) (some total) fallback h k =
    (ground arith, ground arith, λ l. ground arith)
