-- ===== src/Pool/Probes.antt =====
-- When keepalive probes mark a session failed.
use pytvt.Prelude.{ℕ, zero, suc, ◌+◌, ◌≡◌, refl, true, false, arith, leb}
use pytvt.Pool.{PoolEntry}
use pytvt.Pool.Upkeep.{probed}

-- `n` probes of an entry that all fail.
abbrev pub probed_failing : ℕ → ℕ → ℕ → PoolEntry → PoolEntry
probed_failing limit now zero e = e
probed_failing limit now (suc n) e = probed limit false now (probed_failing limit now n e)

failing_count :
    (limit now n : ℕ) (e : PoolEntry)
    → (probed_failing limit now n e).metrics.keepalive_failures ≡ e.metrics.keepalive_failures + n
unfolding probed
failing_count limit now zero e = omega arith
failing_count limit now (suc n) e = omega (arith, failing_count limit now n e)

failing_sticks :
    (limit now n : ℕ) (e : PoolEntry)
    → e.metrics.keepalive_failures ≡ 0
    → e.failed ≡ false
    → (probed_failing limit now (suc n) e).failed ≡ leb limit (suc n)
unfolding probed
failing_sticks limit now zero e z f = ground (arith, failing_count limit now zero e)
failing_sticks limit now (suc n) e z f =
    ground (arith, failing_count limit now (suc n) e, failing_sticks limit now n e z f)

-- After a probe that was answered, an entry that has not failed is marked failed by the first row of
-- failing probes that is as long as the limit, and by no shorter one.
pub probes_mark_failed :
    (limit now later n : ℕ) (e : PoolEntry)
    → e.failed ≡ false
    → (probed_failing limit later (suc n) (probed limit true now e)).failed ≡ leb limit (suc n)
unfolding probed
probes_mark_failed limit now later n e f = failing_sticks limit later n _ refl f
