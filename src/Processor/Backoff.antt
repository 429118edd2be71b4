-- ===== src/Processor/Backoff.antt =====
-- The constants of process.go and `exponentialBackoff`. Durations count nanoseconds.
pub mod Laws
use xwork.Prelude.{ℕ, ◌*◌, ◌%◌, ◌^◌}

abbrev pub second : ℕ
second = 1000000000

abbrev pub minute : ℕ
minute = 60 * second

-- `PollTickerTimeout` is 10 ms; jobs without a heartbeat for three of these are orphans.
abbrev pub heartbeat_ticker_timeout : ℕ
heartbeat_ticker_timeout = 3 * second

abbrev pub default_max_retry_count : ℕ
default_max_retry_count = 19

abbrev pub default_concurrency : ℕ
default_concurrency = 5

-- `time.Duration(math.Pow(float64(retryCount), 3)) * time.Minute`, as the 64 bits of the product.
-- `math.Pow` is exact below 2^53, which covers every count that the processor passes.
unfoldable pub exponential_backoff : ℕ → ℕ
exponential_backoff retry_count = retry_count * retry_count * retry_count * minute % 2 ^ 64
