-- ===== src/Processor/Backoff/Laws.antt =====
-- The retry schedule that the comment above `exponentialBackoff` lists.
use xwork.Prelude.{ℕ, zero, suc, ◌+◌, ◌*◌, ◌^◌, ◌≤◌, ◌<◌, ◌≡◌, refl, arith}
use xwork.Processor.Backoff.{exponential_backoff, default_max_retry_count, minute}

-- For a retry count of at most 19, the delay is the count's cube in minutes, and it fits the 63
-- bits of a positive `time.Duration`.
exponential_backoff_lem :
    (n : ℕ)
    → n ≤ default_max_retry_count
    → (exponential_backoff n ≡ n * n * n * minute) × (exponential_backoff n < 2 ^ 63)
unfolding exponential_backoff
exponential_backoff_lem n h =
    let square : n * n ≤ 361 = grind arith in
    let cube : n * n * n ≤ 6859 = grind arith in omega arith

-- the time from the first failure to the n-th retry, if every attempt failed at once
pub total_backoff : ℕ → ℕ
total_backoff zero = 0
total_backoff (suc n) = total_backoff n + exponential_backoff (suc n)

-- For n of at most 19, the delays of the first n retries add up to a quarter of n^2 (n + 1)^2
-- minutes.
total_backoff_lem :
    (n : ℕ) → n ≤ default_max_retry_count → total_backoff n * 4 ≡ n * n * (n + 1) * (n + 1) * minute
unfolding total_backoff
total_backoff_lem zero h = refl
total_backoff_lem (suc n) h =
    omega (arith, total_backoff_lem n (omega arith), exponential_backoff_lem (suc n) h)

-- For a retry count n of at most 19, the delay is n^3 minutes, it fits the 63 bits of a positive
-- `time.Duration`, and the delays of the first n retries add up to a quarter of n^2 (n + 1)^2
-- minutes.
pub backoff_lem :
    (n : ℕ)
    → n ≤ default_max_retry_count
    → (exponential_backoff n ≡ n * n * n * minute)
      × (exponential_backoff n < 2 ^ 63)
      × (total_backoff n * 4 ≡ n * n * (n + 1) * (n + 1) * minute)
backoff_lem n h =
    let (cubed, fits) = exponential_backoff_lem n h in (cubed, fits, total_backoff_lem n h)
