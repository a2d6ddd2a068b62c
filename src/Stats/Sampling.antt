-- ===== src/Stats/Sampling.antt =====
-- `add_latency_sample` (agents/stats.c:147-164) records one call in `period`, and keeps the newest.
use lancet_tool.Base.{
  ℕ, zero, suc, ◌+◌, ◌-◌, ◌*◌, ◌/◌, ◌%◌, ◌^◌, ◌≤◌, ◌<◌, ◌≡◌, ◌≢◌, refl, sym, ap, ◌∙◌, List, [], ◌∷◌,
  Outcome, ok, arith, true, ℤ, pos, ◌≤ℤ◌, pos_part, some, ◌==◌, Bool-cases, inl, inr, length,
  length-set, set, get_or, get_or-set_self, ◌>>=◌,
}
use native.Mathlib.Nat.{div-eq_of_lt, div-eq_of_lt-le, div-add-mod', mod-lt}
use lancet_tool.Timespec.{TimeSpec}
use lancet_tool.Stats.{
  ThreadStats, LatSample, add_u32, add_latency_sample, max_per_thread_samples, no_sample,
}

-- The calls made while measuring, each with its latency and its transmit time.
pub add_latency_samples : ℕ → List (ℤ × TimeSpec) → ThreadStats → Outcome ThreadStats
add_latency_samples period [] s = ok s
add_latency_samples period ((diff, tx) ∷ rest) s =
    add_latency_sample true period diff (some tx) s >>= add_latency_samples period rest

-- So many samples have been recorded as there are multiples of the period among the calls.
pub record IsSampled (period : ℕ) (s : ThreadStats) : Type 0 where
  pub recorded : s.inc_idx ≡ (s.tx_sample_selector + (period - 1)) / period
  pub size : length s.samples ≡ max_per_thread_samples

-- Rounding up grows by one at each multiple of `p`.
ceil_at_multiple :
    (k p : ℕ)
    → 0 < p
    → k % p ≡ 0
    → ((k + (p - 1)) / p ≡ k / p) × ((k + 1 + (p - 1)) / p ≡ k / p + 1)
ceil_at_multiple k p h e =
    let split : k / p * p + k % p ≡ k = div-add-mod' k p in
    (div-eq_of_lt-le p (omega arith) (omega arith), div-eq_of_lt-le p (omega arith) (omega arith))

ceil_between : (k p : ℕ) → 0 < p → k % p ≢ 0 → (k + 1 + (p - 1)) / p ≡ (k + (p - 1)) / p
ceil_between k p h ne =
    let split : k / p * p + k % p ≡ k = div-add-mod' k p in
    let below : k % p < p = mod-lt k h in
    div-eq_of_lt-le {k = k / p + 1} p (omega arith) (omega arith)
    ∙ sym (div-eq_of_lt-le {k = k / p + 1} p (omega arith) (omega arith))

ceil-le : (k p : ℕ) → 0 < p → (k + (p - 1)) / p ≤ k
ceil-le zero p h = omega (arith, div-eq_of_lt {n = 0 + (p - 1)} {m = p} (omega arith))
ceil-le (suc k) p h =
    let shift : suc k + (p - 1) ≡ k + 1 + (p - 1) = omega arith in
    rw (ap (λ t. t / p) shift) (elim (Bool-cases (k % p == 0)) [
      | inl hit ↦ omega (arith, ceil_at_multiple k p h (ground arith), ceil-le k p h)
      | inr miss ↦ omega (arith, ceil_between k p h (ground arith), ceil-le k p h)
    ])

next_lem : (k : ℕ) → k + 1 < 2 ^ 32 → add_u32 k 1 ≡ k + 1
next_lem k h = omega arith

-- A call while measuring: it records a sample exactly at each multiple of the period, with its
-- latency and its transmit time, over the oldest one once the ring is full. The counts stay right.
pub add_latency_sample_lem :
    (period : ℕ) (diff : ℤ) (tx : TimeSpec) (s : ThreadStats)
    → 0 < period
    → pos 1 ≤ℤ diff
    → s.tx_sample_selector + 1 < 2 ^ 32
    → IsSampled period s
    → (s' : ThreadStats) × (add_latency_sample true period diff (some tx) s ≡ ok s')
      × IsSampled period s'
      × (s'.tx_sample_selector ≡ s.tx_sample_selector + 1)
      × (s.tx_sample_selector % period ≡ 0
          → get_or s'.samples (s.inc_idx % max_per_thread_samples) no_sample
            ≡ record { nsec = pos_part diff; tx = tx })
      × (s.tx_sample_selector % period ≢ 0 → s'.samples ≡ s.samples)
unfolding add_latency_sample
add_latency_sample_lem period diff tx s h d sel v =
    let few = ceil-le s.tx_sample_selector period h in
    let idx : s.inc_idx + 1 < 2 ^ 32 = omega (arith, v.recorded) in
    let next = add_u32 s.tx_sample_selector 1 in
    let slot = s.inc_idx % max_per_thread_samples in
    let new : LatSample = record { nsec = pos_part diff; tx = tx } in
    elim (Bool-cases (s.tx_sample_selector % period == 0)) [
      | inl hit ↦
          let at : s.tx_sample_selector % period ≡ 0 = ground arith in
          let (before, after) = ceil_at_multiple s.tx_sample_selector period h at in
          let inside : slot < length s.samples = omega arith in
          (
            record s {
              tx_sample_selector = next;
              inc_idx = add_u32 s.inc_idx 1;
              samples = set s.samples slot new;
            },
            ground arith,
            record {
              recorded = omega (arith, ap (λ k. (k + (period - 1)) / period) (next_lem _ sel));
              size = length-set s.samples slot new ∙ v.size;
            },
            omega arith,
            λ e. get_or-set_self s.samples slot new no_sample inside,
            λ ne. absurd (ne at),
          )
      | inr miss ↦
          let off : s.tx_sample_selector % period ≢ 0 = ground arith in
          let same = ceil_between s.tx_sample_selector period h off in
          (
            record s { tx_sample_selector = next },
            ground arith,
            record {
              recorded = omega (arith, ap (λ k. (k + (period - 1)) / period) (next_lem _ sel));
              size = v.size;
            },
            omega arith,
            λ e. absurd (off e),
            λ ne. refl,
          )
    ]

-- The latencies are positive, as the code asserts.
abbrev pub Positive : List (ℤ × TimeSpec) → Type 0
Positive [] = Unit {0}
Positive ((diff, tx) ∷ rest) = (pos 1 ≤ℤ diff) × Positive rest
