-- ===== src/Samsung/Adapter/Backoff.antt =====
-- `validateAdapterConfig` and `backoffDelay` of internal/samsung/adapter.go.
use frame_tv_art_manager.Prelude.{
  ◌&&◌, is_empty, Option, not, Bool, ℕ, true, none, ◌==◌, zero, if◌then◌else◌, ◌/◌, ltb, if_cases,
  min, arith, ◌≡◌, ◌^◌, ◌-◌, ◌≤◌, ◌*◌, ◌<◌, some, suc,
}
use frame_tv_art_manager.Prelude.Int.{is_positive, pos, pos_part, ltb_ℤ}
use frame_tv_art_manager.Samsung.Adapter.{Config}

-- `maxBackoffDelay`, in nanoseconds.
abbrev pub maximum_delay : ℕ
maximum_delay = 3_600_000_000_000

-- `validateAdapterConfig`.
unfoldable pub config_valid : Config → Bool
config_valid c =
    not (is_empty c.address)
    && not (is_empty c.client_name)
    && not (is_empty c.token_path)
    && (is_positive c.connect_timeout
        && is_positive c.request_timeout
        && is_positive c.gate_timeout)
    && (is_positive c.backoff_base && is_positive c.backoff_maximum)
    && not (ltb_ℤ (pos maximum_delay) c.backoff_maximum)
    && not (ltb_ℤ c.backoff_maximum c.backoff_base)

-- The loop of `backoffDelay`, with the rounds that its counter leaves.
unfoldable pub backoff_limit : ℕ → ℕ → ℕ → ℕ
backoff_limit maximum zero limit = limit
backoff_limit maximum (suc left) limit =
    let doubled = backoff_limit maximum left (limit * 2) in
    if ltb limit maximum then (if ltb (maximum / 2) limit then maximum else doubled) else limit

jittered : (ℕ → ℕ → ℕ) → ℕ → Option ℕ → ℕ
jittered scale limit none = limit
jittered scale limit (some value) = if value == 2 ^ 64 - 1 then limit else scale value limit

-- `backoffDelay`, of a valid configuration, whose durations are positive. `random` is the number
-- that was read, if one could be; `scale` is Go's floating-point product of the limit and the share
-- that the number is of 2 ^ 64.
unfoldable pub backoff_delay : (ℕ → ℕ → ℕ) → Config → ℕ → Option ℕ → ℕ
unfolding backoff_limit jittered
backoff_delay scale c failures random =
    jittered scale
      (backoff_limit (pos_part c.backoff_maximum) (failures - 1) (pos_part c.backoff_base)) random

pow_pos : (n : ℕ) → 0 < 2 ^ n
pow_pos zero = omega arith
pow_pos (suc n) = omega (arith, pow_pos n)

double_pow : (b n : ℕ) → b * 2 * 2 ^ n ≡ b * 2 ^ suc n
double_pow b n = grind arith

grows : (b n : ℕ) → b ≤ b * 2 ^ n
grows b n = grind (arith, pow_pos n)

-- The loop doubles the base once for each failure but the first, without going beyond the maximum.
backoff_limit-eq : (m n b : ℕ) → b ≤ m → backoff_limit m n b ≡ min (b * 2 ^ n) m
unfolding backoff_limit
backoff_limit-eq m zero b h = ground arith
backoff_limit-eq m (suc n) b h =
    if_cases (λ (l : ℕ). l ≡ min (b * 2 ^ suc n) m) (ltb b m) _ _
      (λ p.
        if_cases (λ (l : ℕ). l ≡ min (b * 2 ^ suc n) m) (ltb (m / 2) b) _ _
          (λ q. ground (arith, grows (b * 2) n, double_pow b n))
          (λ q. ground (arith, backoff_limit-eq m n (b * 2) (ground arith), double_pow b n)))
      (λ p. ground (arith, grows b (suc n)))

-- Of a valid configuration, and however the random share is rounded, so long as it does not exceed
-- the limit: without randomness the wait is the base, doubled once for each failure after the first,
-- or the maximum if that is less; with randomness it is no longer; and it is never over an hour.
pub backoff_delay_lem :
    (scale : ℕ → ℕ → ℕ) (c : Config) (failures : ℕ) (random : Option ℕ)
    → ((value limit : ℕ) → scale value limit ≤ limit)
    → config_valid c ≡ true
    → (backoff_delay scale c failures none
        ≡ min (pos_part c.backoff_base * 2 ^ (failures - 1)) (pos_part c.backoff_maximum))
      × (backoff_delay scale c failures random ≤ backoff_delay scale c failures none)
      × (backoff_delay scale c failures none ≤ maximum_delay)
unfolding backoff_delay jittered config_valid
backoff_delay_lem scale c failures random s v =
    (limit, shared random, omega (arith, limit, ranges.1))
  where
    ranges :
        (pos_part c.backoff_base ≤ pos_part c.backoff_maximum)
        × (pos_part c.backoff_maximum ≤ maximum_delay)
    ranges = ground arith

    limit :
        backoff_limit (pos_part c.backoff_maximum) (failures - 1) (pos_part c.backoff_base)
        ≡ min (pos_part c.backoff_base * 2 ^ (failures - 1)) (pos_part c.backoff_maximum)
    limit = backoff_limit-eq _ _ _ ranges.0

    shared :
        (random : Option ℕ)
        → backoff_delay scale c failures random ≤ backoff_delay scale c failures none
    shared none = omega arith
    shared (some value) = ground (
      arith,
      s value (backoff_limit (pos_part c.backoff_maximum) (failures - 1) (pos_part c.backoff_base)),
    )
