-- ===== src/Session/Backoff.antt =====
-- herdr/session.go: defaultBackoff. A time.Duration counts nanoseconds.
use herdr_client.Prelude.{
  ℕ, zero, suc, ◌-◌, ◌*◌, ◌^◌, ◌≤◌, min, ◌≡◌, refl, ltb, if◌then◌else◌, arith, ◌∙◌, ap, sym,
}
use native.Mathlib.Nat.{mul_assoc, pow-succ'}

abbrev pub reconnect_base_delay : ℕ
reconnect_base_delay = 100000000

abbrev pub reconnect_max_delay : ℕ
reconnect_max_delay = 5000000000

-- the loop, with the turns that `i < attempt` still allows
unfoldable pub backoff_loop : ℕ → ℕ → ℕ
backoff_loop zero delay = delay
backoff_loop (suc turns) delay =
    let more = backoff_loop turns (delay * 2) in
    if ltb delay reconnect_max_delay then more else delay

-- An attempt below 1 allows no turn, as a difference that stops at 0 does.
unfoldable pub default_backoff : ℕ → ℕ
unfolding backoff_loop
default_backoff attempt = min (backoff_loop (attempt - 1) reconnect_base_delay) reconnect_max_delay

-- the delay doubled a number of times
abbrev pub doubled : ℕ → ℕ → ℕ
doubled zero delay = delay
doubled (suc turns) delay = doubled turns (delay * 2)

doubled_mono : (turns delay : ℕ) → delay ≤ doubled turns delay
doubled_mono zero delay = omega arith
doubled_mono (suc turns) delay = omega (arith, doubled_mono turns (delay * 2))

doubled_pow : (turns delay : ℕ) → doubled turns delay ≡ delay * 2 ^ turns
doubled_pow zero delay = omega arith
doubled_pow (suc turns) delay =
    doubled_pow turns (delay * 2)
    ∙ mul_assoc delay 2 (2 ^ turns)
    ∙ ap (λ n. delay * n) (sym (pow-succ' 2 turns))

backoff_loop-min :
    (turns delay : ℕ)
    → min (backoff_loop turns delay) reconnect_max_delay
      ≡ min (doubled turns delay) reconnect_max_delay
unfolding backoff_loop
backoff_loop-min zero delay = refl
backoff_loop-min (suc turns) delay =
    ground (arith, backoff_loop-min turns (delay * 2), doubled_mono turns (delay * 2))

less_one : (n : ℕ) → suc n - 1 ≡ n
less_one n = omega arith

-- The wait before an attempt, from the first on, is the base delay times 2 to the power of the
-- attempts before it, and never more than the limit.
pub default_backoff-pow :
    (attempt : ℕ)
    → default_backoff (suc attempt) ≡ min (reconnect_base_delay * 2 ^ attempt) reconnect_max_delay
unfolding default_backoff
default_backoff-pow attempt =
    ap (λ n. min (backoff_loop n reconnect_base_delay) reconnect_max_delay) (less_one attempt)
    ∙ backoff_loop-min attempt reconnect_base_delay
    ∙ ap (λ n. min n reconnect_max_delay) (doubled_pow attempt reconnect_base_delay)
