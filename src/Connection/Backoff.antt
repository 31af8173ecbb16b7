-- ===== src/Connection/Backoff.antt =====
-- The delays between the attempts of connectionLoop.
use Prim.Native.Nat.{min}
use uplink_service.Prelude.{ℕ, zero, suc, ◌*◌, ◌^◌, ◌≡◌, refl, arith}
use uplink_service.Connection.State.{Codec, Manager, second}
use uplink_service.Connection.Live.{reset_live_queue}
use uplink_service.Connection.Lifecycle.{mark_connected, mark_disconnected, get_retry_delay}

-- A second, then twice as long each time, up to the configured maximum.
abbrev pub backoff : ℕ → ℕ → ℕ
backoff max_delay zero = second
backoff max_delay (suc n) = min max_delay (2 ^ suc n * second)

module _ {k : Codec} where
  -- The state behind a number of attempts that failed one after the other.
  abbrev pub failed : ℕ → ℕ → Manager k → Manager k
  failed max_delay zero m = m
  failed max_delay (suc n) m =
      (get_retry_delay max_delay (mark_disconnected (failed max_delay n m))).0

  -- How long the loop waits when one more attempt fails.
  abbrev pub delay_after : ℕ → ℕ → Manager k → ℕ
  delay_after max_delay n m =
      (get_retry_delay max_delay (mark_disconnected (failed max_delay n m))).1

  retry_delay-failed :
      (max_delay n : ℕ) (m : Manager k) (now : ℕ)
      → (failed max_delay n (mark_connected m now)).retry_delay ≡ backoff max_delay n
  unfolding mark_connected mark_disconnected get_retry_delay reset_live_queue
  retry_delay-failed max_delay zero m now = refl
  retry_delay-failed max_delay (suc zero) m now = ground arith
  retry_delay-failed max_delay (suc (suc n)) m now =
      ground (arith, retry_delay-failed max_delay (suc n) m now)

  pub delay_after-backoff :
      (max_delay n : ℕ) (m : Manager k) (now : ℕ)
      → delay_after max_delay n (mark_connected m now) ≡ backoff max_delay n
  unfolding mark_disconnected get_retry_delay reset_live_queue
  delay_after-backoff max_delay n m now = retry_delay-failed max_delay n m now
