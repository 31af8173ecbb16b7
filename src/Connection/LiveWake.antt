-- ===== src/Connection/LiveWake.antt =====
-- The token that wakes the write loop for live frames is not lost.
use uplink_service.Prelude.{
  ℕ, suc, ltb, String, Bool, true, false, ◌||◌, Option, none, some, ◌≡◌, refl, arith, ap, is_empty,
}
use uplink_service.Connection.State.{Bytes, Codec, Manager, LiveFrame, LiveClient, new_manager}
use uplink_service.Connection.Live.{
  wake_live, queue_live, take_live, take_chosen, oldest_from, reset_live_queue,
}
use uplink_service.Connection.LiveOrder.{oldest_from-none}

module _ {k : Codec} where
  -- Receiving the token from liveWake.
  abbrev pub consumed : Manager k → Manager k
  consumed m = record m { live_wake = false }

  -- Steps of the callers and of the write loop. The flag says whether the loop has the token and is
  -- about to take a frame; the number counts the publishers between the unlocking of liveMu and the
  -- select. The insertion comes behind the tests of PublishLive, which other steps can separate from
  -- it, so it is possible in any state.
  pub data WakeStep : Manager k → Bool → ℕ → Manager k → Bool → ℕ → Type 0 where
    inserts :
        (m : Manager k) (t : Bool) (n : ℕ) (c : LiveClient) (type : String) (payload : Bytes)
        (expires authorize : ℕ)
        → WakeStep m t n (queue_live m c type payload expires authorize) t (suc n)
    wakes : (m : Manager k) (t : Bool) (n : ℕ) → WakeStep m t (suc n) (wake_live m) t n
    receives : (m : Manager k) (n : ℕ) → m.live_wake ≡ true → WakeStep m false n (consumed m) true n
    takes : (m : Manager k) (n : ℕ) → WakeStep m true n (take_live m).0 false n
    -- every other operation leaves the pending frames and the token
    elsewhere :
        (m m' : Manager k) (t : Bool) (n : ℕ)
        → m'.live_pending ≡ m.live_pending
        → m'.live_wake ≡ m.live_wake
        → WakeStep m t n m' t n
    resets : (m : Manager k) (t : Bool) (n : ℕ) → WakeStep m t n (reset_live_queue m) t n

  pub data WakeReachable : Manager k → Bool → ℕ → Type 0 where
    starts : WakeReachable (new_manager k) false 0
    follows :
        (m : Manager k) (t : Bool) (n : ℕ) (m' : Manager k) (t' : Bool) (n' : ℕ)
        → WakeReachable m t n
        → WakeStep m t n m' t' n'
        → WakeReachable m' t' n'

  -- A frame that waits has a token, a loop that is about to take one, or a publisher that is about
  -- to send the token.
  abbrev pub IsAwake : Manager k → Bool → ℕ → Type 0
  IsAwake m t n = is_empty m.live_pending ≡ false → (m.live_wake || t || ltb 0 n) ≡ true

  take_chosen-IsAwake :
      (m : Manager k) (n : ℕ) (o : Option (String × LiveFrame))
      → (o ≡ none → is_empty m.live_pending ≡ true)
      → IsAwake (take_chosen m o).0 false n
  take_chosen-IsAwake m n none h = ground (arith, h refl)
  take_chosen-IsAwake m n (some (key, frame)) h = ground arith

  step-IsAwake :
      (m : Manager k) (t : Bool) (n : ℕ) (m' : Manager k) (t' : Bool) (n' : ℕ)
      → WakeStep m t n m' t' n'
      → IsAwake m t n
      → IsAwake m' t' n'
  unfolding take_live reset_live_queue wake_live
  step-IsAwake m t n _ _ _ (inserts _ _ _ c type payload expires authorize) h = λ e. ground arith
  step-IsAwake m t _ _ _ n (wakes _ _ _) h = λ e. refl
  step-IsAwake m _ n _ _ _ (receives _ _ token) h = λ e. ground arith
  step-IsAwake m _ n _ _ _ (takes _ _) h =
      take_chosen-IsAwake m n (oldest_from none m.live_pending)
        (λ e. ap is_empty (oldest_from-none m.live_pending e))
  step-IsAwake m t n m' _ _ (elsewhere _ _ _ _ same_pending same_wake) h = ground arith
  step-IsAwake m t n _ _ _ (resets _ _ _) h = λ e. absurd (cc)

  -- However publishers, the write loop and disconnects interleave: while a live frame is pending,
  -- the wake-up channel holds its token, or the write loop has received it and is about to take a
  -- frame, or a publisher that inserted a frame is about to send the token. So it is awake when no
  -- publisher is between its insertion and its select.
  pub pending_is_awake :
      (m : Manager k) (t : Bool) (n : ℕ)
      → WakeReachable m t n
      → is_empty m.live_pending ≡ false
      → (m.live_wake || t || ltb 0 n) ≡ true
  unfolding new_manager
  pending_is_awake _ _ _ starts = λ e. absurd (cc)
  pending_is_awake _ _ _ (follows m t n m' t' n' r step) =
      step-IsAwake m t n m' t' n' step (pending_is_awake m t n r)
