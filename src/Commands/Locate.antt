-- ===== src/Commands/Locate.antt =====
-- locate and beep in internal/commands/scooter.go: the requests that
-- they send, by what the queue and the timers answer.
use uplink_service.Prelude.{String, Bool, true, false, ◌&&◌, List, [], ◌∷◌, ◌++◌, if◌then◌else◌}

-- A sendCommand with its queue and text, and whether it was accepted.
pub record Sent : Type 0 where
  pub queue : String
  pub text : String
  pub accepted : Bool

abbrev pub horn : String → Bool → Sent
horn text ok = record { queue = "scooter:horn"; text = text; accepted = ok }

abbrev pub blinker : String → Bool → Sent
blinker text ok = record { queue = "scooter:blinker"; text = text; accepted = ok }

-- What one beep meets: whether "on" and "off" are accepted, and whether the sleep during the beep
-- and the one behind it end by the timer.
pub record Turn : Type 0 where
  pub on_accepted : Bool
  pub off_accepted : Bool
  pub beep_slept : Bool
  pub gap_slept : Bool

-- The flag is the result of beep.
unfoldable pub beep : Turn → List Sent × Bool
beep t =
    if t.on_accepted
    then (horn "on" true ∷ horn "off" t.off_accepted ∷ [], t.beep_slept)
    else (horn "on" false ∷ [], false)

-- The inner loop of locate; the flag says whether it ran to its end.
unfoldable pub beeps : List Turn → List Sent × Bool
unfolding beep
beeps [] = ([], true)
beeps (t ∷ ts) =
    let (rest, ended) = beeps ts in
    if (beep t).1 && t.gap_slept then ((beep t).0 ++ rest, ended) else ((beep t).0, false)

-- The goroutine of locate: two bursts of two beeps, and the deferred request.
unfoldable pub locate_beeps : Turn → Turn → Bool → Turn → Turn → Bool → List Sent
unfolding beeps
locate_beeps t1 t2 burst_slept t3 t4 off_accepted =
    let first = beeps (t1 ∷ t2 ∷ []) in
    let second = beeps (t3 ∷ t4 ∷ []) in
    (first.0 ++ (if first.1 && burst_slept then second.0 else []))
    ++ blinker "off" off_accepted ∷ []

-- The flag says whether locate returns an error.
unfoldable pub locate : Bool → Turn → Turn → Bool → Turn → Turn → Bool → List Sent × Bool
unfolding locate_beeps
locate both_accepted t1 t2 burst_slept t3 t4 off_accepted =
    if both_accepted
    then (blinker "both" true ∷ locate_beeps t1 t2 burst_slept t3 t4 off_accepted, false)
    else (blinker "both" false ∷ [], true)
