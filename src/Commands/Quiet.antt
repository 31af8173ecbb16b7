-- ===== src/Commands/Quiet.antt =====
-- What locate leaves behind.
use uplink_service.Prelude.{
  String, Bool, true, false, not, ◌||◌, ◌&&◌, List, [], ◌∷◌, ◌++◌, ◌≡◌, refl, if◌then◌else◌, str_eq,
  Bool-cases, inl, inr, ◌⊎◌, ap, ◌∙◌, arith,
}
use uplink_service.Commands.Locate.{Sent, blinker, Turn, beep, beeps, locate_beeps, locate}

-- Whether a request that switches the queue's device on was accepted, and no request "off" was made
-- since, accepted or not.
abbrev pub awaits_off : String → Bool → List Sent → Bool
awaits_off queue on [] = on
awaits_off queue on (s ∷ ss) =
    awaits_off queue
      (if str_eq s.queue queue then (not (str_eq s.text "off") && (s.accepted || on)) else on) ss

-- Whether the device is on at the end: an "off" that is refused does not switch it off.
abbrev pub left_on : String → Bool → List Sent → Bool
left_on queue on [] = on
left_on queue on (s ∷ ss) =
    left_on queue (if str_eq s.queue queue && s.accepted then not (str_eq s.text "off") else on) ss

-- Whether a request "off" was refused.
abbrev pub refuses_off : List Sent → Bool
refuses_off [] = false
refuses_off (s ∷ ss) = (str_eq s.text "off" && not s.accepted) || refuses_off ss

left_on_lem :
    (queue : String) (on : Bool) (xs : List Sent)
    → refuses_off xs ≡ false
    → left_on queue on xs ≡ awaits_off queue on xs
left_on_lem queue on [] h = refl
left_on_lem queue on (s ∷ ss) h =
    left_on_lem queue (if str_eq s.queue queue && s.accepted then not (str_eq s.text "off") else on)
      ss (ground arith)
    ∙ ap (λ b. awaits_off queue b ss) (ground arith)

awaits_off-append :
    (queue : String) (on : Bool) (xs ys : List Sent)
    → awaits_off queue on (xs ++ ys) ≡ awaits_off queue (awaits_off queue on xs) ys
awaits_off-append queue on [] ys = refl
awaits_off-append queue on (x ∷ xs) ys =
    awaits_off-append queue
      (if str_eq x.queue queue then (not (str_eq x.text "off") && (x.accepted || on)) else on) xs ys

beep_quiet : (t : Turn) → awaits_off "scooter:horn" false (beep t).0 ≡ false
unfolding beep
beep_quiet t = elim (Bool-cases t.on_accepted) [ inl on ↦ rw on refl | inr off ↦ rw off refl ]

beeps_quiet : (ts : List Turn) → awaits_off "scooter:horn" false (beeps ts).0 ≡ false
unfolding beeps
beeps_quiet [] = refl
beeps_quiet (t ∷ ts) = elim (Bool-cases ((beep t).1 && t.gap_slept)) [
  | inl goes_on ↦ rw goes_on (
      rw (awaits_off-append "scooter:horn" false (beep t).0 (beeps ts).0)
        (rw (beep_quiet t) (beeps_quiet ts)))
  | inr stops ↦ rw stops (beep_quiet t)
]

both_quiet :
    (first second : List Sent) (go : Bool)
    → awaits_off "scooter:horn" false first ≡ false
    → awaits_off "scooter:horn" false second ≡ false
    → awaits_off "scooter:horn" false (first ++ (if go then second else [])) ≡ false
both_quiet first second true hf hs =
    rw (awaits_off-append "scooter:horn" false first second) (rw hf hs)
both_quiet first second false hf hs =
    rw (awaits_off-append "scooter:horn" false first []) (rw hf refl)

ended_by_off :
    (on ok : Bool) (xs : List Sent)
    → awaits_off "scooter:blinker" on (xs ++ blinker "off" ok ∷ []) ≡ false
ended_by_off on ok xs = rw (awaits_off-append "scooter:blinker" on xs (blinker "off" ok ∷ [])) refl

silent_end :
    (ok : Bool) (xs : List Sent)
    → awaits_off "scooter:horn" false xs ≡ false
    → awaits_off "scooter:horn" false (xs ++ blinker "off" ok ∷ []) ≡ false
silent_end ok xs h =
    rw (awaits_off-append "scooter:horn" false xs (blinker "off" ok ∷ [])) (rw h refl)

locate_awaits_nothing :
    (both_accepted : Bool) (t1 t2 : Turn) (burst_slept : Bool) (t3 t4 : Turn) (off_accepted : Bool)
    → let sent = (locate both_accepted t1 t2 burst_slept t3 t4 off_accepted).0 in
      (awaits_off "scooter:horn" false sent ≡ false)
      × (awaits_off "scooter:blinker" false sent ≡ false)
unfolding locate locate_beeps
locate_awaits_nothing false t1 t2 burst_slept t3 t4 off_accepted = (refl, refl)
locate_awaits_nothing true t1 t2 burst_slept t3 t4 off_accepted =
    let first = beeps (t1 ∷ t2 ∷ []) in
    let second = beeps (t3 ∷ t4 ∷ []) in
    (
      silent_end off_accepted (first.0 ++ (if first.1 && burst_slept then second.0 else [])) (
          both_quiet first.0 second.0 (first.1 && burst_slept) (beeps_quiet (t1 ∷ t2 ∷ []))
            (beeps_quiet (t3 ∷ t4 ∷ []))),
      ended_by_off true off_accepted (first.0 ++ (if first.1 && burst_slept then second.0 else [])),
    )

-- Wherever the service's end interrupts it, and whatever the queues accept: behind every "on" or
-- "both" of locate that was accepted it requests "off". At the end the horn and the blinker are off,
-- or one of these requests "off" was refused.
pub locate_leaves_quiet :
    (both_accepted : Bool) (t1 t2 : Turn) (burst_slept : Bool) (t3 t4 : Turn) (off_accepted : Bool)
    → let sent = (locate both_accepted t1 t2 burst_slept t3 t4 off_accepted).0 in
      (awaits_off "scooter:horn" false sent ≡ false)
      × (awaits_off "scooter:blinker" false sent ≡ false)
      × ((refuses_off sent ≡ true)
          ⊎ ((left_on "scooter:horn" false sent ≡ false)
              × (left_on "scooter:blinker" false sent ≡ false)))
locate_leaves_quiet both_accepted t1 t2 burst_slept t3 t4 off_accepted =
    let sent = (locate both_accepted t1 t2 burst_slept t3 t4 off_accepted).0 in
    let (horn, blinker) =
      locate_awaits_nothing both_accepted t1 t2 burst_slept t3 t4 off_accepted in
    (
      horn,
      blinker,
      elim (Bool-cases (refuses_off sent)) [
        | inl refused ↦ inl refused
        | inr ended ↦ inr (
          left_on_lem "scooter:horn" false sent ended ∙ horn,
          left_on_lem "scooter:blinker" false sent ended ∙ blinker,
        )
      ],
    )
