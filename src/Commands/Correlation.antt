-- ===== src/Commands/Correlation.antt =====
-- The result of a keycard command goes to the command that asked for it.
use uplink_service.Prelude.{
  ℕ, Bool, true, false, Option, none, some, List, [], ◌∷◌, ◌++◌, ◌≡◌, refl, arith, ◌⊎◌, inl, inr,
  ◌==◌, All, Bool-cases,
}
use uplink_service.Commands.Keycards.{
  Keycards, KeycardError, deliver_keycard_result, register, clear_response, CommandEnd, not_sent,
  answered, times_out, is_cancelled, finish,
}

-- The handler with the keycard service: the commands that were sent and not answered, and what was
-- delivered: the command that a result answers, and the channel that got it.
pub record Exchange : Type 0 where
  pub keycards : Keycards
  pub pending : List ℕ
  pub delivered : List (ℕ × Option ℕ)

-- A command is asked for and its request is sent or not; the service answers the oldest request; a
-- command gives up.
pub data KeycardEvent : Type 0 where
  asks : ℕ → Bool → KeycardEvent
  answers : KeycardEvent
  gives_up : ℕ → CommandEnd → KeycardEvent

abbrev asked : Exchange → ℕ → Bool → Keycards × Option KeycardError → Exchange
asked x id true (k, none) = record x { keycards = k; pending = x.pending ++ id ∷ [] }
asked x id false (k, none) = record x { keycards = (finish k id not_sent).0 }
asked x id sent (k, some e) = record x { keycards = k }

abbrev answer_first : Exchange → List ℕ → Exchange
answer_first x [] = x
answer_first x (id ∷ rest) = record {
  keycards = (deliver_keycard_result x.keycards).0;
  pending = rest;
  delivered = (id, (deliver_keycard_result x.keycards).1) ∷ x.delivered;
}

-- Giving up is a time-out or a cancelled context.
abbrev give_up : Exchange → ℕ → CommandEnd → Exchange
give_up x id times_out = record x { keycards = (finish x.keycards id times_out).0 }
give_up x id is_cancelled = record x { keycards = (finish x.keycards id is_cancelled).0 }
give_up x id not_sent = x
give_up x id (answered r) = x

abbrev pub exchange_step : Exchange → KeycardEvent → Exchange
exchange_step x (asks id sent) = asked x id sent (register x.keycards id)
exchange_step x answers = answer_first x x.pending
exchange_step x (gives_up id e) = give_up x id e

abbrev pub exchange : Exchange → List KeycardEvent → Exchange
exchange x [] = x
exchange x (e ∷ es) = exchange (exchange_step x e) es

abbrev pub idle_exchange : Bool → Exchange
idle_exchange watcher = record {
  keycards = record { has_watcher = watcher; keycard_result = none };
  pending = [];
  delivered = [];
}

abbrev pub IsOwn : ℕ × Option ℕ → Type 0
IsOwn (id, channel) = channel ≡ some id

-- The channel that is registered is that of the one command without an answer.
abbrev IsPaired : Exchange → Type 0
IsPaired x =
    (((x.keycards.keycard_result ≡ none) × (x.pending ≡ []))
      ⊎ ((id : ℕ) × (x.keycards.keycard_result ≡ some id) × (x.pending ≡ id ∷ [])))
    × All IsOwn x.delivered

eq_self : (n : ℕ) → (n == n) ≡ true
eq_self n = ground arith

asked-IsPaired :
    (x : Exchange) (id : ℕ) (sent : Bool) → IsPaired x → IsPaired (exchange_step x (asks id sent))
unfolding register finish clear_response
asked-IsPaired x id true (inl (free, all), own) = elim (Bool-cases x.keycards.has_watcher) [
  | inl on ↦ simp (on, free, all) (inr (id, refl, refl), own)
  | inr off ↦ simp (off, free, all) (inl (refl, refl), own)
]
asked-IsPaired x id false (inl (free, all), own) = elim (Bool-cases x.keycards.has_watcher) [
  | inl on ↦ simp (on, free, all, eq_self id) (inl (refl, refl), own)
  | inr off ↦ simp (off, free, all) (inl (refl, refl), own)
]
asked-IsPaired x id sent (inr (j, busy, one), own) = elim (Bool-cases x.keycards.has_watcher) [
  | inl on ↦ simp (on, busy, one) (inr (j, refl, refl), own)
  | inr off ↦ simp (off, busy, one) (inr (j, refl, refl), own)
]

answers-IsPaired : (x : Exchange) → IsPaired x → IsPaired (exchange_step x answers)
unfolding deliver_keycard_result
answers-IsPaired x (inl (free, all), own) = simp all (inl (free, refl), own)
answers-IsPaired x (inr (j, busy, one), own) = simp one (inl (refl, refl), (busy, own))

gives_up-IsPaired :
    (x : Exchange) (id : ℕ) (e : CommandEnd) → IsPaired x → IsPaired (give_up x id e)
unfolding finish
gives_up-IsPaired x id times_out h = h
gives_up-IsPaired x id is_cancelled h = h
gives_up-IsPaired x id not_sent h = h
gives_up-IsPaired x id (answered r) h = h

exchange-IsPaired : (x : Exchange) (es : List KeycardEvent) → IsPaired x → IsPaired (exchange x es)
exchange-IsPaired x [] h = h
exchange-IsPaired x (asks id sent ∷ es) h =
    exchange-IsPaired (exchange_step x (asks id sent)) es (asked-IsPaired x id sent h)
exchange-IsPaired x (answers ∷ es) h =
    exchange-IsPaired (exchange_step x answers) es (answers-IsPaired x h)
exchange-IsPaired x (gives_up id e ∷ es) h =
    exchange-IsPaired (exchange_step x (gives_up id e)) es (gives_up-IsPaired x id e h)

-- If the keycard service answers the requests that it got in their order, each answer is delivered
-- to the channel of the very command that it answers, however commands are refused, fail to be
-- sent, time out or are cancelled in between. In particular a late answer never meets a later
-- command.
pub exchange-IsOwn :
    (watcher : Bool) (es : List KeycardEvent)
    → All IsOwn (exchange (idle_exchange watcher) es).delivered
exchange-IsOwn watcher es = (exchange-IsPaired (idle_exchange watcher) es (inl (refl, refl), tt)).1
