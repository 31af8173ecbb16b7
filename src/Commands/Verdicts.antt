-- ===== src/Commands/Verdicts.antt =====
-- What can be answered to a remote command, why, and what becomes of the answer.
use uplink_service.Prelude.{
  String, true, false, Option, none, some, [], ◌∷◌, ◌++◌, ◌≡◌, ◌≢◌, refl, ◌⊎◌, inl, inr, Bool-cases,
  Option-cases, append, ltb, length,
}
use uplink_service.GoMap.{GoMap, lookup}
use uplink_service.Connection.State.{
  Codec, Manager, CommandMessage, CommandResponse, response_message, is_connected,
  increment_messages_sent,
}
use uplink_service.Connection.Sends.{send_command_response}
use uplink_service.Commands.Gate.{GateConfig, Handling}
use uplink_service.Commands.Names.{is_known, command_of}

-- The command may run: the configuration does not disable it, or it is ping or get_state.
abbrev pub IsEnabled : GateConfig → String → Type 0
IsEnabled c command =
    (lookup command c.commands ≢ some true) ⊎ (command ≡ "ping") ⊎ (command ≡ "get_state")

-- Why no handler runs for a command, with the text of the response's error.
abbrev pub Reason : GateConfig → String → String → Type 0
Reason c command error =
    ((lookup command c.commands ≡ some true)
      × (command ≢ "ping")
      × (command ≢ "get_state")
      × (error ≡ "command disabled in config"))
    ⊎ ((command ≡ "shell")
        × (c.environment ≢ "development")
        × (error ≡ "command not allowed in this environment"))
    ⊎ ((is_known command ≡ false)
        × ((command ≢ "shell") ⊎ (c.environment ≡ "development"))
        × IsEnabled c command
        × (error ≡ append "unknown command: " command))

module _ {D : Type 0} where
  -- No handler ran, and the response says why.
  pub record Refused (c : GateConfig) (now : String) (cmd : CommandMessage D)
      (ran : Option Handling) (resp : CommandResponse D) : Type 0 where
    pub no_handler : ran ≡ none
    pub error : String
    pub reason : Reason c cmd.command error
    pub response : resp ≡ record {
      request_id = cmd.request_id;
      status = "failed";
      result = [];
      error = error;
      timestamp = now;
    }

  -- The handler of the command ran, and the response gives what it returned.
  pub record Ran (c : GateConfig) (returned : Handling → GoMap D × Option String) (now : String)
      (cmd : CommandMessage D) (ran : Option Handling) (resp : CommandResponse D) : Type 0 where
    pub handling : Handling
    pub one_handler : ran ≡ some handling
    pub of_command : command_of handling ≡ cmd.command
    pub known : is_known cmd.command ≡ true
    pub enabled : IsEnabled c cmd.command
    pub response :
        (((returned handling).1 ≡ none)
          × (resp ≡ record {
            request_id = cmd.request_id;
            status = "success";
            result = (returned handling).0;
            error = "";
            timestamp = now;
          }))
        ⊎ ((err : String) × ((returned handling).1 ≡ some err)
            × (resp ≡ record {
              request_id = cmd.request_id;
              status = "failed";
              result = (returned handling).0;
              error = err;
              timestamp = now;
            }))

module _ {k : Codec} where
  -- What becomes of a response: it is one more frame of the send queue, or it is lost, since the
  -- connection is down, the response cannot be encoded, or the queue of 256 frames is full.
  abbrev pub Sent : Manager k → CommandResponse k.Any → Manager k → Type 0
  Sent m resp after =
      ((payload : _) × (k.marshal (response_message resp) ≡ some payload)
        × (is_connected m ≡ true)
        × (ltb (length m.send_chan) 256 ≡ true)
        × (after.send_chan ≡ m.send_chan ++ payload ∷ []))
      ⊎ ((after ≡ m)
          × ((is_connected m ≡ false)
              ⊎ (k.marshal (response_message resp) ≡ none)
              ⊎ (ltb (length m.send_chan) 256 ≡ false)))

  pub send_command_response-Sent :
      (m : Manager k) (resp : CommandResponse k.Any) → Sent m resp (send_command_response m resp).0
  unfolding send_command_response increment_messages_sent
  send_command_response-Sent m resp = elim (Bool-cases (is_connected m)) [
    | inr down ↦ rw down (inr (refl, inl refl))
    | inl up ↦ rw up (elim (Option-cases (k.marshal (response_message resp))) [
      | inl bad ↦ rw bad (inr (refl, inr (inl refl)))
      | inr (payload, good) ↦ rw good (elim (Bool-cases (ltb (length m.send_chan) 256)) [
        | inl room ↦ rw room (inl (payload, refl, refl, refl, refl))
        | inr full ↦ rw full (inr (refl, inr (inr refl)))
      ])
    ])
  ]
