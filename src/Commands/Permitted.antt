-- ===== src/Commands/Permitted.antt =====
-- What the gate of remote commands lets through, and what is answered.
use uplink_service.Prelude.{String, Option, ◌⊎◌}
use uplink_service.GoMap.{GoMap}
use uplink_service.Connection.State.{Codec, Manager, CommandMessage, CommandResponse}
use uplink_service.Commands.Gate.{GateConfig, Handling}
use uplink_service.Commands.Verdicts.{Refused, Ran, Sent}

module _ {k : Codec} where
  -- One response is made and handed to SendCommandResponse; what it says, and what becomes of it.
  pub record Answered (c : GateConfig) (returned : Handling → GoMap k.Any × Option String)
      (now : String) (m : Manager k) (cmd : CommandMessage k.Any) (r : Option Handling × Manager k)
      : Type 0 where
    pub resp : CommandResponse k.Any
    pub says : Refused c now cmd r.0 resp ⊎ Ran c returned now cmd r.0 resp
    pub sent : Sent m resp r.1
