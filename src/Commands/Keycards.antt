-- ===== src/Commands/Keycards.antt =====
-- internal/commands/keycard_handlers.go: one keycard command at a time waits for its result, which
-- a watcher of the keycard hash delivers.
use uplink_service.Prelude.{
  ℕ, String, Bool, false, not, Option, none, some, ◌==◌, is_some, if◌then◌else◌, str_eq,
}

-- keycardResult as the command that made the channel, and whether keycardWatcher is set.
pub record Keycards : Type 0 where
  pub has_watcher : Bool
  pub keycard_result : Option ℕ

pub data KeycardError : Type 0 where
  watcher_unavailable : KeycardError
  still_awaiting : KeycardError
  send_failed : KeycardError
  error_unread : KeycardError
  command_failed : String → KeycardError
  unexpected_response : String → KeycardError
  timed_out : KeycardError
  context_done : KeycardError

-- A keycardCommandResult: the error of reading command-error, or the result and its code.
pub data KeycardResult : Type 0 where
  unread : KeycardResult
  reported : String → String → KeycardResult

unfoldable pub keycard_command_error : String → String → Option KeycardError
keycard_command_error result code =
    if not (str_eq code "")
    then some (command_failed result)
    else if not (str_eq result "ok")
    then some (unexpected_response result)
    else none

-- handleKeycardResult by what the hash holds in command-error, where it can be read.
abbrev pub keycard_result_of : String → Option String → KeycardResult
keycard_result_of result none = unread
keycard_result_of result (some code) = reported result code

-- The second result is the command whose channel gets the result.
unfoldable pub deliver_keycard_result : Keycards → Keycards × Option ℕ
deliver_keycard_result k = (record k { keycard_result = none }, k.keycard_result)

-- keycardCommand up to the registration of its channel.
unfoldable pub register : Keycards → ℕ → Keycards × Option KeycardError
register k id =
    if not k.has_watcher
    then (k, some watcher_unavailable)
    else if is_some k.keycard_result
    then (k, some still_awaiting)
    else (record k { keycard_result = some id }, none)

abbrev pub is_response : ℕ → Option ℕ → Bool
is_response id none = false
is_response id (some j) = j == id

-- The deferred reset of keycardCommand.
unfoldable pub clear_response : Keycards → ℕ → Keycards
clear_response k id =
    if is_response id k.keycard_result then record k { keycard_result = none } else k

abbrev pub result_error : KeycardResult → Option KeycardError
result_error unread = some error_unread
result_error (reported result code) = keycard_command_error result code

-- How the part of keycardCommand behind the registration ends.
pub data CommandEnd : Type 0 where
  not_sent : CommandEnd
  answered : KeycardResult → CommandEnd
  times_out : CommandEnd
  is_cancelled : CommandEnd

unfoldable pub finish : Keycards → ℕ → CommandEnd → Keycards × Option KeycardError
unfolding clear_response keycard_command_error
finish k id not_sent = (clear_response k id, some send_failed)
finish k id (answered r) = (clear_response k id, result_error r)
finish k id times_out = (k, some timed_out)
finish k id is_cancelled = (k, some context_done)
