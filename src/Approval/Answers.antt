-- ===== src/Approval/Answers.antt =====
-- internal/approval/approval.go: `Decide`.
use villa_straylight.Base.{Bool, true, false, ◌&&◌, ◌||◌, Option, none, some, if◌then◌else◌}
use villa_straylight.Approval.{
  Action, read, write, execute, list, fetch, download, other_action, Mode, ask_mode, auto_mode,
  other_mode, Decision, unset, allow, ask, deny, Request,
}
use villa_straylight.Approval.Commands.{is_deletion, is_safe_command}
use villa_straylight.Approval.Paths.{auto_allowed}

-- A row of `table`.
unfoldable pub row : Decision → Decision → Mode → Decision
row in_ask in_auto ask_mode = in_ask
row in_ask in_auto auto_mode = in_auto
row in_ask in_auto (other_mode m) = unset

-- `table`, whose missing cells are `unset`.
unfoldable pub table : Action → Mode → Decision
table read = row allow allow
table list = row allow allow
table write = row ask allow
table execute = row ask ask
table fetch = row deny deny
table download = row deny deny
table (other_action a) = λ mode. unset

unfoldable pub or_ask : Decision → Decision
or_ask unset = ask
or_ask allow = allow
or_ask ask = ask
or_ask deny = deny

unfoldable pub is_auto : Mode → Bool
is_auto auto_mode = true
is_auto ask_mode = false
is_auto (other_mode m) = false

-- The two exceptions for a command, or none.
unfoldable pub exception_of : Mode → Request → Option Decision
exception_of mode req =
    if is_deletion req.command
    then some ask
    else if is_auto mode && (auto_allowed req.command req.workspace || is_safe_command req.command)
    then some allow
    else none

unfoldable pub answer : Option Decision → Action → Mode → Decision
answer (some d) action mode = d
answer none action mode = or_ask (table action mode)

unfoldable pub decide_as : Action → Mode → Request → Decision
decide_as execute mode req = answer (exception_of mode req) execute mode
decide_as read mode req = answer none read mode
decide_as write mode req = answer none write mode
decide_as list mode req = answer none list mode
decide_as fetch mode req = answer none fetch mode
decide_as download mode req = answer none download mode
decide_as (other_action a) mode req = answer none (other_action a) mode

unfoldable pub decide : Mode → Request → Decision
decide mode req = decide_as req.action mode req
