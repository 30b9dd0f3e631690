-- ===== src/Changes/Change.antt =====
-- `Change`: its commands, and the counter that tells when the last one has finished.
use sync_harbor.Base.{
  ℕ, Bool, true, false, Option, none, some, List, [], ◌∷◌, ◌++◌, if◌then◌else◌, map,
}
use sync_harbor.Base.Int.{ℤ, pos, add_one, sub_one, is_one}
use sync_harbor.Utils.Kinds.{ChangeType, EntryType}
use sync_harbor.Utils.FilePath.{FilePath}
use sync_harbor.Changes.Command.{
  Command, CommandKind, is_local, kind_of, next_commands, to_list, get_target_type,
}

pub data Status : Type 0 where
  pending completed cancelled : Status

-- `_dependents` belongs to a change that runs: see Active of Manager.
pub record Change : Type 0 where
  pub cmd_chain : List Command
  pub target_path : FilePath
  pub pending_cmds : ℤ
  pub change_time : ℕ
  pub cloud_id : ℕ
  pub status : Status
  pub type : ChangeType

-- The constructor without commands.
unfoldable pub new_change : ChangeType → FilePath → ℕ → ℕ → Change
new_change t target_path ct cloud_id = record {
  cmd_chain = [];
  target_path = target_path;
  pending_cmds = pos 0;
  change_time = ct;
  cloud_id = cloud_id;
  status = pending;
  type = t;
}

-- `onCommandCreated`
unfoldable pub on_command_created : Change → Change
on_command_created ch = record ch { pending_cmds = add_one ch.pending_cmds }

-- `onCommandFinished`, and whether it calls `_on_complete`.
unfoldable pub on_command_finished : Change → Change × Bool
on_command_finished ch =
    if is_one ch.pending_cmds
    then (record ch { pending_cmds = sub_one ch.pending_cmds; status = completed }, true)
    else (record ch { pending_cmds = sub_one ch.pending_cmds }, false)

-- `onCancel`
unfoldable pub on_cancel : Change → Change
on_cancel ch = record ch { status = cancelled }

-- `setCmdChain` of one command, which is added to those that are there.
unfoldable pub add_to_chain : Change → Command → Change
add_to_chain ch cmd = record ch { cmd_chain = ch.cmd_chain ++ (cmd ∷ []) }

-- `setCmdChain` of a vector.
unfoldable pub set_cmd_chain : Change → List Command → Change
set_cmd_chain ch cmds = record ch { cmd_chain = cmds }

target_type : List Command → Option EntryType
target_type [] = some EntryType.null
target_type (c ∷ cs) = get_target_type c

-- `getTargetType`; `none` is undefined behaviour.
unfoldable pub change_target_type : Change → Option EntryType
unfolding target_type get_target_type
change_target_type ch = target_type ch.cmd_chain

-- The queue that a command is submitted to.
pub data Destination : Type 0 where
  callback_dispatcher http_client : Destination

unfoldable pub destination : CommandKind → Destination
destination kind = if is_local kind then callback_dispatcher else http_client

dispatch_chain : List Command → Option (List (Destination × Command))
dispatch_chain [] = none
dispatch_chain (c ∷ cs) = some (map (λ cmd. (destination (kind_of c), cmd)) (c ∷ cs))

-- `dispatch`: the first command decides where all of them go; `none` is the access to the first
-- element of an empty vector.
unfoldable pub dispatch : Change → Option (List (Destination × Command))
unfolding dispatch_chain destination
dispatch ch = dispatch_chain ch.cmd_chain

-- `continueChain`: the commands behind a cloud command go to the dispatcher, those behind a local
-- one to the HTTP client.
unfoldable pub continue_chain : Command → List (Destination × Command)
unfolding to_list next_commands kind_of is_local
continue_chain c =
    map (λ cmd. (if is_local (kind_of c) then http_client else callback_dispatcher, cmd))
      (to_list (next_commands c))
