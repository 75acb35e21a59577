-- ===== src/Agent/State.antt =====
-- The agent's command directory and its spool, agent/go/cmd/rmm-agent/main.go:
-- persistCommandResult, cleanupCommandState, deliverCommandResult and spoolCommandResult.
pub mod Files
use openwrt_rmm.Base.{
  ℕ, ◌+◌, ◌*◌, String, Bool, true, false, ◌&&◌, ◌||◌, Option, none, some, List, [], ◌∷◌, ◌++◌,
  delete_where, leb, ltb, if◌then◌else◌, ◌==◌,
}
use openwrt_rmm.Schema.{ℤ, Check}
use openwrt_rmm.Env.{hours}
use openwrt_rmm.Agent.{Config, AgentCommand}

-- commandResult's map; `details` is its "result".
pub record CommandResult : Type 0 where
  pub device_id : String
  pub status : String
  pub exit_code : ℤ
  pub output : String
  pub details : List (String × String)

-- <id>.pending, or <id>.json with its contents
pub data Content : Type 0 where
  pending : Content
  saved : CommandResult → Content

-- A file of CommandStateDir. The accepted identifiers hold no dot, so that a file belongs to one.
pub record StateFile : Type 0 where
  pub command_id : String
  pub content : Content
  pub modified : ℕ

-- A file <id>.json of SpoolDir.
pub record SpoolFile : Type 0 where
  pub command_id : String
  pub body : CommandResult

-- What the agent keeps on the router. `runs` is the history of the commands that were started,
-- `sent` of the results that the server took or refused for good.
pub record AgentState : Type 0 where
  pub config : Config
  pub files : List StateFile
  pub spool : List SpoolFile
  pub runs : List AgentCommand
  pub sent : List SpoolFile

abbrev pub is_pending : Content → Bool
is_pending pending = true
is_pending (saved r) = false

abbrev pub is_saved : Content → Bool
is_saved pending = false
is_saved (saved r) = true

abbrev pub marker_of : String → StateFile → Bool
marker_of id f = (f.command_id == id) && is_pending f.content

abbrev pub result_of : String → StateFile → Bool
result_of id f = (f.command_id == id) && is_saved f.content

result_or : Content → Option CommandResult → Option CommandResult
result_or pending rest = rest
result_or (saved r) rest = some r

-- The contents of <id>.json, or `none` for os.ErrNotExist
unfoldable pub find_result : String → List StateFile → Option CommandResult
unfolding result_or
find_result id [] = none
find_result id (f ∷ fs) =
    let rest = find_result id fs in if f.command_id == id then result_or f.content rest else rest

abbrev pub days : ℕ → ℕ
days n = hours (24 * n)

-- info.ModTime().Before(now - 30 days), without the subtraction
abbrev pub outdated : ℕ → StateFile → Bool
outdated now f = ltb (f.modified + days 30) now

-- cleanupCommandState; `listed` is whether the directory could be read.
unfoldable pub cleanup_command_state : Bool → ℕ → AgentState → AgentState
cleanup_command_state listed now s =
    if listed then record s { files = delete_where (outdated now) s.files } else s

-- os.OpenFile with O_EXCL, once there is no marker
unfoldable pub reserve : ℕ → String → AgentState → AgentState
reserve now id s = record s {
  files = record { command_id = id; content = pending; modified = now } ∷ s.files;
}

-- persistCommandResult, where it succeeds: the rename replaces the file.
unfoldable pub persist_command_result : ℕ → String → CommandResult → AgentState → AgentState
persist_command_result now id result s = record s {
  files =
      record { command_id = id; content = saved result; modified = now }
      ∷ delete_where (result_of id) s.files;
}

-- os.Remove of the marker, whose error is ignored
unfoldable pub remove_marker : Bool → String → AgentState → AgentState
remove_marker removed id s =
    if removed then record s { files = delete_where (marker_of id) s.files } else s

abbrev pub spooled_for : String → SpoolFile → Bool
spooled_for id f = f.command_id == id

-- spoolCommandResult; `written` is whether the directory and the file could be written.
unfoldable pub spool_command_result : Bool → String → CommandResult → AgentState → AgentState
spool_command_result written id body s =
    if written
    then record s {
      spool = record { command_id = id; body = body } ∷ delete_where (spooled_for id) s.spool;
    }
    else s

-- A status from 200 to 299 or from 400 to 499; `none` is a transport error.
abbrev pub is_answered : Option ℕ → Bool
is_answered none = false
is_answered (some status) = (leb 200 status && ltb status 300) || (leb 400 status && ltb status 500)

-- deliverCommandResult, with sendCommandResult
unfoldable pub deliver_command_result :
    Option ℕ → Bool → String → CommandResult → AgentState → AgentState
unfolding spool_command_result
deliver_command_result status written id result s =
    if is_answered status
    then record s { sent = s.sent ++ record { command_id = id; body = result } ∷ [] }
    else spool_command_result written id result s

-- One entry of flushSpooledResults: whether it could be read, and the server's answer.
unfoldable pub flush_spooled_result : Bool → Option ℕ → SpoolFile → AgentState → AgentState
flush_spooled_result readable status f s =
    if readable && is_answered status
    then record s {
      spool = delete_where (spooled_for f.command_id) s.spool;
      sent = s.sent ++ f ∷ [];
    }
    else s

flush_from : (SpoolFile → Bool × Option ℕ) → List SpoolFile → AgentState → AgentState
unfolding flush_spooled_result
flush_from answer [] s = s
flush_from answer (f ∷ fs) s =
    flush_from answer fs (flush_spooled_result (answer f).0 (answer f).1 f s)

-- flushSpooledResults over the entries that os.ReadDir lists
unfoldable pub flush_spooled_results : (SpoolFile → Bool × Option ℕ) → AgentState → AgentState
unfolding flush_from
flush_spooled_results answer s = flush_from answer s.spool s
