-- ===== src/Logging.antt =====
-- src/web/logging.rs: which requests are logged, and the bounded channel to the writer.
pub mod Laws
mod Tests
use aralez.Prelude.{
  ℕ, suc, ◌+◌, Bool, true, false, not, ◌&&◌, Option, none, some, List, [], ◌∷◌, ◌++◌, ◌==◌, list_eq,
  nat_eq, if◌then◌else◌, leb, ltb, length,
}
use aralez.Prelude.Int.{ℤ}
use aralez.Text.{Str, bytes}
use aralez.Metrics.{HttpVersion, inc}

pub record LogMessage : Type 0 where
  pub response_code : ℕ
  pub summary : Str
  pub client_ip : Str
  pub version : HttpVersion
  pub user_agent : Str

pub data LogLevel : Type 0 where
  access error none_level : LogLevel

abbrev pub log_buffer : ℕ
log_buffer = 16384

unfoldable pub from_str : Str → LogLevel
from_str s = if s == bytes "all" then access else if s == bytes "error" then error else none_level

-- The statics: the level, the queue of the channel once there is one, and the counter of errors.
pub record Log : Type 0 where
  pub access_log : Option LogLevel
  pub log_sender : Option (List LogMessage)
  pub logging_errors : ℤ

-- A `OnceLock` keeps the first level that it is given.
unfoldable pub init_access_log : Str → Log → Log
init_access_log level_str log = elim log.access_log [
  | some level ↦ log
  | none ↦ record log { access_log = some (from_str level_str) }
]

abbrev pub level_of : Log → LogLevel
level_of log = elim log.access_log [ none ↦ none_level | some level ↦ level ]

unfoldable pub should_log : LogLevel → ℕ → Bool
should_log access response_code = true
should_log none_level response_code = false
should_log error response_code = not (leb 100 response_code && leb response_code 399)

-- `try_send`: a full channel drops the message.
unfoldable pub try_send : LogMessage → Log → Log
try_send message log = elim log.log_sender [
  | none ↦ log
  | some queue ↦
      if ltb (length queue) log_buffer
      then record log { log_sender = some (queue ++ message ∷ []) }
      else record log { logging_errors = inc log.logging_errors }
]

unfoldable pub access_log : LogMessage → Log → Log
access_log message log =
    if should_log (level_of log) message.response_code then try_send message log else log
