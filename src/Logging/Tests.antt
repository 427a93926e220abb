-- ===== src/Logging/Tests.antt =====
-- The theorem on src/web/logging.rs at a queue with room.
use aralez.Prelude.{◌≡◌, refl, some, [], ◌∷◌}
use aralez.Prelude.Int.{pos}
use aralez.Text.{bytes}
use aralez.Metrics.{http_11}
use aralez.Logging.{LogMessage, error, Log, should_log, try_send, access_log}

abbrev message : LogMessage
message = record {
  response_code = 404;
  summary = bytes "GET /";
  client_ip = bytes "10.0.0.1";
  version = http_11;
  user_agent = bytes "-";
}

abbrev log : Log
log = record { access_log = some error; log_sender = some []; logging_errors = pos 0 }

access_log_run : (access_log message log).log_sender ≡ some (message ∷ [])
unfolding access_log should_log try_send
access_log_run = refl
