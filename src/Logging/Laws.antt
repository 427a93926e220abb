-- ===== src/Logging/Laws.antt =====
-- What src/web/logging.rs logs, and that its channel stays bounded.
use aralez.Prelude.{
  ℕ, ◌<◌, ◌≡◌, refl, ◌↔◌, ◌⊎◌, inl, inr, true, some, List, [], ◌∷◌, ◌++◌, arith, ltb, length,
  Bool-cases,
}
use aralez.Logging.{
  LogMessage, LogLevel, access, error, none_level, Log, log_buffer, level_of, should_log, try_send,
  access_log,
}

-- The level asks for a message about this status.
abbrev pub IsWanted : LogLevel → ℕ → Type 0
IsWanted level code = (level ≡ access) ⊎ ((level ≡ error) × ((code < 100) ⊎ (399 < code)))

pub should_log_iff :
    (level : LogLevel) (code : ℕ) → (should_log level code ≡ true) ↔ IsWanted level code
unfolding should_log
should_log_iff access code = (λ e. inl refl, λ w. refl)
should_log_iff error code = ground arith
should_log_iff none_level code = ground arith

-- Where the channel is set up, a message is queued exactly if the level asks for its status and
-- the channel has room: it is then the last of the queue, and otherwise the queue is as it was.
pub access_log-queued :
    (message : LogMessage) (log : Log) (queue : List LogMessage)
    → log.log_sender ≡ some queue
    → ((access_log message log).log_sender ≡ some (queue ++ message ∷ []))
        × IsWanted (level_of log) message.response_code
        × (length queue < log_buffer)
      ⊎ (((access_log message log).log_sender ≡ some queue)
          × ¬ (IsWanted (level_of log) message.response_code × (length queue < log_buffer)))
unfolding access_log try_send
access_log-queued message log queue e =
    let wanted = should_log_iff (level_of log) message.response_code in
    elim (Bool-cases (should_log (level_of log) message.response_code)) [
      | inr off ↦ inr (rw (off, access_log) e, λ w. let k = wanted.1 w.0 in cc)
      | inl on ↦ elim (Bool-cases (ltb (length queue) log_buffer)) [
        | inl room ↦ inl (rw (on, e, room, access_log, try_send) refl, wanted.0 on, ground arith)
        | inr full ↦
            inr
              (rw (on, e, full, access_log, try_send) e, λ w. let r = w.1 in absurd (ground arith))
      ]
    ]
