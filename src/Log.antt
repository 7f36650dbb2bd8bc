-- ===== src/Log.antt =====
-- log/log.go: the levels of the log, and what Logf does with a message.
use mock_my_mta.Base.{
  Text, lit, ◌==◌, ◌≡◌, refl, ◌++◌, Option, none, some, Bool, true, false, not, if◌then◌else◌, ℕ,
  ltb, Bool-cases, inl, inr, Outcome, ok, err, failed,
}

-- LogLevel
pub data LogLevel : Type 0 where
  debug info warning error fatal : LogLevel

-- The number of a level.
abbrev pub rank : LogLevel → ℕ
rank debug = 0
rank info = 1
rank warning = 2
rank error = 3
rank fatal = 4

abbrev pub prefix_of : LogLevel → Text
prefix_of debug = lit "debug:"
prefix_of info = lit "info:"
prefix_of warning = lit "warning:"
prefix_of error = lit "error:"
prefix_of fatal = lit "fatal:"

abbrev pub is_fatal : LogLevel → Bool
is_fatal fatal = true
is_fatal level = false

-- Logf: the format that privatePrintfFunc is called with, if it is called, and whether the exit
-- function is. The caller's file and line are those of runtime.Caller.
unfoldable pub logf : Text → LogLevel → LogLevel → Text → Option Text × Bool
logf caller minimum level format =
    if ltb (rank level) (rank minimum)
    then (none, false)
    else (some (caller ++ (lit ": " ++ (prefix_of level ++ (lit " " ++ format)))), is_fatal level)

-- ParseLogLevel: for any other text it logs a fatal message, which ends the program.
unfoldable pub parse_log_level : Text → Outcome LogLevel
parse_log_level level =
    if level == lit "DEBUG"
    then ok debug
    else if level == lit "INFO"
    then ok info
    else if level == lit "WARNING"
    then ok warning
    else if level == lit "ERROR"
    then ok error
    else if level == lit "FATAL"
    then ok fatal
    else err (failed (lit "unknown log level: " ++ level))

abbrev pub name_of : LogLevel → Text
name_of debug = lit "DEBUG"
name_of info = lit "INFO"
name_of warning = lit "WARNING"
name_of error = lit "ERROR"
name_of fatal = lit "FATAL"

abbrev is_printed : Option Text → Bool
is_printed none = false
is_printed (some line) = true

-- A message is printed exactly if its level is not below the minimum, and ends the program exactly
-- if it is a fatal one, which no minimum suppresses.
pub logf-minimum :
    (caller : Text) (minimum level : LogLevel) (format : Text)
    → (is_printed (logf caller minimum level format).0 ≡ not (ltb (rank level) (rank minimum)))
      × ((logf caller minimum level format).1 ≡ is_fatal level)
unfolding logf
logf-minimum caller minimum level format = elim (Bool-cases (ltb (rank level) (rank minimum))) [
  | inl below ↦ rw below (refl, not_fatal minimum level below)
  | inr shown ↦ rw shown (refl, refl)
]
  where
    not_fatal :
        (minimum level : LogLevel) → ltb (rank level) (rank minimum) ≡ true → false ≡ is_fatal level
    not_fatal minimum debug h = refl
    not_fatal minimum info h = refl
    not_fatal minimum warning h = refl
    not_fatal minimum error h = refl
    not_fatal debug fatal h = cc h
    not_fatal info fatal h = cc h
    not_fatal warning fatal h = cc h
    not_fatal error fatal h = cc h
    not_fatal fatal fatal h = cc h

-- The name of a level is parsed to that level.
pub parse_log_level-name_of : (level : LogLevel) → parse_log_level (name_of level) ≡ ok level
unfolding parse_log_level ◌==◌
parse_log_level-name_of debug = refl
parse_log_level-name_of info = refl
parse_log_level-name_of warning = refl
parse_log_level-name_of error = refl
parse_log_level-name_of fatal = refl
