-- ===== src/Fs/Logger.antt =====
-- fs/logger.h: what log statements write. The decimal form of the time is the parameter `decimal`.
use ndnfs_port.Prelude.{
  ℕ, zero, suc, ◌-◌, Bytes, [], ◌∷◌, ◌++◌, ltb, codes, Option, none, some, until_nul, if◌then◌else◌,
}

pub data LogLevel : Type 0 where
  log_none log_error log_debug log_debug2 : LogLevel

abbrev pub level_code : LogLevel → ℕ
level_code log_none = 0
level_code log_error = 1
level_code log_debug = 2
level_code log_debug2 = 3

unfoldable pub to_string : LogLevel → Bytes
unfolding codes
to_string log_error = codes "ERROR"
to_string _ = codes "DEBUG"

-- string(n, '\t')
unfoldable pub tabs : ℕ → Bytes
tabs zero = []
tabs (suc n) = b'\t' ∷ tabs n

-- The default level, which both programs set again as they start.
abbrev pub reporting_level : LogLevel
reporting_level = log_debug

-- What was written to the stream so far; `none` is a null pointer.
abbrev pub Written : Type 0
Written = Option Bytes

-- Output2FILE::output: fprintf(…, "%s", msg.c_str()) ends at the first NUL.
unfoldable pub output : Bytes → Written → Written
unfolding until_nul
output msg none = none
output msg (some before) = some (before ++ until_nul msg)

module _ (decimal : ℕ → Bytes) where
  -- The text that `get` starts a message with.
  unfoldable pub get : ℕ → LogLevel → Bytes
  unfolding codes to_string tabs
  get time level =
      codes "- "
      ++ (decimal time
          ++ (codes " "
              ++ (to_string level
                  ++ (codes ": "
                      ++ tabs (if ltb 2 (level_code level) then level_code level - 2 else 0)))))

  -- ~Log, where `message` was put behind what `get` gave: os.str() goes to the stream.
  unfoldable pub log : ℕ → LogLevel → Bytes → Written → Written
  unfolding get output
  log time level message stream = output (get time level ++ message) stream

  -- FILE_LOG(level) << message, at a reporting level.
  unfoldable pub file_log : LogLevel → ℕ → LogLevel → Bytes → Written → Written
  unfolding log
  file_log reporting time level message none = none
  file_log reporting time level message (some before) =
      if ltb (level_code reporting) (level_code level)
      then some before
      else log time level message (some before)
