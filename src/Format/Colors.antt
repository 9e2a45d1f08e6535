-- ===== src/Format/Colors.antt =====
-- enums.hpp: the names of levels and the escape codes of colours; config.hpp: the colour of each level,
-- where the build does not choose another.
use log_it_cpp.Base.{ℕ, [], ◌∷◌}
use log_it_cpp.Record.{Bytes, LogLevel, trace, debug, info, warn, error, fatal}

pub data TextColor : Type 0 where
  black dark_red dark_green dark_yellow dark_blue dark_magenta dark_cyan light_gray : TextColor
  dark_gray red green yellow blue magenta cyan white : TextColor

-- `to_c_str(level, 1)`.
unfoldable pub short_name : LogLevel → Bytes
short_name trace = b'T' ∷ []
short_name debug = b'D' ∷ []
short_name info = b'I' ∷ []
short_name warn = b'W' ∷ []
short_name error = b'E' ∷ []
short_name fatal = b'F' ∷ []

-- 27 is '\033'.
abbrev pub escape_code : ℕ → ℕ → Bytes
escape_code tens units = 27 ∷ b'[' ∷ tens ∷ units ∷ b'm' ∷ []

unfoldable pub ansi_code : TextColor → Bytes
ansi_code black = escape_code b'3' b'0'
ansi_code dark_red = escape_code b'3' b'1'
ansi_code dark_green = escape_code b'3' b'2'
ansi_code dark_yellow = escape_code b'3' b'3'
ansi_code dark_blue = escape_code b'3' b'4'
ansi_code dark_magenta = escape_code b'3' b'5'
ansi_code dark_cyan = escape_code b'3' b'6'
ansi_code light_gray = escape_code b'3' b'7'
ansi_code dark_gray = escape_code b'9' b'0'
ansi_code red = escape_code b'9' b'1'
ansi_code green = escape_code b'9' b'2'
ansi_code yellow = escape_code b'9' b'3'
ansi_code blue = escape_code b'9' b'4'
ansi_code magenta = escape_code b'9' b'5'
ansi_code cyan = escape_code b'9' b'6'
ansi_code white = escape_code b'9' b'7'

unfoldable pub level_color : LogLevel → TextColor
level_color trace = dark_gray
level_color debug = blue
level_color info = green
level_color warn = yellow
level_color error = red
level_color fatal = magenta

unfoldable pub get_log_level_color : LogLevel → Bytes
get_log_level_color level = ansi_code (level_color level)

-- LOGIT_DEFAULT_COLOR.
abbrev pub default_color : TextColor
default_color = light_gray
