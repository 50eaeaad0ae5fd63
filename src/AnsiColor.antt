-- ===== src/AnsiColor.antt =====
-- include/spdlog/sinks/ansicolor_sink.h and ansicolor_sink-inl.h. The target file is the text
-- that has been written to it; the formatter and the tests for a terminal are parameters.
pub mod Parts
pub mod Patterns
mod Tests
use structlog.Common.{
  ℕ, Bool, true, false, Option, some, none, List, [], ◌∷◌, ◌++◌, ◌&&◌, leb, ltb, ◌-◌, ◌>>=◌, take,
  drop, length, set, replicate, get_elem?, if◌then◌else◌,
}
use structlog.Common.{codes}
use structlog.Level.{Level, rank}
use structlog.LogMsg.{LogMsg}

-- `color_mode` of common.h.
pub data ColorMode : Type 0 where
  always automatic never : ColorMode

-- `Fm` are the formatters; `in_terminal` and `is_color_terminal` are what the system says.
pub record AnsiColorSink (Fm : Type 0) : Type 0 where
  pub target_file : List ℕ
  pub should_do_colors : Bool
  pub formatter : Fm
  pub colors : List (List ℕ)

-- The escape codes: "\033[", a number and "m".
abbrev escape : List ℕ → List ℕ
escape number = 27 ∷ b'[' ∷ (number ++ b'm' ∷ [])

abbrev pub reset : List ℕ
reset = escape []

abbrev white : List ℕ
white = escape (codes "37")

abbrev cyan : List ℕ
cyan = escape (codes "36")

abbrev green : List ℕ
green = escape (codes "32")

abbrev yellow_bold : List ℕ
yellow_bold = escape (codes "33") ++ escape (codes "1")

abbrev red_bold : List ℕ
red_bold = escape (codes "31") ++ escape (codes "1")

abbrev bold_on_red : List ℕ
bold_on_red = escape (codes "1") ++ escape (codes "41")

module _ {Fm : Type 0} where
  unfoldable pub set_color_mode : Bool → Bool → ColorMode → AnsiColorSink Fm → AnsiColorSink Fm
  set_color_mode in_terminal is_color_terminal ColorMode.always s = record s {
    should_do_colors = true;
  }
  set_color_mode in_terminal is_color_terminal ColorMode.automatic s = record s {
    should_do_colors = in_terminal && is_color_terminal;
  }
  set_color_mode in_terminal is_color_terminal ColorMode.never s = record s {
    should_do_colors = false;
  }

  -- An index out of the array's range is undefined, and changes nothing here.
  unfoldable pub set_color : Level → List ℕ → AnsiColorSink Fm → AnsiColorSink Fm
  set_color color_level color s = record s { colors = set s.colors (rank color_level) color }

  pub set_formatter : Fm → AnsiColorSink Fm → AnsiColorSink Fm
  set_formatter sink_formatter s = record s { formatter = sink_formatter }

  -- The constructor, with the default formatter, on a file with nothing in it.
  unfoldable pub create : Fm → Bool → Bool → ColorMode → AnsiColorSink Fm
  unfolding set_color_mode set_color
  create default_formatter in_terminal is_color_terminal mode = set_color Level.off reset (
      set_color Level.critical bold_on_red (
        set_color Level.err red_bold (
          set_color Level.warn yellow_bold (
            set_color Level.info green (
              set_color Level.debug cyan (
                set_color Level.trace white (
                  set_color_mode in_terminal is_color_terminal mode (record {
                    target_file = [];
                    should_do_colors = false;
                    formatter = default_formatter;
                    colors = replicate 7 [];
                  }))))))))

  unfoldable pub print_ccode : List ℕ → AnsiColorSink Fm → AnsiColorSink Fm
  print_ccode color_code s = record s { target_file = s.target_file ++ color_code }

  -- A range that is not one of the text is undefined, and `none` here.
  unfoldable pub print_range : List ℕ → ℕ → ℕ → AnsiColorSink Fm → Option (AnsiColorSink Fm)
  print_range formatted start end s =
      if leb start end && leb end (length formatted)
      then some
          (record s { target_file = s.target_file ++ take (end - start) (drop start formatted) })
      else none

  -- The formatted text is printed with the color range of the message.
  unfoldable pub print_message : List ℕ → LogMsg → AnsiColorSink Fm → Option (AnsiColorSink Fm)
  unfolding print_range print_ccode
  print_message formatted msg s =
      if s.should_do_colors && ltb msg.color_range_start msg.color_range_end
      then (print_range formatted 0 msg.color_range_start s >>= λ s1.
          get_elem? s.colors (rank msg.level) >>= λ color.
          print_range formatted msg.color_range_start msg.color_range_end (print_ccode color s1)
          >>= λ s2.
              print_range formatted msg.color_range_end (length formatted) (print_ccode reset s2))
      else print_range formatted 0 (length formatted) s

  -- `format` gives the text, the message with its color range, and the formatter after it, or
  -- throws, which is `none`.
  unfoldable pub log :
      (Fm → LogMsg → Option (List ℕ × LogMsg × Fm))
      → LogMsg
      → AnsiColorSink Fm
      → Option (LogMsg × AnsiColorSink Fm)
  unfolding print_message
  log format msg s =
      let cleared = record msg { color_range_start = 0; color_range_end = 0 } in
      format s.formatter cleared >>= λ (r : List ℕ × LogMsg × Fm).
      print_message r.0 r.1 (record s { formatter = r.2 }) >>= λ s'. some (r.1, s')
