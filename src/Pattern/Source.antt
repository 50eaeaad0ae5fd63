-- ===== src/Pattern/Source.antt =====
-- The flags of pattern_formatter-inl.h that print where a message was logged. They print nothing
-- for a message without a source location.
use structlog.Common.{[], ◌==◌, ◌+◌, length, ◌∷◌, some, ◌^◌, if◌then◌else◌, none, Option, List, ℕ}
use structlog.Common.Int.{to_unsigned, ℤ}
use structlog.LogMsg.{LogMsg, no_source}
use structlog.FmtHelper.{Fmt, Buf, append_string_view, append_int, push_back}
use structlog.Padding.{Padder, PaddingInfo, with_padder}
use structlog.Pattern.Fields.{padder_count_digits}

-- The text behind the last `sep`, if there is one (`strrchr`).
after_last : ℕ → List ℕ → Option (List ℕ)
after_last sep [] = none
after_last sep (c ∷ s) = elim (after_last sep s) [
  | some t ↦ some t
  | none ↦ if c == sep then some s else none
]

-- `short_filename_formatter::basename`, with the one separator of Unix.
unfoldable pub basename : List ℕ → List ℕ
unfolding after_last
basename filename = elim (after_last b'/' filename) [ some t ↦ t | none ↦ filename ]

-- A text whose size is counted only where there is padding.
unless_empty : LogMsg → Padder → PaddingInfo → List ℕ → Buf → Option Buf
unless_empty msg p info t dest =
    if no_source msg.source
    then some dest
    else with_padder p (if info.enabled then length t else 0) info (append_string_view t) dest

unfoldable pub format_g : Padder → PaddingInfo → LogMsg → Buf → Option Buf
unfolding unless_empty
format_g p info msg = unless_empty msg p info msg.source.filename

unfoldable pub format_s : Padder → PaddingInfo → LogMsg → Buf → Option Buf
unfolding unless_empty basename
format_s p info msg = unless_empty msg p info (basename msg.source.filename)

unfoldable pub format_funcname : Padder → PaddingInfo → LogMsg → Buf → Option Buf
unfolding unless_empty
format_funcname p info msg = unless_empty msg p info msg.source.funcname

module _ (f : Fmt) where
  -- The line is an `int`, whose digits are counted after a cast to `uint32_t`.
  line_digits : Padder → ℤ → ℕ
  line_digits p line = padder_count_digits f p (to_unsigned (2 ^ 32) line)

  unfoldable pub format_linenum : Padder → PaddingInfo → LogMsg → Buf → Option Buf
  unfolding line_digits
  format_linenum p info msg dest =
      if no_source msg.source
      then some dest
      else with_padder p (line_digits p msg.source.line) info (append_int f msg.source.line) dest

  unfoldable pub format_location : Padder → PaddingInfo → LogMsg → Buf → Option Buf
  unfolding line_digits
  format_location p info msg dest =
      let loc = msg.source in
      let text_size =
        if info.enabled then length loc.filename + line_digits p loc.line + 1 else 0 in
      if no_source loc
      then some dest
      else with_padder p text_size info
          (λ d. append_int f loc.line (push_back b':' (append_string_view loc.filename d))) dest
