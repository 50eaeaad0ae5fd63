-- ===== src/Pattern/Compile.antt =====
-- `compile_pattern_`, `handle_padspec_` and `handle_flag_` of pattern_formatter-inl.h.
use mathlib.Core.Option
use structlog.Common.{
  zero, size_mod, [], length, ◌%◌, min, ◌&&◌, ◌++◌, true, some, leb, none, false, suc, ◌∷◌, ◌==◌,
  if◌then◌else◌, List, Option, Bool, ℕ, ◌+◌, ◌*◌, ◌-◌,
}
use structlog.Common.Int.{ℤ, pos}
use structlog.Padding.{Padder, PaddingInfo, PadSide, no_padding, padding_info}
use structlog.Pattern.Formatter.{Field, Custom, FlagFormatter}

-- `std::isdigit`
abbrev pub is_digit : ℕ → Bool
is_digit c = leb b'0' c && leb c b'9'

-- The loop over the digits of a width, which is a `size_t`: the width and what follows.
unfoldable pub read_width : ℕ → List ℕ → ℕ × List ℕ
read_width width [] = (width, [])
read_width width (c ∷ rest) =
    let more = read_width ((width * 10 + (c - b'0')) % size_mod) rest in
    if is_digit c then more else (width, c ∷ rest)

-- The optional mark that asks to truncate.
unfoldable pub read_truncate : List ℕ → Bool × List ℕ
read_truncate [] = (false, [])
read_truncate (c ∷ rest) = if c == b'!' then (true, rest) else (false, c ∷ rest)

abbrev pub max_width : ℕ
max_width = 64

-- The specification from its first digit on, if there is one.
unfoldable pub read_spec : PadSide → List ℕ → PaddingInfo × List ℕ
unfolding read_width read_truncate
read_spec side [] = (no_padding, [])
read_spec side (c ∷ rest) =
    if is_digit c
    then (let (width, after) = read_width (c - b'0') rest in
        let (truncate, left) = read_truncate after in
        (padding_info (min width max_width) side truncate, left))
    else (no_padding, c ∷ rest)

-- The padding, and the pattern behind the specification.
unfoldable pub handle_padspec : List ℕ → PaddingInfo × List ℕ
unfolding read_spec
handle_padspec [] = (no_padding, [])
handle_padspec (c ∷ rest) =
    if c == b'-'
    then read_spec PadSide.right rest
    else if c == b'='
    then read_spec PadSide.center rest
    else read_spec PadSide.left (c ∷ rest)

-- The flags of the classes without state, in the order of the source's `switch`.
abbrev pub flag_table : List (ℕ × Field)
flag_table =
    (b'n', Field.name_formatter)
    ∷ (b'l', Field.level_formatter)
    ∷ (b'L', Field.short_level_formatter)
    ∷ (b't', Field.t_formatter)
    ∷ (b'v', Field.v_formatter)
    ∷ (b'a', Field.a_formatter)
    ∷ (b'A', Field.cap_a_formatter)
    ∷ (b'b', Field.b_formatter)
    ∷ (b'h', Field.b_formatter)
    ∷ (b'B', Field.cap_b_formatter)
    ∷ (b'c', Field.c_formatter)
    ∷ (b'C', Field.cap_c_formatter)
    ∷ (b'Y', Field.cap_y_formatter)
    ∷ (b'D', Field.cap_d_formatter)
    ∷ (b'x', Field.cap_d_formatter)
    ∷ (b'm', Field.m_formatter)
    ∷ (b'd', Field.d_formatter)
    ∷ (b'H', Field.cap_h_formatter)
    ∷ (b'I', Field.cap_i_formatter)
    ∷ (b'M', Field.cap_m_formatter)
    ∷ (b'S', Field.cap_s_formatter)
    ∷ (b'e', Field.e_formatter)
    ∷ (b'f', Field.f_formatter)
    ∷ (b'F', Field.cap_f_formatter)
    ∷ (b'E', Field.cap_e_formatter)
    ∷ (b'p', Field.p_formatter)
    ∷ (b'r', Field.r_formatter)
    ∷ (b'R', Field.cap_r_formatter)
    ∷ (b'T', Field.cap_t_formatter)
    ∷ (b'X', Field.cap_t_formatter)
    ∷ (b'P', Field.pid_formatter)
    ∷ (b'@', Field.source_location_formatter)
    ∷ (b's', Field.short_filename_formatter)
    ∷ (b'g', Field.source_filename_formatter)
    ∷ (b'#', Field.source_linenum_formatter)
    ∷ (b'!', Field.source_funcname_formatter)
    ∷ []

-- The nanoseconds in a unit of the flags for elapsed time.
abbrev pub unit_table : List (ℕ × ℕ)
unit_table = (b'u', 1) ∷ (b'i', 1000) ∷ (b'o', 1000000) ∷ (b'O', 1000000000) ∷ []

unfoldable pub find_flag {ℓ} : {A : Type ℓ} → ℕ → List (ℕ × A) → Option A
find_flag c [] = none
find_flag c ((k, a) ∷ table) = let rest = find_flag c table in if k == c then some a else rest

-- The template argument that `compile_pattern_` calls `handle_flag_` with.
abbrev pub padder_for : PaddingInfo → Padder
padder_for info = if info.enabled then Padder.scoped_padder else Padder.null_scoped_padder

-- `add_flag`, which is in effect from the next compilation on.
pub add_flag : {H : Type 0} → ℕ → H → (ℕ → Option H) → ℕ → Option H
add_flag flag handler handlers c = if c == flag then some handler else handlers c

-- `handlers` is the map of the user's flags, and `now` what the clock says.
module _ (custom : Custom) (handlers : ℕ → Option custom.Handler) (now : ℤ) where
  abbrev pub Formatters : Type 0
  Formatters = List (FlagFormatter custom)

  -- The `default` of the switch: an unknown flag is shown as it is.
  unfoldable pub unknown_flag : ℕ → PaddingInfo → Formatters
  unknown_flag flag info =
      if info.truncate
      then FlagFormatter.field Field.source_funcname_formatter (padder_for info)
          (record info { truncate = false })
        ∷ FlagFormatter.aggregate_formatter (flag ∷ [])
        ∷ []
      else FlagFormatter.aggregate_formatter (b'%' ∷ flag ∷ []) ∷ []

  -- The flags of the classes with state and of those without padding.
  unfoldable pub special_flag : ℕ → PaddingInfo → Option (FlagFormatter custom)
  special_flag flag info =
      if flag == b'+'
      then some (FlagFormatter.full_formatter info (record { timestamp = pos 0; datetime = [] }))
      else if flag == b'z'
      then some (
          FlagFormatter.z_formatter (padder_for info) info
            (record { last_update = pos 0; offset_minutes = pos 0 }))
      else if flag == b'^'
      then some (FlagFormatter.color_start_formatter info)
      else if flag == b'$'
      then some (FlagFormatter.color_stop_formatter info)
      else if flag == b'%'
      then some (FlagFormatter.ch_formatter b'%')
      else none

  unfoldable pub builtin_flag : ℕ → PaddingInfo → Formatters
  unfolding unknown_flag special_flag find_flag
  builtin_flag flag info = elim (find_flag flag flag_table) [
    | some k ↦ FlagFormatter.field k (padder_for info) info ∷ []
    | none ↦ elim (find_flag flag unit_table) [
      | some unit ↦ FlagFormatter.elapsed_formatter unit (padder_for info) info now ∷ []
      | none ↦ elim (special_flag flag info) [ some f ↦ f ∷ [] | none ↦ unknown_flag flag info ]
    ]
  ]

  -- What a flag appends to the formatters.
  unfoldable pub handle_flag : ℕ → PaddingInfo → Formatters
  unfolding builtin_flag
  handle_flag flag info = elim (handlers flag) [
    | some h ↦ FlagFormatter.custom_formatter (custom.set_padding_info info (custom.clone h)) ∷ []
    | none ↦ builtin_flag flag info
  ]

  -- The formatter of the characters met so far, if there are any.
  abbrev pub user_chars : List ℕ → Formatters
  user_chars [] = []
  user_chars (c ∷ s) = FlagFormatter.aggregate_formatter (c ∷ s) ∷ []

  -- A flag behind its specification, the characters before it, and what `loop` makes of the rest.
  abbrev pub at_flag :
      List ℕ → PaddingInfo → List ℕ → (List ℕ → Option Formatters) → Option Formatters
  at_flag chars info [] loop = some (user_chars chars)
  at_flag chars info (flag ∷ rest) loop =
      Option.map (λ fs. user_chars chars ++ (handle_flag flag info ++ fs)) (loop rest)

  -- The loop of `compile_pattern_` over what is left of the pattern, with the characters met since
  -- the last flag. A specification is of any length, so the recursion is on fuel.
  unfoldable pub compile_loop : ℕ → List ℕ → List ℕ → Option Formatters
  compile_loop zero chars rest = none
  compile_loop (suc fuel) chars [] = some (user_chars chars)
  compile_loop (suc fuel) chars (c ∷ rest) = elim (c == b'%') [
    | false ↦ compile_loop fuel (chars ++ c ∷ []) rest
    | true ↦
        let (info, left) = handle_padspec rest in at_flag chars info left (compile_loop fuel [])
  ]

  -- `compile_pattern_`, whose loop makes at most a round for each character and one more.
  unfoldable pub compile_pattern : List ℕ → Option Formatters
  compile_pattern pattern = compile_loop (suc (length pattern)) [] pattern
