-- ===== src/Http/RangeHeader.antt =====
-- `parse_range_header` (src/http.c).
pub mod Forms
pub mod Bounds
use final_system_progamming.Common.{
  ◌+◌, true, false, not, ◌||◌, none, some, Bytes, codes, ltb, ◌==◌, if◌then◌else◌, length, take,
  drop, memchr,
}
use final_system_progamming.Http.Types.{HttpRequest}
use final_system_progamming.Http.Scan.{
  ascii_case_equal_bounded, skip_spaces, trim_trailing_span, parse_size_token,
}

-- `-n`: the last `n` bytes.
parse_suffix : Bytes → HttpRequest → HttpRequest
parse_suffix after_dash request = elim (parse_size_token after_dash) [
  | none ↦ request
  | some parsed ↦
      if parsed == 0
      then request
      else record request { has_range = true; range_is_suffix = true; range_start = parsed }
]

-- What follows the dash of `a-` or `a-b`, once the first position is stored.
parse_last : Bytes → HttpRequest → HttpRequest
parse_last after_dash request =
    if length after_dash == 0 then request else elim (parse_size_token after_dash) [
      | none ↦ record request { has_range = false }
      | some parsed ↦ record request { range_end_provided = true; range_end = parsed }
    ]

parse_first : Bytes → Bytes → HttpRequest → HttpRequest
parse_first before_dash after_dash request = elim (parse_size_token before_dash) [
  | none ↦ request
  | some parsed ↦ parse_last after_dash (record request { has_range = true; range_start = parsed })
]

-- The text behind `bytes=`.
parse_range_spec : Bytes → HttpRequest → HttpRequest
parse_range_spec range_spec request = elim (memchr b',' range_spec) [
  | some comma ↦ request
  | none ↦ elim (memchr b'-' range_spec) [
    | none ↦ request
    | some dash ↦
        if dash == 0
        then parse_suffix (drop 1 range_spec) request
        else parse_first (take dash range_spec) (drop (dash + 1) range_spec) request
  ]
]

abbrev prefix : Bytes
prefix = codes "bytes="

unfoldable pub parse_range_header : Bytes → HttpRequest → HttpRequest
unfolding parse_suffix parse_last parse_first parse_range_spec
parse_range_header span request =
    let value = skip_spaces (trim_trailing_span span) in
    if ltb (length value) 6 || not (ascii_case_equal_bounded (take 6 value) prefix)
    then request
    else if length (drop 6 value) == 0
    then request
    else parse_range_spec (drop 6 value) request
