-- ===== src/Server/Range.antt =====
-- `resolve_range` (src/server.c): which bytes of a file a request is answered with.
pub mod Covers
use final_system_progamming.Common.{
  ℕ, ◌+◌, Bool, true, false, not, ◌&&◌, Option, none, some, ltb, leb, ◌==◌, if◌then◌else◌, add_size,
  sub_size,
}
use final_system_progamming.Http.Types.{HttpRequest}

-- `byte_range_t`
pub record ByteRange : Type 0 where
  pub start : ℕ
  pub end : ℕ
  pub length : ℕ
  pub partial : Bool

abbrev span : ℕ → ℕ → ByteRange
span start end = record {
  start = start;
  end = end;
  length = add_size (sub_size end start) 1;
  partial = true;
}

-- The branch of `a-b` and `a-`.
abbrev resolve_from : HttpRequest → ℕ → Option ByteRange
resolve_from request file_size =
    let end = if request.range_end_provided then request.range_end else sub_size file_size 1 in
    if leb file_size request.range_start
    then none
    else if ltb end request.range_start
    then none
    else if leb file_size end
    then some (span request.range_start (sub_size file_size 1))
    else some (span request.range_start end)

-- `none` is the result -1.
unfoldable pub resolve_range : HttpRequest → ℕ → Option ByteRange
resolve_range request file_size =
    if not request.has_range
    then some (record {
      start = 0;
      end = if file_size == 0 then 0 else sub_size file_size 1;
      length = file_size;
      partial = false;
    })
    else if file_size == 0
    then none
    else if request.range_is_suffix
    then some (
        span
          (if leb file_size request.range_start then 0 else sub_size file_size request.range_start)
          (sub_size file_size 1))
    else resolve_from request file_size
