-- ===== src/Server/Range/Covers.antt =====
-- The range that is sent is the range that was asked for.
use final_system_progamming.Common.{
  ℕ, ◌+◌, ◌-◌, ◌≤◌, ◌<◌, ◌≡◌, ◌⊎◌, refl, Bool, true, false, not, ◌&&◌, ◌++◌, some, arith, Bytes,
  codes, ltb, leb, if◌then◌else◌, size_max,
}
use final_system_progamming.Http.Types.{HttpRequest}
use final_system_progamming.Http.Scan.{parse_size_token}
use final_system_progamming.Http.RangeHeader.{parse_range_header}
use final_system_progamming.Http.RangeHeader.Bounds.{IsRange}
use final_system_progamming.Http.RangeHeader.Forms.{range_suffix, range_closed, token}
use final_system_progamming.Server.Range.{ByteRange, resolve_range}

-- Byte `i` of a file of this size is asked for: the last `n` bytes, those from `a` on, those from
-- `a` to `b`, or all.
abbrev pub asked : HttpRequest → ℕ → ℕ → Bool
asked r size i =
    ltb i size
    && (if not r.has_range
        then true
        else if r.range_is_suffix
        then leb size (i + r.range_start)
        else leb r.range_start i && (if r.range_end_provided then leb i r.range_end else true))

abbrev pub sent : ByteRange → ℕ → Bool
sent range i = leb range.start i && ltb i (range.start + range.length)

module _ (r : HttpRequest) (size : ℕ) (v : IsRange r) (fits : size ≤ size_max) where
  -- For a request whose stored range is in order and a size that fits a `size_t`, a range that
  -- `resolve_range` returns lies in the file, holds exactly the bytes that were asked for, has the
  -- last of them as its `end` (0 for an empty file), and is marked partial exactly if a range was
  -- asked for; a partial one is not empty.
  pub resolve_range-asked :
      {range : ByteRange}
      → resolve_range r size ≡ some range
      → ((i : ℕ) → sent range i ≡ asked r size i)
        × (range.start + range.length ≤ size)
        × (range.partial ≡ r.has_range)
        × (range.end ≡ range.start + range.length - 1)
        × ((range.partial ≡ false) ⊎ (0 < range.length))
  unfolding resolve_range
  resolve_range-asked h =
      (λ i. ground arith, ground arith, ground arith, ground arith, ground arith)

-- Two `Range` lines, a suffix and then one from the first byte on: the suffix mark of the first is
-- still set, so the 0 of the second is taken as a suffix length. The range that results is marked
-- partial, starts behind the end of the file, ends before it starts, and is empty. This holds of
-- any request, any suffix length but 0, any last position, and any file that is not empty.
pub resolve_range_repeated :
    (r : HttpRequest) (a b : Bytes) (m n size : ℕ)
    → parse_size_token a ≡ some m
    → parse_size_token b ≡ some n
    → 0 < m
    → 0 < size
    → size ≤ size_max
    → resolve_range
        (parse_range_header (codes "bytes=0-" ++ b) (parse_range_header (codes "bytes=-" ++ a) r))
        size
      ≡ some (record { start = size; end = size - 1; length = 0; partial = true })
unfolding resolve_range
resolve_range_repeated r a b m n size ea eb hm hs fits = rw (range_suffix a r (token a m ea) hm) (
    rw (range_closed (codes "0") b _ (token (codes "0") 0 zero_token) (token b n eb))
      (ground arith))
  where
    zero_token : parse_size_token (codes "0") ≡ some 0
    zero_token = unfold parse_size_token in refl
