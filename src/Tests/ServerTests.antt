-- ===== src/Tests/ServerTests.antt =====
-- Runs of the server's functions, and its results at an input.
use final_system_progamming.Common.{
  ℕ, ◌+◌, ◌-◌, ◌≤◌, ◌<◌, ◌≡◌, ◌⊎◌, refl, Bool, true, false, some, arith, codes,
}
use final_system_progamming.Http.Types.{HttpRequest, get, http_11}
use final_system_progamming.Http.Scan.{parse_size_token}
use final_system_progamming.Http.RangeHeader.{parse_range_header}
use final_system_progamming.Http.RangeHeader.Bounds.{IsRange}
use final_system_progamming.Server.Range.{ByteRange, resolve_range}
use final_system_progamming.Server.Range.Covers.{
  asked, sent, resolve_range-asked, resolve_range_repeated,
}

-- A request for bytes 7 to 99.
abbrev tail_request : HttpRequest
tail_request = record {
  method_text = codes "GET\0";
  path = codes "/\0";
  version_text = codes "HTTP/1.1\0";
  connection = codes "\0";
  method = get;
  version = http_11;
  keep_alive_requested = true;
  has_range = true;
  range_is_suffix = false;
  range_end_provided = true;
  range_start = 7;
  range_end = 99;
}

tail_request-IsRange : IsRange tail_request
tail_request-IsRange = record {
  start_fits = omega arith;
  end_fits = omega arith;
  suffix_pos = λ e. cc;
}

abbrev last_three : ByteRange
last_three = record { start = 7; end = 9; length = 3; partial = true }

clipped : resolve_range tail_request 10 ≡ some last_three
unfolding resolve_range
clipped = refl

resolve_range-asked_example :
    ((i : ℕ) → sent last_three i ≡ asked tail_request 10 i)
    × (7 + 3 ≤ 10)
    × ◌≡◌ {A = Bool} true true
    × ◌≡◌ {A = ℕ} 9 (7 + 3 - 1)
    × (◌≡◌ {A = Bool} true false ⊎ (0 < 3))
resolve_range-asked_example =
    resolve_range-asked tail_request 10 tail_request-IsRange (omega arith) clipped

five : parse_size_token (codes "5") ≡ some 5
unfolding parse_size_token
five = refl

resolve_range_repeated_example :
    resolve_range
      (parse_range_header (codes "bytes=0-5") (parse_range_header (codes "bytes=-5") tail_request))
      52
    ≡ some (record { start = 52; end = 51; length = 0; partial = true })
resolve_range_repeated_example =
    resolve_range_repeated tail_request (codes "5") (codes "5") 5 5 52 five five (omega arith)
      (omega arith) (omega arith)
