-- ===== src/Tests/LogTests.antt =====
-- Lines of the access log, and the results on them at an input.
use final_system_progamming.Common.{
  ℕ, ◌+◌, ◌≡◌, refl, [], arith, Bytes, codes, decimal, count, true, false,
}
use final_system_progamming.Log.{access_log_open, log_line, access_log_write}
use final_system_progamming.Log.Lines.{log_line_injective, access_log_write-lines}

abbrev line : Bytes
line = log_line (codes "::1") (codes "01") (codes "GET / HTTP/1.1") 200 12

line_text : line ≡ codes "::1 - - [01] \"GET / HTTP/1.1\" 200 12\n"
unfolding log_line decimal
line_text = refl

-- The mutex cannot be made: the file is closed and the block freed.
open_fails :
    access_log_open (record { log_calloc = true; log_fopen = true; log_mutex_init = false })
    ≡ (false, [])
unfolding access_log_open
open_fails = refl

abbrev status : ℕ
status = 200

abbrev sent : ℕ
sent = 12

log_line_injective_example :
    (codes "::1" ≡ codes "::1")
    × (codes "01" ≡ codes "01")
    × (codes "GET \"" ≡ codes "GET \"")
    × (status ≡ status)
    × (sent ≡ sent)
log_line_injective_example =
    log_line_injective (codes "::1") (codes "::1") (codes "01") (codes "01") (codes "GET \"")
      (codes "GET \"") status status sent sent (omega arith) (omega arith) (omega arith)
      (omega arith) refl

-- A request line with a line feed makes two lines.
access_log_write-lines_example :
    count b'\n' (access_log_write (codes "a\n") (codes "01") (codes "::1") (codes "GET /\nx") 200 1)
    ≡ count b'\n' (codes "a\n") + (1 + count b'\n' (codes "GET /\nx"))
access_log_write-lines_example =
    access_log_write-lines (codes "a\n") (codes "01") (codes "::1") (codes "GET /\nx") 200 1
      (omega arith) (omega arith)
