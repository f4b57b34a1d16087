-- ===== src/Http/Headers/Loop.antt =====
-- The header loop ends by itself, and reads line after line up to the blank one.
use final_system_progamming.Common.{
  ℕ, zero, suc, ◌+◌, ◌<◌, ◌≡◌, ◌≢◌, refl, sym, ap, ◌∙◌, List, [], ◌∷◌, ◌++◌, Option, none, some,
  arith, Bytes, Avoids, length, take, drop, ◌==◌, ==_ne, if◌then◌else◌, length-drop,
  take-length_append, drop-length-add,
}
use final_system_progamming.Http.Types.{HttpRequest}
use final_system_progamming.Http.Scan.{find_crlf}
use final_system_progamming.Http.Scan.Laws.{find_crlf-lt, find_crlf-append}
use final_system_progamming.Http.Headers.{parse_header_line, parse_lines, parse_headers}

-- One round of the loop, with what is done on the bytes behind the line.
abbrev pub round :
    Option ℕ → (Bytes → HttpRequest → HttpRequest) → Bytes → HttpRequest → HttpRequest
round none rest headers request = request
round (some n) rest headers request =
    if n == 0
    then request
    else rest (drop (n + 2) headers) (parse_header_line (take n headers) request)

parse_lines-round :
    (fuel : ℕ) (headers : Bytes) (request : HttpRequest)
    → parse_lines (suc fuel) headers request
      ≡ round (find_crlf headers) (parse_lines fuel) headers request
unfolding parse_lines
parse_lines-round fuel headers request = ground arith

round-agree :
    (found : Option ℕ) (p q : Bytes → HttpRequest → HttpRequest) (headers : Bytes)
    (request : HttpRequest)
    → ((n : ℕ)
        → found ≡ some n
        → p (drop (n + 2) headers) (parse_header_line (take n headers) request)
          ≡ q (drop (n + 2) headers) (parse_header_line (take n headers) request))
    → round found p headers request ≡ round found q headers request
round-agree none p q headers request h = refl
round-agree (some n) p q headers request h = rw (h n refl)

shorter :
    (f : ℕ) (headers : Bytes) (n : ℕ)
    → length headers < suc f
    → find_crlf headers ≡ some n
    → length (drop (n + 2) headers) < f
shorter f headers n h e = omega (arith, find_crlf-lt headers n e, length-drop (n + 2) headers)

-- More fuel than bytes changes nothing.
parse_lines-fuel :
    (f g : ℕ) (headers : Bytes) (request : HttpRequest)
    → length headers < f
    → length headers < g
    → parse_lines f headers request ≡ parse_lines g headers request
parse_lines-fuel zero g headers request hf hg = absurd (omega arith)
parse_lines-fuel (suc f) zero headers request hf hg = absurd (omega arith)
parse_lines-fuel (suc f) (suc g) headers request hf hg =
    parse_lines-round f headers request
    ∙ round-agree (find_crlf headers) (parse_lines f) (parse_lines g) headers request (λ n e.
      parse_lines-fuel f g (drop (n + 2) headers) _ (shorter f headers n hf e)
        (shorter g headers n hg e))
    ∙ sym (parse_lines-round g headers request)

-- The loop runs to its own exit: on the bytes before it, it stops if no line end is left or the
-- line is empty, and otherwise it reads the line and goes on with all the bytes behind it.
parse_headers-round :
    (headers : Bytes) (request : HttpRequest)
    → parse_headers headers request ≡ round (find_crlf headers) parse_headers headers request
unfolding parse_headers
parse_headers-round headers request =
    parse_lines-round (length headers) headers request
    ∙ round-agree (find_crlf headers) (parse_lines (length headers))
        (λ rest. parse_lines (suc (length rest)) rest) headers request
        (λ n e.
          let rest = drop (n + 2) headers in
          parse_lines-fuel (length headers) (suc (length rest)) rest _
            (shorter (length headers) headers n (omega arith) e) (omega arith))

-- The bytes of some header lines, each with its line end.
abbrev pub lines : List Bytes → Bytes → Bytes
lines [] rest = rest
lines (line ∷ more) rest = line ++ (b'\r' ∷ b'\n' ∷ lines more rest)

abbrev pub AreLines : List Bytes → Type 0
AreLines [] = Unit
AreLines (line ∷ more) = Avoids b'\r' line × (line ≢ []) × AreLines more

abbrev pub parse_each : List Bytes → HttpRequest → HttpRequest
parse_each [] request = request
parse_each (line ∷ more) request = parse_each more (parse_header_line line request)

length-ne : (line : Bytes) → line ≢ [] → length line ≢ 0
length-ne [] ne e = ne refl
length-ne (x ∷ line) ne e = absurd (omega arith)

parse_headers-line :
    (line rest : Bytes) (request : HttpRequest)
    → Avoids b'\r' line
    → line ≢ []
    → parse_headers (line ++ (b'\r' ∷ b'\n' ∷ rest)) request
      ≡ parse_headers rest (parse_header_line line request)
parse_headers-line line rest request h ne =
    let text = line ++ (b'\r' ∷ b'\n' ∷ rest) in
    parse_headers-round text request
    ∙ ap (λ found. round found parse_headers text request) (find_crlf-append line rest h)
    ∙ rw
        (==_ne (length line) 0 (length-ne line ne), drop-length-add 2 line, take-length_append line)
        refl

-- Any sequence of nonempty header lines without a carriage return, each ended by `\r\n`, is read
-- line by line in order, up to the blank line; nothing behind the blank line is looked at.
pub parse_headers-lines :
    (hs : List Bytes) (body : Bytes) (request : HttpRequest)
    → AreLines hs
    → parse_headers (lines hs (b'\r' ∷ b'\n' ∷ body)) request ≡ parse_each hs request
parse_headers-lines [] body request h =
    parse_headers-round (b'\r' ∷ b'\n' ∷ body) request
    ∙ ap (λ found. round found parse_headers (b'\r' ∷ b'\n' ∷ body) request)
        (find_crlf-append [] body tt)
parse_headers-lines (line ∷ more) body request h =
    parse_headers-line line _ request h.0 h.1
    ∙ parse_headers-lines more body (parse_header_line line request) h.2
