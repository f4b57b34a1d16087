-- ===== src/Http/Request/Accepts.antt =====
-- Which requests `http_parse_request` accepts, and what it makes of them.
use mathlib.Core.Path.{subst}
use final_system_progamming.Common.{
  ℕ, zero, suc, ◌+◌, ◌≤◌, ◌≡◌, ◌≢◌, ◌⊎◌, refl, sym, ap, ◌∙◌, true, false, [], ◌∷◌, ◌++◌, some,
  arith, Bytes, Avoids, length, take, drop, ◌==◌, memchr, memchr-append, memchr-none, memchr-split,
  memchr-lt, length-take, take-length_append, drop-length-add, append-nil, length-append,
  All-append, Option-cases, inl, inr,
}
use final_system_progamming.Http.Types.{HttpRequest, parse_ok}
use final_system_progamming.Http.Scan.{find_crlf}
use final_system_progamming.Http.Scan.Laws.{
  find_crlf-append, find_crlf-lt, CrlfAt-splits, FirstCrlf, find_crlf-FirstCrlf,
}
use final_system_progamming.Http.Headers.{parse_headers}
use final_system_progamming.Http.Request.{
  is_known, set_keep_alive, fill_request_line, path_length, http_parse_request,
}

-- The words of a request line: `target` is the path with its query, if it has one.
pub record IsLine (method path query version : Bytes) : Type 0 where
  pub method_ne : method ≢ []
  pub path_ne : path ≢ []
  pub version_ne : version ≢ []
  pub method_word : Avoids b' ' method
  pub path_word : Avoids b' ' path
  pub path_plain : Avoids b'?' path
  pub query_word : Avoids b' ' query
  pub query_is : (query ≡ []) ⊎ ((text : Bytes) × (query ≡ b'?' ∷ text))
  pub no_return :
      Avoids b'\r' method × Avoids b'\r' path × Avoids b'\r' query × Avoids b'\r' version

abbrev pub request_line : Bytes → Bytes → Bytes → Bytes → Bytes
request_line method path query version = method ++ b' ' ∷ ((path ++ query) ++ b' ' ∷ version)

length-ne : (xs : Bytes) → xs ≢ [] → (length xs == 0) ≡ false
length-ne [] ne = absurd (ne refl)
length-ne (x ∷ xs) ne = ground arith

path_length-append :
    (path query : Bytes)
    → Avoids b'?' path
    → (query ≡ []) ⊎ ((text : Bytes) × (query ≡ b'?' ∷ text))
    → path_length (path ++ query) ≡ length path
path_length-append path query h (inl e) =
    ground (arith, e, append-nil path, memchr-none b'?' path h)
path_length-append path query h (inr (text, e)) = ground (arith, e, memchr-append b'?' path text h)

module _ {method path query version : Bytes} (rest : Bytes)
    (w : IsLine method path query version) where
  line-no_return : Avoids b'\r' (request_line method path query version)
  line-no_return = All-append _ method _ w.no_return.0 (
    λ e. omega arith,
    All-append _ (path ++ query) _ (All-append _ path query w.no_return.1 w.no_return.2)
        (λ e. omega arith, w.no_return.3),
  )

  -- A request line of words without carriage returns, with a known version, is accepted, whatever
  -- follows it: the query is dropped, and the headers are read from behind the line.
  pub http_parse_request-line :
      is_known (fill_request_line method path version).version ≡ true
      → http_parse_request (request_line method path query version ++ (b'\r' ∷ b'\n' ∷ rest))
        ≡ parse_ok (set_keep_alive (parse_headers rest (fill_request_line method path version)))
  unfolding http_parse_request
  http_parse_request-line known =
      let target = path ++ query in
      let line = request_line method path query version in
      let tail = b'\r' ∷ b'\n' ∷ rest in
      ground (
        arith,
        known,
        length-append line tail,
        find_crlf-append line rest line-no_return,
        take-length_append line tail,
        drop-length-add 2 line tail,
        memchr-append b' ' method (target ++ b' ' ∷ version) w.method_word,
        take-length_append method (b' ' ∷ (target ++ b' ' ∷ version)),
        drop-length-add 1 method (b' ' ∷ (target ++ b' ' ∷ version)),
        memchr-append b' ' target version (All-append _ path query w.path_word w.query_word),
        take-length_append target (b' ' ∷ version),
        drop-length-add 1 target (b' ' ∷ version),
        length-append path query,
        path_length-append path query w.path_plain w.query_is,
        take-length_append path query,
        length-ne method w.method_ne,
        length-ne path w.path_ne,
        length-ne version w.version_ne,
      )

-- The parts that an accepted buffer consists of.
pub record IsRead (raw : Bytes) (r : HttpRequest) : Type 0 where
  pub method : Bytes
  pub target : Bytes
  pub version : Bytes
  pub rest : Bytes
  pub splits : raw ≡ (method ++ b' ' ∷ (target ++ b' ' ∷ version)) ++ (b'\r' ∷ b'\n' ∷ rest)
  pub method_word : Avoids b' ' method
  pub target_word : Avoids b' ' target
  pub method_ne : method ≢ []
  pub version_ne : version ≢ []
  pub path_ne : path_length target ≢ 0
  pub known :
      is_known (fill_request_line method (take (path_length target) target) version).version ≡ true
  pub request_is :
      r
      ≡ set_keep_alive
          (parse_headers rest (fill_request_line method (take (path_length target) target) version))
  pub first_line : FirstCrlf raw (some (length (method ++ b' ' ∷ (target ++ b' ' ∷ version))))

take-ne : (n : ℕ) (xs : Bytes) → (n == 0) ≡ false → n ≤ length xs → take n xs ≢ []
take-ne zero xs h lt e = cc
take-ne (suc n) [] h lt e = absurd (omega arith)
take-ne (suc n) (x ∷ xs) h lt e = cc

ne-of_length : (xs : Bytes) → (length xs == 0) ≡ false → xs ≢ []
ne-of_length [] h e = cc
ne-of_length (x ∷ xs) h e = cc

-- The tests that an accepted buffer has passed, with its line end and its two spaces.
module _ (raw : Bytes) {r : HttpRequest} (n i j : ℕ) (line_end : find_crlf raw ≡ some n)
    (first : memchr b' ' (take n raw) ≡ some i)
    (second : memchr b' ' (drop (i + 1) (take n raw)) ≡ some j)
    (accepted : http_parse_request raw ≡ parse_ok r) where
  abbrev line : Bytes
  line = take n raw

  abbrev after : Bytes
  after = drop (i + 1) (take n raw)

  tests :
      ((i == 0) ≡ false)
      × ((j == 0) ≡ false)
      × ((length (drop (j + 1) after) == 0) ≡ false)
      × ((path_length (take j after) == 0) ≡ false)
  unfolding http_parse_request
  tests = ground (arith, line_end, first, second, accepted)

  result :
      let request =
        fill_request_line
          (take i line)
          (take (path_length (take j after)) (take j after))
          (drop (j + 1) after) in
      (is_known request.version ≡ true)
      × (r ≡ set_keep_alive (parse_headers (drop (n + 2) raw) request))
  unfolding http_parse_request
  result = ground (arith, line_end, first, second, accepted)

  parts : IsRead raw r
  parts = record {
    method = take i line;
    target = take j after;
    version = drop (j + 1) after;
    rest = drop (n + 2) raw;
    splits = CrlfAt-splits raw n place.0 ∙ ap (λ l. l ++ (b'\r' ∷ b'\n' ∷ drop (n + 2) raw)) words;
    method_word = (memchr-split b' ' line i first).1;
    target_word = (memchr-split b' ' after j second).1;
    method_ne = take-ne i line tests.0 (omega (arith, memchr-lt b' ' line i first));
    version_ne = ne-of_length _ tests.2;
    path_ne = λ e. ground (arith, tests.3);
    known = result.0;
    request_is = result.1;
    first_line = subst (λ k. FirstCrlf raw (some k)) (sym size) place;
  }
    where
      place : FirstCrlf raw (some n)
      place = rw line_end at (find_crlf-FirstCrlf raw)

      words : line ≡ take i line ++ b' ' ∷ (take j after ++ b' ' ∷ drop (j + 1) after)
      words =
          (memchr-split b' ' line i first).0
          ∙ ap (λ a. take i line ++ b' ' ∷ a) (memchr-split b' ' after j second).0

      size : length (take i line ++ b' ' ∷ (take j after ++ b' ' ∷ drop (j + 1) after)) ≡ n
      size = ap length (sym words) ∙ omega (arith, length-take n raw, find_crlf-lt raw n line_end)

-- Whatever is accepted is a request: the buffer is a nonempty method, a space, a target, a space,
-- a nonempty version and the buffer's first `\r\n`, followed by the headers; the two words hold no
-- space, the target has a path before its query, the version is known, and the result is what the
-- headers make of the three words.
pub http_parse_request-IsRead :
    (raw : Bytes) {r : HttpRequest} → http_parse_request raw ≡ parse_ok r → IsRead raw r
unfolding http_parse_request
http_parse_request-IsRead raw h = elim (Option-cases (find_crlf raw)) [
  | inl e ↦ absurd (ground (arith, e, h))
  | inr (n, e) ↦ elim (Option-cases (memchr b' ' (take n raw))) [
    | inl e1 ↦ absurd (ground (arith, e, e1, h))
    | inr (i, e1) ↦ elim (Option-cases (memchr b' ' (drop (i + 1) (take n raw)))) [
      | inl e2 ↦ absurd (ground (arith, e, e1, e2, h))
      | inr (j, e2) ↦ parts raw n i j e e1 e2 h
    ]
  ]
]
