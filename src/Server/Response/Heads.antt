-- ===== src/Server/Response/Heads.antt =====
-- Every line of the heads that are sent is a header line.
use final_system_progamming.Common.{
  ℕ, ◌≡◌, ◌≢◌, ◌<◌, Bool, true, false, [], ◌∷◌, ◌++◌, arith, Bytes, codes, decimal, decimal-digits,
  all_digits, Option, none, some, length, length-append, Bool-cases, inl, inr, Avoids, All,
  All-append,
}
use final_system_progamming.Http.Types.{HttpRequest, HttpVersion, http_10, http_11, unknown}
use final_system_progamming.Http.Request.{http_status_text}
use final_system_progamming.Files.Types.{FileInfo}
use final_system_progamming.Server.Range.{ByteRange}
use final_system_progamming.Server.Response.{
  response_version, version_text_of, status_line, type_line, length_line, connection_line,
  simple_lines, file_lines,
}
use final_system_progamming.Server.Response.Framing.{IsHeaderLine}

digits-Avoids : (text : Bytes) → all_digits text ≡ true → Avoids b'\r' text
digits-Avoids [] h = tt
digits-Avoids (c ∷ text) h = ground (arith, h, digits-Avoids text)

decimal-Avoids : (n : ℕ) → Avoids b'\r' (decimal n)
decimal-Avoids n = digits-Avoids (decimal n) (decimal-digits n)

-- A text that is not empty with another behind it.
front-IsHeaderLine :
    (front back : Bytes) → IsHeaderLine front → Avoids b'\r' back → IsHeaderLine (front ++ back)
front-IsHeaderLine front back h b =
    (All-append (λ c. c ≢ b'\r') front back h.0 b, omega (arith, h.1, length-append front back))

version-IsHeaderLine : (version : HttpVersion) → IsHeaderLine (version_text_of version)
version-IsHeaderLine http_10 = omega arith
version-IsHeaderLine http_11 = omega arith
version-IsHeaderLine unknown = omega arith

response_version-IsHeaderLine :
    (request : Option HttpRequest) → IsHeaderLine (response_version request)
unfolding response_version
response_version-IsHeaderLine none = omega arith
response_version-IsHeaderLine (some request) = version-IsHeaderLine request.version

http_status_text-Avoids : (status : ℕ) → Avoids b'\r' (http_status_text status)
unfolding http_status_text
http_status_text-Avoids status = ground arith

status_line-IsHeaderLine :
    (request : Option HttpRequest) (status : ℕ) → IsHeaderLine (status_line request status)
status_line-IsHeaderLine request status =
    front-IsHeaderLine (response_version request) _ (response_version-IsHeaderLine request) (
      omega arith,
      All-append (λ c. c ≢ b'\r') (decimal status) _ (decimal-Avoids status)
          (omega arith, http_status_text-Avoids status),
    )

length_line-IsHeaderLine : (n : ℕ) → IsHeaderLine (length_line n)
length_line-IsHeaderLine n =
    front-IsHeaderLine (codes "Content-Length: ") _ (omega arith) (decimal-Avoids n)

type_line-IsHeaderLine :
    (mime_type : Bytes) → Avoids b'\r' mime_type → IsHeaderLine (type_line mime_type)
type_line-IsHeaderLine mime_type h = front-IsHeaderLine (codes "Content-Type: ") _ (omega arith) h

connection_line-IsHeaderLine : (keep_alive : Bool) → IsHeaderLine (connection_line keep_alive)
connection_line-IsHeaderLine true = omega arith
connection_line-IsHeaderLine false = omega arith

pub simple_lines-AllHeaderLines :
    (request : Option HttpRequest) (status body_len : ℕ) (keep_alive : Bool)
    → All IsHeaderLine (simple_lines request status body_len keep_alive)
simple_lines-AllHeaderLines request status body_len keep_alive = (
  status_line-IsHeaderLine request status,
  (
    type_line-IsHeaderLine (codes "text/plain") (omega arith),
    (length_line-IsHeaderLine body_len, (connection_line-IsHeaderLine keep_alive, tt)),
  ),
)

range_line-IsHeaderLine :
    (a b n : ℕ)
    → IsHeaderLine
        (codes "Content-Range: bytes " ++ decimal a ++ b'-' ∷ (decimal b ++ b'/' ∷ decimal n))
range_line-IsHeaderLine a b n =
    front-IsHeaderLine (codes "Content-Range: bytes " ++ decimal a) _
      (front-IsHeaderLine (codes "Content-Range: bytes ") _ (omega arith) (decimal-Avoids a))
      (
        omega arith,
        All-append (λ c. c ≢ b'\r') (decimal b) _ (decimal-Avoids b)
            (omega arith, decimal-Avoids n),
      )

pub file_lines-AllHeaderLines :
    (request : HttpRequest) (info : FileInfo) (range : ByteRange) (keep_alive : Bool)
    → Avoids b'\r' info.mime_type
    → (0 < length (file_lines request info range keep_alive))
      × All IsHeaderLine (file_lines request info range keep_alive)
file_lines-AllHeaderLines request info range keep_alive m =
    let length_of = λ (n : ℕ). length_line-IsHeaderLine n in
    let type_is = type_line-IsHeaderLine info.mime_type m in
    let end = connection_line-IsHeaderLine keep_alive in
    elim (Bool-cases range.partial) [
      | inl partial ↦ rw partial (
        omega arith,
        (
          status_line-IsHeaderLine (some request) 206,
          (
            type_is,
            (
              length_of range.length,
              (range_line-IsHeaderLine range.start range.end info.size, (omega arith, (end, tt))),
            ),
          ),
        ),
      )
      | inr whole ↦ rw whole (
        omega arith,
        (
          status_line-IsHeaderLine (some request) 200,
          (type_is, (length_of info.size, (omega arith, (end, tt)))),
        ),
      )
    ]
