-- ===== src/Server/Response/Bodiless.antt =====
-- The answer to `HEAD` beside that to the same request with `GET`.
use final_system_progamming.Common.{
  ℕ, ◌≡◌, refl, sym, ap, Bool, false, List, [], ◌++◌, append-nil, Option, none, some, Bytes, codes,
  not, leb, length, Bool-cases, inl, inr, if◌then◌else◌,
}
use final_system_progamming.Http.Types.{HttpRequest, get, head}
use final_system_progamming.Files.Types.{FileResult, ok, not_found, forbidden, error, FileInfo}
use final_system_progamming.Server.Socket.{Outcome, Sent, send_all}
use final_system_progamming.Server.Range.{ByteRange, resolve_range}
use final_system_progamming.Server.Response.{
  unsatisfiable_body, ResponseResult, copy_file, from_range, Reply, respond, send_then,
  response_buffer_size, response_version, send_simple_response, send_range_not_satisfiable,
  send_file_response, send_directory_response, send_range, File,
}

-- No byte of a body counts as sent.
abbrev pub HasNoBody : Option ResponseResult → Type 0
HasNoBody none = Unit
HasNoBody (some result) = result.body_bytes ≡ 0

-- The second reply is the first, which has no body, with bytes behind it.
abbrev pub Extends : Reply → Reply → Type 0
Extends short long = ((more : Bytes) × (long.bytes ≡ short.bytes ++ more)) × HasNoBody short.result

send_then-more :
    (first : Sent) (next : List Outcome → Sent)
    → (more : Bytes) × ((send_then first next).bytes
        ≡ (send_then first (λ s. send_all s [])).bytes ++ more)
unfolding send_all
send_then-more first next = elim (Bool-cases first.done) [
  | inl done ↦ (
    (next first.sends).bytes,
    rw done (ap (λ xs. xs ++ (next first.sends).bytes) (sym (append-nil first.bytes))),
  )
  | inr failed ↦ ([], rw failed (sym (append-nil first.bytes)))
]

respond-Extends :
    (sends : List Outcome) (headers : Bytes) (next : List Outcome → Sent) (status n : ℕ)
    → Extends
        (respond sends headers (λ s. send_all s []) status 0)
        (respond sends headers next status n)
respond-Extends sends headers next status n =
    elim (Bool-cases (leb response_buffer_size (length headers))) [
      | inl long ↦ (([], rw long refl), rw long tt)
      | inr fits ↦
          let first = send_all sends headers in
          let none_after = send_then first (λ s. send_all s []) in
          (
            rw fits (send_then-more first next),
            rw fits (elim (Bool-cases none_after.done) [
              | inl done ↦ rw done refl
              | inr failed ↦ rw failed tt
            ]),
          )
    ]

abbrev pub as_head : HttpRequest → HttpRequest
as_head r = record r { method = head }

module _ (sends : List Outcome) (r : HttpRequest) (is_get : r.method ≡ get) where
  pub send_simple_response-Extends :
      (status : ℕ) (body : Bytes) (keep : Bool)
      → Extends
          (send_simple_response sends (some (as_head r)) status body keep)
          (send_simple_response sends (some r) status body keep)
  unfolding send_simple_response response_version
  send_simple_response-Extends status body keep =
      rw is_get (respond-Extends sends _ (λ s. send_all s body) status (length body))

  unsatisfiable-Extends :
      (size : ℕ) (keep : Bool)
      → Extends
          (send_range_not_satisfiable sends (some (as_head r)) size keep)
          (send_range_not_satisfiable sends (some r) size keep)
  unfolding send_range_not_satisfiable response_version
  unsatisfiable-Extends size keep =
      rw is_get (
        respond-Extends sends _ (λ s. send_all s unsatisfiable_body) 416
          (length unsatisfiable_body))

  send_range-Extends :
      (info : FileInfo) (file : File) (keep : Bool) (range : Option ByteRange)
      → Extends
          (send_range sends (as_head r) info file keep range)
          (send_range sends r info file keep range)
  unfolding response_version
  send_range-Extends info file keep none = unsatisfiable-Extends info.size keep
  send_range-Extends info file keep (some range) =
      elim (Bool-cases (if range.partial then not file.seekable else false)) [
        | inl fails ↦
            rw fails (send_simple_response-Extends 500 (codes "Internal Server Error\n") false)
        | inr seeks ↦
            rw (seeks, is_get)
              (respond-Extends sends _
                (copy_file range.length range.length (from_range range file.contents)) _
                range.length)
      ]

  pub send_file_response-Extends :
      (info : FileInfo) (file : Option File) (keep : Bool)
      → Extends
          (send_file_response sends (as_head r) info file keep)
          (send_file_response sends r info file keep)
  unfolding send_file_response resolve_range
  send_file_response-Extends info none keep =
      send_simple_response-Extends 500 (codes "Internal Server Error\n") false
  send_file_response-Extends info (some file) keep =
      send_range-Extends info file keep (resolve_range r info.size)

  pub send_directory_response-Extends :
      (listing : FileResult Bytes) (keep : Bool)
      → Extends
          (send_directory_response sends (as_head r) listing keep)
          (send_directory_response sends r listing keep)
  unfolding send_directory_response response_version
  send_directory_response-Extends (ok body) keep =
      rw is_get (respond-Extends sends _ (λ s. send_all s body) 200 (length body))
  send_directory_response-Extends not_found keep =
      send_simple_response-Extends 500 (codes "Internal Server Error\n") false
  send_directory_response-Extends forbidden keep =
      send_simple_response-Extends 500 (codes "Internal Server Error\n") false
  send_directory_response-Extends error keep =
      send_simple_response-Extends 500 (codes "Internal Server Error\n") false
