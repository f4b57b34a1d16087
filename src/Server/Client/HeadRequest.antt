-- ===== src/Server/Client/HeadRequest.antt =====
-- What `handle_client` of src/server.c answers to `HEAD`, beside the answer to `GET`.
use final_system_progamming.Common.{arith, ◌≡◌, Bool, List, codes, ◌++◌, ◌∷◌, decimal, c_string, ℕ}
use final_system_progamming.Http.Types.{HttpRequest, HttpMethod, get, head, unsupported}
use final_system_progamming.Http.Request.{http_status_text}
use final_system_progamming.Files.Types.{
  FileResult, ok, not_found, forbidden, error, FileInfo, directory, regular, FileKind,
}
use final_system_progamming.Files.Resolve.{file_stat_path}
use final_system_progamming.Files.Listing.{file_build_directory_listing}
use final_system_progamming.Server.Socket.{Outcome}
use final_system_progamming.Server.Response.Bodiless.{
  Extends, as_head, send_simple_response-Extends, send_file_response-Extends,
  send_directory_response-Extends,
}
use final_system_progamming.Server.Client.{
  World, answer, answer_path, answer_method, status_from_file_result, send_found, send_failure,
  body_of,
}

module _ (world : World) (sends : List Outcome) (r : HttpRequest) (is_get : r.method ≡ get)
    (keep : Bool) where
  send_failure-Extends :
      (status : ℕ)
      → Extends (send_failure sends (as_head r) status keep) (send_failure sends r status keep)
  send_failure-Extends status =
      send_simple_response-Extends sends r is_get status
        (decimal status ++ b' ' ∷ (http_status_text status ++ codes "\n")) keep

  send_found-Extends :
      (kind : FileKind) (info : FileInfo)
      → Extends
          (send_found world sends (as_head r) kind info keep)
          (send_found world sends r kind info keep)
  send_found-Extends directory info =
      send_directory_response-Extends sends r is_get
        (body_of (
          file_build_directory_listing world.fs world.memory (c_string r.path) info.resolved_path
            (world.readdir info.resolved_path)))
        keep
  send_found-Extends regular info =
      send_file_response-Extends sends r is_get info (world.fopen info.resolved_path) keep

  answer_path-Extends :
      (found : FileResult FileInfo)
      → Extends
          (answer_path world sends (as_head r) found keep)
          (answer_path world sends r found keep)
  unfolding status_from_file_result
  answer_path-Extends (ok info) = send_found-Extends info.kind info
  answer_path-Extends not_found = send_failure-Extends 404
  answer_path-Extends forbidden = send_failure-Extends 403
  answer_path-Extends error = send_failure-Extends 500

  answer_method-Extends :
      (method : HttpMethod)
      → method ≡ get
      → Extends
          (answer_method world sends (as_head r) head keep)
          (answer_method world sends r method keep)
  answer_method-Extends get e = answer_path-Extends (file_stat_path world.fs world.doc_root r.path)
  answer_method-Extends head e = ground (arith, e)
  answer_method-Extends unsupported e = ground (arith, e)

  -- A `HEAD` request is answered as the same request with `GET` up to the body: what goes out for
  -- `HEAD`, status, headers and lengths included, is the beginning of what goes out for `GET`, and
  -- no byte of a body is counted as sent. This holds for files, ranges, listings and failures,
  -- whatever the file system and the socket answer.
  pub answer-Extends : Extends (answer world sends (as_head r) keep) (answer world sends r keep)
  unfolding answer
  answer-Extends = answer_method-Extends r.method is_get
