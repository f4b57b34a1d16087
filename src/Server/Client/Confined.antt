-- ===== src/Server/Client/Confined.antt =====
-- What a client gets does not depend on files outside the document root.
use final_system_progamming.Common.{
  ℕ, zero, suc, ◌≡◌, refl, ap, ◌∙◌, Bool, List, Option, some, Bytes, Avoids, if◌then◌else◌,
  c_string,
}
use final_system_progamming.Http.Types.{HttpRequest, HttpMethod, get, head, unsupported}
use final_system_progamming.Http.Request.{http_should_keep_alive}
use final_system_progamming.Files.Types.{
  FileResult, ok, not_found, forbidden, error, FileInfo, directory, regular, FileKind,
}
use final_system_progamming.Files.Resolve.{resolved, file_stat_path}
use final_system_progamming.Files.Resolve.Confined.{IsBelow, file_stat_path-IsBelow}
use final_system_progamming.Files.Listing.{file_build_directory_listing}
use final_system_progamming.Server.Socket.{Outcome}
use final_system_progamming.Server.Read.{ReadResult, request, end_of_stream, invalid, ReadState}
use final_system_progamming.Server.Response.{File, send_file_response, send_directory_response}
use final_system_progamming.Server.Client.{
  World, Connection, answer, answer_path, answer_method, send_found, body_of, after_read,
  after_answer, sent_to, serve_next, handle_client, close,
}

-- Another content of the files and directories, which is the same for those below the root.
module _ (world : World) (fopen' : Bytes → Option File) (readdir' : Bytes → Option (List Bytes))
    (strings : (p q : Bytes) → world.fs.realpath p ≡ resolved q → Avoids 0 q)
    (same : (path : Bytes)
      → IsBelow world.fs world.doc_root path
      → (world.fopen path ≡ fopen' path) × (world.readdir path ≡ readdir' path)) where
  abbrev changed : World
  changed = record world { fopen = fopen'; readdir = readdir' }

  send_found-same :
      (sends : List Outcome) (r : HttpRequest) (kind : FileKind) (info : FileInfo) (keep : Bool)
      → IsBelow world.fs world.doc_root info.resolved_path
      → send_found world sends r kind info keep ≡ send_found changed sends r kind info keep
  send_found-same sends r directory info keep below =
      ap
        (λ names.
          send_directory_response sends r
            (body_of (
              file_build_directory_listing world.fs world.memory (c_string r.path)
                info.resolved_path names))
            keep)
        (same info.resolved_path below).1
  send_found-same sends r regular info keep below =
      ap (λ file. send_file_response sends r info file keep) (same info.resolved_path below).0

  answer_path-same :
      (sends : List Outcome) (r : HttpRequest) (found : FileResult FileInfo) (keep : Bool)
      → file_stat_path world.fs world.doc_root r.path ≡ found
      → answer_path world sends r found keep ≡ answer_path changed sends r found keep
  answer_path-same sends r (ok info) keep e =
      send_found-same sends r info.kind info keep
        (file_stat_path-IsBelow world.fs world.doc_root strings r.path e)
  answer_path-same sends r not_found keep e = refl
  answer_path-same sends r forbidden keep e = refl
  answer_path-same sends r error keep e = refl

  answer_method-same :
      (sends : List Outcome) (r : HttpRequest) (method : HttpMethod) (keep : Bool)
      → answer_method world sends r method keep ≡ answer_method changed sends r method keep
  answer_method-same sends r unsupported keep = refl
  answer_method-same sends r get keep = answer_path-same sends r _ keep refl
  answer_method-same sends r head keep = answer_path-same sends r _ keep refl

  after_read-same :
      (client : Connection) (result : ReadResult) (reads : ReadState)
      → after_read world client result reads ≡ after_read changed client result reads
  unfolding answer
  after_read-same client end_of_stream reads = refl
  after_read-same client invalid reads = refl
  after_read-same client (request r line) reads =
      let keep = http_should_keep_alive (some r) in
      ap (λ reply. after_answer world (sent_to client reads reply) line keep reply.result)
        (answer_method-same client.sends r r.method keep)

  serve_next-same : (client : Connection) → serve_next world client ≡ serve_next changed client
  unfolding serve_next
  serve_next-same client = after_read-same client _ _

  -- What a client gets, and what is logged, does not depend on what stands outside the document
  -- root: with other contents of files and directories, the same for every path that is the
  -- canonical root or below it, `handle_client` does the same, whatever the client sends. Which
  -- paths there are and where links lead stays as it is, and `realpath` returns C strings.
  pub handle_client_confined :
      (fuel : ℕ) (client : Connection)
      → handle_client fuel world client
        ≡ handle_client fuel (record world { fopen = fopen'; readdir = readdir' }) client
  unfolding handle_client
  handle_client_confined zero client = refl
  handle_client_confined (suc fuel) client =
      let next = serve_next world client in
      ap (λ rest. if next.0 then rest else some (close next.1)) (handle_client_confined fuel next.1)
      ∙ ap (λ n. if n.0 then handle_client fuel changed n.1 else some (close n.1))
          (serve_next-same client)
