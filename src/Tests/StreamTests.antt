-- ===== src/Tests/StreamTests.antt =====
-- A connection whose bytes arrive one by one and one whose bytes are half there, at an input.
use final_system_progamming.Common.{
  false, Option, Avoids, bytes_eq, if◌then◌else◌, inl, inr, ◌≡◌, ◌≤◌, refl, true, [], ◌∷◌, none,
  some, Bytes, arith, codes, length, replicate,
}
use final_system_progamming.Files.Resolve.{missing, stat_missing, resolved, is_regular}
use final_system_progamming.Server.Socket.{moves, interrupted}
use final_system_progamming.Server.Read.{read_next_request}
use final_system_progamming.Server.Read.Sound.{Explains, read_next_request-Explains}
use final_system_progamming.Server.Client.{World, Connection, answer, handle_client}
use final_system_progamming.Server.Client.Alike.{IsReady, IsAlike, outcome_of}
use final_system_progamming.Files.Resolve.Confined.{IsBelow}
use final_system_progamming.Server.Response.{File}
use final_system_progamming.Server.Client.Confined.{handle_client_confined}
use final_system_progamming.Server.Client.Session.{Session}
use final_system_progamming.Http.Types.{HttpRequest, get, http_11}
use final_system_progamming.Server.Response.Bodiless.{Extends, as_head}
use final_system_progamming.Server.Client.HeadRequest.{answer-Extends}
use final_system_progamming.Server.Client.Segments.{handle_client-stream}

abbrev stream : Bytes
stream = codes "GET / HTTP/1.0\r\n\r\nX"

abbrev no_files : World
no_files = record {
  doc_root = codes "/w";
  fs = record { realpath = λ p. missing; stat = λ p. stat_missing };
  fopen = λ p. none;
  readdir = λ p. none;
  memory = record {
    realloc_entries = λ i size. true;
    malloc = λ i size. true;
    realloc = λ size. true;
  };
  peer = none;
}

abbrev byte_by_byte : Connection
byte_by_byte = record {
  reads = record { buffered = []; incoming = stream; receives = replicate 20 (moves 1) };
  sends = replicate 300 (moves 1000);
  outgoing = [];
  log = [];
  closed = 0;
}

abbrev half_there : Connection
half_there = record {
  reads = record {
    buffered = codes "GET / HTT";
    incoming = codes "P/1.0\r\n\r\nX";
    receives = interrupted ∷ replicate 11 (moves 3);
  };
  sends = replicate 300 (moves 1000);
  outgoing = [];
  log = [];
  closed = 0;
}

byte_by_byte-IsReady : IsReady byte_by_byte.reads
byte_by_byte-IsReady = record { holds = omega arith; delivers = (refl, omega arith) }

half_there-IsReady : IsReady half_there.reads
half_there-IsReady = record { holds = omega arith; delivers = (refl, omega arith) }

both-IsAlike : IsAlike byte_by_byte half_there
both-IsAlike = record {
  same_stream = refl;
  same_sends = refl;
  same_outgoing = refl;
  same_log = refl;
  same_closed = refl;
}

handle_client-stream_example :
    (a' : Connection) × (b' : Connection) × (handle_client 30 no_files byte_by_byte ≡ some a')
    × (handle_client 30 no_files half_there ≡ some b')
    × (outcome_of a' ≡ outcome_of b')
handle_client-stream_example =
    handle_client-stream 30 no_files byte_by_byte half_there byte_by_byte-IsReady half_there-IsReady
      both-IsAlike (omega arith)

read_next_request-Explains_example :
    let (result, reads) = read_next_request (replicate 20 (moves 1)) stream [] in
    Explains stream result reads × (length reads.buffered ≤ 8192)
read_next_request-Explains_example =
    read_next_request-Explains (replicate 20 (moves 1)) stream [] (omega arith)

-- The same server with a file outside of its root.
abbrev rooted : World
rooted = record no_files {
  fs = record { realpath = λ p. resolved (codes "/w"); stat = λ p. is_regular 1 };
}

abbrev with_secret : Bytes → Option File
with_secret p =
    if bytes_eq p (codes "/e")
    then some (record { contents = codes "s"; seekable = true })
    else none

rooted-strings : (p q : Bytes) → rooted.fs.realpath p ≡ resolved q → Avoids 0 q
rooted-strings p q e = let is : codes "/w" ≡ q = ground (arith, e) in rw (← is) (omega arith)

hidden : (path : Bytes) → IsBelow rooted.fs rooted.doc_root path → none ≡ with_secret path
hidden path (root_real, is_root, below) =
    let is : codes "/w" ≡ root_real = ground (arith, is_root) in
    elim below [ inl e ↦ rw (e, ← is) refl | inr (rest, e) ↦ rw (e, ← is) refl ]

handle_client_confined_example :
    handle_client 30 rooted byte_by_byte
    ≡ handle_client 30 (record rooted { fopen = with_secret; readdir = λ p. none }) byte_by_byte
handle_client_confined_example =
    handle_client_confined rooted with_secret (λ p. none) rooted-strings
      (λ path below. (hidden path below, refl)) 30 byte_by_byte

abbrev last_three : HttpRequest
last_three = record {
  method_text = codes "GET";
  path = codes "/a.txt";
  version_text = codes "HTTP/1.1";
  connection = [];
  method = get;
  version = http_11;
  keep_alive_requested = true;
  has_range = true;
  range_is_suffix = true;
  range_end_provided = false;
  range_start = 0;
  range_end = 3;
}

-- A server whose root holds one file of ten bytes.
abbrev one_file : World
one_file = record no_files {
  fs = record {
    realpath = λ p. if bytes_eq p (codes "/w") then resolved p else resolved (codes "/w/a.txt");
    stat = λ p. is_regular 10;
  };
  fopen = λ p. some (record { contents = codes "0123456789"; seekable = true });
}

answer-Extends_example :
    Extends
      (answer one_file (replicate 99 (moves 9)) (as_head last_three) true)
      (answer one_file (replicate 99 (moves 9)) last_three true)
answer-Extends_example = answer-Extends one_file (replicate 99 (moves 9)) last_three refl true
