-- ===== src/Server/Client/Session/Served.antt =====
-- The loop of a connection, all of whose bytes arrive, carries out a session.
use final_system_progamming.Common.{◌≡◌, List, ◌++◌, Bytes}
use final_system_progamming.Server.Client.{World, Connection, LogEntry}
use final_system_progamming.Server.Client.Alike.{stream_of}
use final_system_progamming.Server.Client.Session.{Session}

-- What the loop adds is a session.
Adds : World → Connection → Connection → Type 0
Adds world client client' =
    (out : Bytes) × (log : List LogEntry) × Session world client.sends (stream_of client.reads) out
      log
    × (client'.outgoing ≡ client.outgoing ++ out)
    × (client'.log ≡ client.log ++ log)
