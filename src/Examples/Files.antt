-- ===== src/Examples/Files.antt =====
-- The file server at concrete inputs: a file of three bytes in two parts.
use my_project_imserver.Base.{
  Option, some, Bool, true, ℕ, ◌≡◌, refl, arith, List, [], ◌∷◌, ◌++◌, none, replicate, Bytes,
  bytes_eq,
}
use my_project_imserver.Wire.Compress.{compress, length_loop}
use my_project_imserver.Wire.Reader.{new_reader, read_data, read_string}
use my_project_imserver.Server.{map_find}
use my_project_imserver.Frame.Segments.{joined}
use my_project_imserver.Files.Manager.{listed, is_file_exsit}
use my_project_imserver.Files.Transfer.{
  on_upload_file_response, State, FileSession, file_name, msg_type_upload_req,
}
use my_project_imserver.Files.Process.{file_process}
use my_project_imserver.Files.Replies.{file_body}
use my_project_imserver.Files.Upload.{upload_requests, upload_replies}
use my_project_imserver.Files.Cut.{rounds, pieces, download_replies, download_request}
use my_project_imserver.Files.Service.{Service, serve, file_on_read}
use my_project_imserver.Frame.Receive.{Outcome, done, crashed, out_of_fuel}
use my_project_imserver.Server.{map_insert}
use my_project_imserver.Server.Laws.{IsSorted, has}
use my_project_imserver.Runs.{connected, received, opening, reading, start, later, is_open}
use my_project_imserver.Files.Names.{Has}
use my_project_imserver.Files.Service.{file_on_connection}
use my_project_imserver.Files.Runs.{file_server_lem}
use my_project_imserver.Files.Fetch.{Fetched, file_on_read-download_requests}
use my_project_imserver.Files.Exchange.{sent_on, file_on_read-pieces}
use my_project_imserver.Frame.Buffer.{byte_buffer}
use my_project_imserver.Frame.RoundTrip.{stream}
use my_project_imserver.Files.Wire.{Received, file_on_read-upload_requests}
use my_project_imserver.Files.Isolation.{Served, serve-Served}
use my_project_imserver.Files.Mishaps.{file_process_crash}
use my_project_imserver.Examples.Disk.{Memory, memory_files, memory_files-IsStored, stored}

abbrev a_name : Bytes
a_name = 97 ∷ 49 ∷ []

abbrev no_disk : Memory
no_disk = record { disk = λ name. none; streams = λ fp. none; next = 1 }

abbrev fresh : FileSession ℕ
fresh = record { seq = 0; fp = none; offset = 0; filesize = 0 }

abbrev desk : State memory_files
desk = record { session = fresh; files = []; fs = no_disk; sent = [] }

abbrev first : Bytes
first = 1 ∷ 2 ∷ []

abbrev others : List Bytes
others = (3 ∷ []) ∷ []

-- The file is there.
abbrev full_desk : State memory_files
full_desk = record desk {
  files = a_name ∷ [];
  fs = record no_disk { disk = stored (file_name a_name) (1 ∷ 2 ∷ 3 ∷ []) no_disk.disk };
}

file_process_crash_example :
    file_process memory_files (file_body msg_type_upload_req 0 a_name 2 3 (3 ∷ [])) desk ≡ none
unfolding is_file_exsit listed
file_process_crash_example =
    file_process_crash memory_files 0 97 (49 ∷ []) 2 3 (3 ∷ []) desk [] no_disk (omega arith)
      (omega arith) (omega arith) (omega arith) (omega arith) refl refl

abbrev two_clients : Service Memory ℕ
two_clients = record {
  sessions = ((1 ∷ []), fresh) ∷ ((2 ∷ []), fresh) ∷ [];
  files = a_name ∷ [];
  fs = no_disk;
  sent = [];
  closed = [];
}

-- The state behind a request.
abbrev behind : Option (Bool × Service Memory ℕ) → Service Memory ℕ
behind none = two_clients
behind (some (ok, v)) = v

-- The second client uploads what is there.
abbrev second_upload : Bytes
second_upload = file_body msg_type_upload_req 7 a_name 0 3 first

serve-Served_example :
    Served memory_files
      (2 ∷ [])
      two_clients
      (behind (serve memory_files (2 ∷ []) second_upload two_clients))
unfolding serve is_file_exsit listed map_find bytes_eq file_process read_data new_reader compress
    read_string length_loop on_upload_file_response
serve-Served_example =
    serve-Served memory_files (2 ∷ []) second_upload two_clients
      (behind (serve memory_files (2 ∷ []) second_upload two_clients)) true refl

-- The second client uploads its file.
abbrev two_idle : Service Memory ℕ
two_idle = record two_clients { files = [] }

file_on_read-upload_requests_example :
    Received memory_files
      (2 ∷ [])
      97
      (49 ∷ [])
      (memory_files-IsStored (file_name a_name))
      refl
      0
      (1 ∷ 2 ∷ 3 ∷ [])
      (upload_replies 0 a_name 3 0 (first ∷ others))
      two_idle
      (file_on_read memory_files byte_buffer
        (2 ∷ [])
        (stream 8 (upload_requests 0 a_name 3 0 (first ∷ others)) [])
        two_idle)
unfolding memory_files-IsStored listed map_find bytes_eq
file_on_read-upload_requests_example =
    file_on_read-upload_requests memory_files (2 ∷ []) 97 (49 ∷ [])
      (memory_files-IsStored (file_name a_name)) refl 0 first others fresh two_idle refl refl refl
      (omega arith) (omega arith, (omega arith, tt)) (omega arith)

-- One client connects and sends its upload.
abbrev nobody : Service Memory ℕ
nobody = record two_clients { sessions = [] }

abbrev one_client : Service Memory ℕ
one_client = record two_clients { sessions = ((2 ∷ []), fresh) ∷ [] }

abbrev end_of : Outcome Bytes (Service Memory ℕ) → Service Memory ℕ
end_of (done b v) = v
end_of crashed = nobody
end_of out_of_fuel = nobody

abbrev one_served : Service Memory ℕ
one_served =
    end_of
      (file_on_read memory_files byte_buffer (2 ∷ []) (stream 8 (second_upload ∷ []) []) one_client)

one_read :
    file_on_read memory_files byte_buffer (2 ∷ []) (stream 8 (second_upload ∷ []) []) one_client
    ≡ done [] one_served
unfolding file_on_read my_project_imserver.Frame.Receive.receive
    my_project_imserver.Frame.Receive.on_read my_project_imserver.Frame.Receive.next_package
    compress my_project_imserver.Frame.Receive.file_size my_project_imserver.Frame.Receive.handle
    map_find bytes_eq file_process read_data new_reader read_string length_loop
    on_upload_file_response is_file_exsit listed serve
one_read = refl

file_server_lem_example :
    IsSorted one_served.sessions
    × ((k : Bytes)
        → has k one_served.sessions ≡ is_open (received (2 ∷ []) ∷ connected (2 ∷ []) ∷ []) k)
    × Has nobody.files one_served.files
unfolding file_on_connection map_insert my_project_imserver.Files.Transfer.new_file_session
file_server_lem_example = file_server_lem memory_files byte_buffer {v = nobody} refl (
    later (later start (opening (2 ∷ []) 0 nobody))
      (reading (2 ∷ []) 0 (stream 8 (second_upload ∷ []) []) [] one_client one_served one_read))

-- The second client downloads what is there.
abbrev two_known : Service Memory ℕ
two_known = record two_clients {
  fs = record no_disk { disk = stored (file_name a_name) (1 ∷ 2 ∷ 3 ∷ []) no_disk.disk };
}

file_on_read-download_requests_example :
    Fetched memory_files
      (2 ∷ [])
      97
      (49 ∷ [])
      (memory_files-IsStored (file_name a_name))
      refl
      4
      (1 ∷ 2 ∷ 3 ∷ [])
      (download_replies 4 a_name 3 0 (pieces (1 ∷ 2 ∷ 3 ∷ [])))
      two_known
      (file_on_read memory_files byte_buffer
        (2 ∷ [])
        (stream 8 (replicate (rounds (1 ∷ 2 ∷ 3 ∷ [])) (download_request 4 a_name 0 0)) [])
        two_known)
unfolding memory_files-IsStored listed map_find bytes_eq file_name
file_on_read-download_requests_example =
    file_on_read-download_requests memory_files (2 ∷ []) 97 (49 ∷ [])
      (memory_files-IsStored (file_name a_name)) refl 4 0 0 (1 ∷ 2 ∷ 3 ∷ []) fresh two_known refl
      refl refl refl refl (omega arith) (omega arith) (omega arith) (omega arith) (omega arith)
      (omega arith)

-- The second client uploads, the first one downloads.
file_on_read-pieces_example :
    (v1 : Service Memory ℕ) × (v2 : Service Memory ℕ) × (file_on_read memory_files byte_buffer
        (2 ∷ [])
        (stream 8 (upload_requests 0 a_name 3 0 (first ∷ others)) [])
        two_idle
      ≡ done [] v1)
    × (file_on_read memory_files byte_buffer
          (1 ∷ [])
          (stream 8 (replicate (rounds (1 ∷ 2 ∷ 3 ∷ [])) (download_request 4 a_name 0 0)) [])
          v1
        ≡ done [] v2)
    × (v2.sent
        ≡ sent_on (2 ∷ []) (upload_replies 0 a_name 3 0 (first ∷ others))
          ++ sent_on (1 ∷ []) (download_replies 4 a_name 3 0 (pieces (1 ∷ 2 ∷ 3 ∷ []))))
    × (joined (pieces (1 ∷ 2 ∷ 3 ∷ [])) ≡ 1 ∷ 2 ∷ 3 ∷ [])
    × (v2.closed ≡ [])
unfolding memory_files-IsStored listed map_find bytes_eq
file_on_read-pieces_example =
    file_on_read-pieces memory_files 97 (49 ∷ []) (memory_files-IsStored (file_name a_name)) refl
      (2 ∷ []) (1 ∷ []) 0 4 0 0 first others fresh fresh two_idle refl refl refl refl refl refl refl
      (omega arith) (omega arith) (omega arith) (omega arith) (omega arith, (omega arith, tt))
      (omega arith)
