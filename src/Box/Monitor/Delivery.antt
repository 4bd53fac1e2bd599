-- ===== src/Box/Monitor/Delivery.antt =====
-- MP5: the client and the server together, for one file.
use sp.Base.{ℕ, ◌≡◌, List, [], map, Bytes, length, drop}
use sp.Box.Protocol.{Status, status_ok, status_fail, status_more, Response}
use sp.Box.Server.{Setup}
use sp.Box.Daemon.{
  is_dir as is_directory, Host, FileData, req_meta, Connection, handle_request, sync_file,
}
use sp.Box.Monitor.{
  Answer, ok, fail, more, busy, Reply, Machine, Client, Run, returned, waits, fault, ◌>>=◌, Message,
  is_dir, meta_of, file_bytes,
}
use sp.Box.Monitor as Monitor

unfoldable pub answer_of : Status → Answer
answer_of status_ok = ok
answer_of status_fail = fail
answer_of status_more = more

unfoldable pub reply_of : Response → Reply
unfolding answer_of
reply_of r = record { op = r.op; status = answer_of r.status; client_id = r.client_id }

module _ (h : Host) (m : Machine) where
  -- The server handles the request for a file, and the client takes its responses; the data that the
  -- client would send is there for the server when it asks for it.
  unfoldable pub talk :
      Setup → ℕ → Connection h.Fs → Client → Bytes → Bytes → Connection h.Fs × Run Client
  unfolding handle_request meta_of file_bytes reply_of
  talk cfg fd conn c path relative =
      let d : FileData = record {
        datalen = length (file_bytes m path);
        bytes = file_bytes m path;
      } in
      let conn' = handle_request h cfg fd conn (req_meta (meta_of m c path relative) d) in
      (
        conn',
        Monitor.sync_file m
            (record c { replies = map reply_of (drop (length conn.sent) conn'.sent) }) path,
      )

  -- What the client's side makes of the responses.
  abbrev IsTaken : Client → Bytes → List Response → Type 0
  IsTaken c path rs =
      (c' : Client) × (Monitor.sync_file m (record c { replies = map reply_of rs }) path
        ≡ returned c')
      × (c'.replies ≡ [])
