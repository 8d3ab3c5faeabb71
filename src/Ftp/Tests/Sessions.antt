-- ===== src/Ftp/Tests/Sessions.antt =====
-- Whole calls of the FTP client against scripted servers.
use gufo_blob.Base.{
  true, false, List, [], ◌∷◌, ◌++◌, none, some, take, text_eq, ◌≡◌, refl, arith, Bytes, codes, inl,
}
use gufo_blob.Base.Int.{pos}
use gufo_blob.Base.Result.{ok, err, blob_error, timed_out}
use gufo_blob.Utils.{bytes_to_int, bytes_to_int_range, int_of, scan_digits}
use gufo_blob.Ftp.Client.Sockets.{SockAfter, connection-sock}
use gufo_blob.Ftp.Common.Methods.{join, last_or}
use gufo_blob.Ftp.Common.Utf8.{encode, encode_char}
use gufo_blob.Utils.Decimal.{decimal, emit}
use gufo_blob.Ftp.Common.Pasv.{parse_pasv}
use gufo_blob.Ftp.Common.Pasv.Laws.{parse_pasv-octets}
use gufo_blob.Ftp.Tests.{octets_small}
use gufo_blob.Ftp.Wire.{Recv, chunk, recv_timeout, partition, is_multi}
use gufo_blob.Ftp.Wire.Lines.{Holds}
use gufo_blob.Ftp.Wire.Replies.{render, IsLine}
use gufo_blob.Ftp.Client.{connection, sent, FtpBlob, Network, init, command, opened, released}
use gufo_blob.Ftp.Client.Transfer.{get, is_open}
use gufo_blob.Ftp.Client.Methods.{delete}
use gufo_blob.Ftp.Client.Session.{Reply, wire, stream, delete_outcome, delete-reply}
use gufo_blob.Ftp.Client.Download.{retr, pasv_text, get-replies}
use gufo_blob.Ftp.Client.Late.{delete_late_reply}
use gufo_blob.Ftp.Client.Balance.{opens, releases}
use gufo_blob.Ftp.Client.Calls.{open_call, close_call, put_call, get_call, run, run-Balanced}

abbrev network : List Recv → List Recv → Network
network script answers = record {
  connects = true ∷ [];
  sends = sent ∷ sent ∷ sent ∷ sent ∷ [];
  script = script;
  data_connects = true ∷ [];
  data_script = answers;
  data_sends = [];
  log = [];
}

abbrev connected_blob : List Recv → List Recv → FtpBlob
connected_blob script answers =
    record (init (codes "user") (codes "secret") [] 1 none (network script answers)) { sock = true }

deleted_coded :
    bytes_to_int_range (take 3 (codes "250 ok")) (some (pos 0)) (some (pos 999)) ≡ ok (pos 250)
unfolding bytes_to_int_range bytes_to_int int_of scan_digits
deleted_coded = refl

deleted_whole : IsLine (codes "250 ok")
unfolding partition
deleted_whole = refl

deleted_single : is_multi (codes "250 ok") ≡ false
unfolding is_multi text_eq
deleted_single = refl

abbrev deleted : Reply
deleted = record {
  first = codes "250 ok";
  others = [];
  code = pos 250;
  long = omega arith;
  coded = deleted_coded;
  lines = (deleted_whole, tt);
  closed = inl (deleted_single, refl);
}

address_coded :
    bytes_to_int_range (take 3 (codes "227 OK (127,0,0,1,200,10)")) (some (pos 0)) (some (pos 999))
    ≡ ok (pos 227)
unfolding bytes_to_int_range bytes_to_int int_of scan_digits
address_coded = refl

address_whole : IsLine (codes "227 OK (127,0,0,1,200,10)")
unfolding partition
address_whole = refl

address_single : is_multi (codes "227 OK (127,0,0,1,200,10)") ≡ false
unfolding is_multi text_eq
address_single = refl

abbrev address : Reply
address = record {
  first = codes "227 OK (127,0,0,1,200,10)";
  others = [];
  code = pos 227;
  long = omega arith;
  coded = address_coded;
  lines = (address_whole, tt);
  closed = inl (address_single, refl);
}

opening_coded :
    bytes_to_int_range (take 3 (codes "150 go")) (some (pos 0)) (some (pos 999)) ≡ ok (pos 150)
unfolding bytes_to_int_range bytes_to_int int_of scan_digits
opening_coded = refl

opening_whole : IsLine (codes "150 go")
unfolding partition
opening_whole = refl

opening_single : is_multi (codes "150 go") ≡ false
unfolding is_multi text_eq
opening_single = refl

abbrev opening : Reply
opening = record {
  first = codes "150 go";
  others = [];
  code = pos 150;
  long = omega arith;
  coded = opening_coded;
  lines = (opening_whole, tt);
  closed = inl (opening_single, refl);
}

finished_coded :
    bytes_to_int_range (take 3 (codes "226 ok")) (some (pos 0)) (some (pos 999)) ≡ ok (pos 226)
unfolding bytes_to_int_range bytes_to_int int_of scan_digits
finished_coded = refl

finished_whole : IsLine (codes "226 ok")
unfolding partition
finished_whole = refl

finished_single : is_multi (codes "226 ok") ≡ false
unfolding is_multi text_eq
finished_single = refl

abbrev finished : Reply
finished = record {
  first = codes "226 ok";
  others = [];
  code = pos 226;
  long = omega arith;
  coded = finished_coded;
  lines = (finished_whole, tt);
  closed = inl (finished_single, refl);
}

abbrev get_replies : Bytes
get_replies = wire address ++ (wire opening ++ (wire finished ++ []))

delete-reply_example :
    let b = connected_blob (chunk (wire deleted ++ codes "next") ∷ []) [] in
    ((delete (codes "a") b).0 ≡ delete_outcome (codes "a") (pos 250))
    × ((delete (codes "a") b).1.net.log ≡ command (codes "DELE a") ∷ [])
    × Holds (stream (delete (codes "a") b).1) (codes "next") []
unfolding encode encode_char render
delete-reply_example =
    delete-reply (codes "a") (codes "DELE a") deleted
      (connected_blob (chunk (wire deleted ++ codes "next") ∷ []) []) (codes "next") [] refl refl
      refl ((wire deleted ++ codes "next") ∷ [], refl, refl, (cc, tt))

delete_late_reply_example :
    let b = connected_blob (recv_timeout ∷ chunk (wire deleted ++ []) ∷ []) [] in
    ((delete (codes "a") b).0 ≡ err (blob_error timed_out))
    × ((delete (codes "b") (delete (codes "a") b).1).0 ≡ delete_outcome (codes "b") (pos 250))
unfolding encode encode_char render partition
delete_late_reply_example =
    delete_late_reply (codes "a") (codes "b") (codes "DELE a") (codes "DELE b") deleted
      (connected_blob (recv_timeout ∷ chunk (wire deleted ++ []) ∷ []) []) []
      (chunk (wire deleted ++ []) ∷ []) [] (sent ∷ sent ∷ []) refl refl refl refl refl refl
      ((wire deleted ++ []) ∷ [], refl, refl, (cc, tt))

abbrev get_blob : FtpBlob
get_blob =
    connected_blob (chunk get_replies ∷ []) (chunk (1 ∷ 2 ∷ []) ∷ chunk (3 ∷ []) ∷ chunk [] ∷ [])

address_parsed : parse_pasv (codes "227 OK (127,0,0,1,200,10)") ≡ ok (codes "127.0.0.1", pos 51210)
unfolding decimal emit join
address_parsed = parse_pasv-octets (codes "227 OK ") [] 127 0 0 1 200 10 (ground arith) octets_small

get-replies_example :
    ((get (codes "a") get_blob).0 ≡ ok (1 ∷ 2 ∷ 3 ∷ []))
    × ((get (codes "a") get_blob).1.net.log
        ≡ released
          ∷ command (retr (codes "a"))
          ∷ opened (codes "127.0.0.1") (pos 51210)
          ∷ command pasv_text
          ∷ [])
    × Holds (stream (get (codes "a") get_blob).1) [] []
unfolding encode encode_char render is_open last_or
get-replies_example =
    get-replies (codes "a") (codes "RETR a") address opening finished get_blob (codes "127.0.0.1")
      (pos 51210) ((1 ∷ 2 ∷ []) ∷ (3 ∷ []) ∷ []) [] [] [] (sent ∷ sent ∷ []) refl refl refl refl
      address_parsed refl refl refl refl (cc, (cc, tt)) (get_replies ∷ [], refl, refl, (cc, tt))

run-Balanced_example :
    let calls =
      open_call ∷ get_call (codes "a") ∷ put_call (codes "b") (1 ∷ []) ∷ close_call ∷ [] in
    opens (run calls get_blob).net.log ≡ releases (run calls get_blob).net.log
unfolding opens releases
run-Balanced_example =
    run-Balanced
      (open_call ∷ get_call (codes "a") ∷ put_call (codes "b") (1 ∷ []) ∷ close_call ∷ []) get_blob
      refl

connection-sock_example : SockAfter (connection get_blob).0 (connection get_blob).1.sock
connection-sock_example = connection-sock get_blob
