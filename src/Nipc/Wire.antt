-- ===== src/Nipc/Wire.antt =====
-- grage-nipc/app/src/nipc-messaging.c over the byte loops of
-- grage-commons/app/src/misc/linux-commons-socket.c. A message goes over the wire as its memory
-- image: the packed structs of nipc-messaging.h, little-endian. The results of `send` and `recv`,
-- which the program does not implement, are arguments.
pub mod Bytes
pub mod Roundtrip
use grage.Prelude.{
  ℕ, ◌+◌, ◌-◌, ◌%◌, ◌<◌, Option, none, some, List, [], ◌∷◌, ◌++◌, if◌then◌else◌, ltb, leb, length,
  take, drop,
}
use grage.Commons.LinkedList.{word32}
use grage.Nipc.Message.{NipcMessage, build_nipc_message}
use Bytes.{le_bytes, of_le}

-- One result of `recv`: bytes, or 0 or -1.
pub data Recv : Type 0 where
  bytes : List ℕ → Recv
  closed : Recv
  failed : Recv

-- What `memcpy` to the start of a buffer leaves in it.
abbrev pub overwrite : List ℕ → List ℕ → List ℕ
overwrite chunk buffer = chunk ++ drop (length chunk) buffer

-- The loop of commons_socket_receiveBytes, with the results of `recv` in order and what has been
-- received so far. Each call of `recv` gets the start of the buffer. The result is the buffer and
-- the count returned; `none` is a call of `recv` that has not come back.
unfoldable pub receive_loop : ℕ → ℕ → List Recv → List ℕ → Option (List ℕ × ℕ)
receive_loop count received [] buffer = if ltb received count then none else some (buffer, received)
receive_loop count received (r ∷ rs) buffer =
    let go_on : ℕ → List ℕ → Option (List ℕ × ℕ) = λ n b. receive_loop count n rs b in
    if ltb received count
    then elim r [
      | bytes chunk ↦ go_on (received + length chunk) (overwrite chunk buffer)
      | closed ↦ some (buffer, received)
      | failed ↦ some (buffer, (received + word32 - 1) % word32)
    ]
    else some (buffer, received)

-- commons_socket_receiveBytes
unfoldable pub receive_bytes : ℕ → List Recv → List ℕ → Option (List ℕ × ℕ)
unfolding receive_loop
receive_bytes count rs buffer = receive_loop count 0 rs buffer

-- The loop of commons_socket_sendBytes, with the results of `send` in order (0 for one that is not
-- positive). Each call of `send` gets the start of the buffer. The result is what went out.
unfoldable pub send_loop : ℕ → ℕ → List ℕ → List ℕ → List ℕ
send_loop count sent [] buffer = []
send_loop count sent (k ∷ ks) buffer =
    let rest = send_loop count (sent + k) ks buffer in
    if ltb sent count then take k buffer ++ (if leb k 0 then [] else rest) else []

-- commons_socket_sendBytes
unfoldable pub send_bytes : ℕ → List ℕ → List ℕ → List ℕ
unfolding send_loop
send_bytes count ks buffer = send_loop count 0 ks buffer

-- The memory image of a NipcMessage.
unfoldable pub message_bytes : NipcMessage → List ℕ
message_bytes m =
    le_bytes 1 h.message_type
    ++ (le_bytes 2 h.payload_length
        ++ (le_bytes 1 h.operation_id
            ++ (le_bytes 4 h.response_code
                ++ (le_bytes 1 h.process_handshake_id
                    ++ (le_bytes 4 d.sector_number
                        ++ (d.sector_content ++ le_bytes 4 m.payload.pfs_socket))))))
  where
    open m use {header as h}
    open m.payload use {disk_sector as d}

-- The message whose memory image a buffer holds.
unfoldable pub message_of_bytes : List ℕ → NipcMessage
message_of_bytes bs = record {
  header = record {
    message_type = of_le (take 1 bs);
    payload_length = of_le (take 2 (drop 1 bs));
    operation_id = of_le (take 1 (drop 3 bs));
    response_code = of_le (take 4 (drop 4 bs));
    process_handshake_id = of_le (take 1 (drop 8 bs));
  };
  payload = record {
    disk_sector = record {
      sector_number = of_le (take 4 (drop 9 bs));
      sector_content = take 512 (drop 13 bs);
    };
    pfs_socket = of_le (take 4 (drop 512 (drop 13 bs)));
  };
}

-- sizeof(NipcMessage)
abbrev pub message_size : ℕ
message_size = 529

-- nipc_messaging_send: the bytes that go out.
unfoldable pub send : List ℕ → NipcMessage → List ℕ
send ks m = send_bytes message_size ks (message_bytes m)

-- nipc_messaging_receive; `builder` is what the uninitialised local holds.
unfoldable pub receive : NipcMessage → List Recv → Option NipcMessage
receive builder rs =
    elim (receive_bytes message_size rs (message_bytes (build_nipc_message builder))) [
      | none ↦ none
      | some (buffer, n) ↦ some (message_of_bytes buffer)
    ]
