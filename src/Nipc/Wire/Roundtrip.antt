-- ===== src/Nipc/Wire/Roundtrip.antt =====
-- A message that is sent whole and received whole arrives as it was.
use mathlib.Core.Option
use grage.Prelude.{
  ◌≤◌, ℕ, ◌^◌, ◌<◌, ◌-◌, List, [], ◌∷◌, ◌++◌, ◌≡◌, refl, ◌∙◌, some, true, length, length-append,
  take, take-length_append, drop-length_append, take-length, drop-length, arith, append-nil,
}
use grage.Nipc.Message.{NipcMessage, build_nipc_message, is_blank_message}
use grage.Nipc.Wire.Bytes.{le_bytes}
use grage.Nipc.Wire.{
  Recv, bytes, closed, send_bytes, receive_bytes, message_bytes, message_of_bytes, message_size,
  send, receive,
}

-- The fields of a message fit their C types.
pub record IsEncodable (m : NipcMessage) : Type 0 where
  pub message_type : m.header.message_type < 2 ^ 8
  pub payload_length : m.header.payload_length < 2 ^ 16
  pub operation_id : m.header.operation_id < 2 ^ 8
  pub response_code : m.header.response_code < 2 ^ 32
  pub process_handshake_id : m.header.process_handshake_id < 2 ^ 8
  pub sector_number : m.payload.disk_sector.sector_number < 2 ^ 32
  pub sector_content : length m.payload.disk_sector.sector_content ≡ 512
  pub pfs_socket : m.payload.pfs_socket < 2 ^ 32

length-message_bytes : (m : NipcMessage) → IsEncodable m → length (message_bytes m) ≡ message_size
unfolding message_bytes
length-message_bytes m v = omega (
  arith,
  length-append m.payload.disk_sector.sector_content (le_bytes 4 m.payload.pfs_socket),
  v.sector_content,
)

pub message_of_bytes-message_bytes :
    (m : NipcMessage) → IsEncodable m → message_of_bytes (message_bytes m) ≡ m
unfolding message_bytes message_of_bytes
message_of_bytes-message_bytes m v =
    rw
      (take-length_append 512 m.payload.disk_sector.sector_content (le_bytes 4 m.payload.pfs_socket)
        v.sector_content)
      (rw
        (drop-length_append 512 m.payload.disk_sector.sector_content
          (le_bytes 4 m.payload.pfs_socket) v.sector_content)
        (ground arith))

send_lem : (m : NipcMessage) → IsEncodable m → send (message_size ∷ []) m ≡ message_bytes m
unfolding send send_bytes
send_lem m v =
    append-nil (take message_size (message_bytes m))
    ∙ take-length message_size (message_bytes m) (length-message_bytes m v)

-- One `recv` that returns all bytes fills the whole buffer.
receive_whole :
    (n : ℕ) (bs buffer : List ℕ)
    → length bs ≡ n
    → length buffer ≤ n
    → 0 < n
    → receive_bytes n (bytes bs ∷ []) buffer ≡ some (bs, n)
unfolding receive_bytes
receive_whole n bs buffer h k p =
    ground (arith, drop-length (length bs) buffer (omega arith), append-nil bs)

length-builder :
    (b : NipcMessage)
    → length b.payload.disk_sector.sector_content ≡ 512
    → length (message_bytes (build_nipc_message b)) ≡ message_size
unfolding message_bytes build_nipc_message
length-builder b h =
    omega
      (arith, length-append b.payload.disk_sector.sector_content (le_bytes 4 b.payload.pfs_socket))

-- A message whose fields fit their types, sent by one `send` that takes all its bytes and received
-- by one `recv` that returns all of them, arrives unchanged, whatever the receiver's 512-byte
-- sector buffer and other fields held.
pub receive-send :
    (m builder : NipcMessage)
    → IsEncodable m
    → length builder.payload.disk_sector.sector_content ≡ 512
    → receive builder (bytes (send (message_size ∷ []) m) ∷ []) ≡ some m
unfolding receive
receive-send m builder v h = rw (
  send_lem m v,
  receive_whole message_size (message_bytes m) (message_bytes (build_nipc_message builder))
      (length-message_bytes m v) (omega (arith, length-builder builder h)) (omega arith),
  receive,
  message_of_bytes-message_bytes m v,
)

-- What a receiver gets when the other end has closed the connection is a blank message.
pub receive_closed :
    (builder : NipcMessage) (rs : List Recv)
    → Option.map is_blank_message (receive builder (closed ∷ rs)) ≡ some true
unfolding receive receive_bytes message_of_bytes message_bytes build_nipc_message
receive_closed builder rs = refl

-- When the first `send` takes only `k` bytes of a message and the second takes as many as are still
-- to go, the second one starts again at the first byte: the last `k` bytes never go out.
pub send_partial :
    (m : NipcMessage) (k : ℕ)
    → 0 < k
    → k < message_size
    → send (k ∷ (message_size - k) ∷ []) m
      ≡ take k (message_bytes m) ++ take (message_size - k) (message_bytes m)
unfolding send send_bytes
send_partial m k p h = ground (arith, append-nil (take (message_size - k) (message_bytes m)))
