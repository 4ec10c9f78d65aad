-- ===== src/Nipc/Facade.antt =====
-- grage-nipc/app/src/nipc-facade.c: the messages that open a connection. The first argument of
-- each is what the uninitialised local holds.
use grage.Prelude.{ℕ}
use grage.Nipc.Message.{
  NipcMessage, build_nipc_message, add_message_type, add_process_id, add_operation_id,
  add_response_code, type_handshake, process_ppd,
}

-- The message of nipc_sendHandshake.
abbrev pub handshake_message : NipcMessage → ℕ → NipcMessage
handshake_message builder process_id =
    add_process_id (add_message_type (build_nipc_message builder) type_handshake) process_id

-- The message of nipc_sendPpdHandshake: the disk's id travels as the operation, and its size as
-- the response code.
abbrev pub ppd_handshake_message : NipcMessage → ℕ → ℕ → NipcMessage
ppd_handshake_message builder ppd_id sectors_count =
    add_response_code
      (add_operation_id
        (add_process_id (add_message_type (build_nipc_message builder) type_handshake) process_ppd)
        ppd_id)
      sectors_count
