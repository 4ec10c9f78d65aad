-- ===== src/Nipc/Message.antt =====
-- grage-nipc/app/includes/nipc-messaging.h and grage-nipc/app/src/nipc-message-builder.c: a message
-- and the functions that fill it in. A field is a number, cut to the width of the parameter that
-- it comes through.
use Prim.Native.Nat.{ℕ, ◌%◌, ◌^◌}
use grage.Prelude.{Bool, List, ◌&&◌, ◌==◌}

-- DiskSector of grage-commons.h; the content is 512 bytes.
pub record DiskSector : Type 0 where
  pub sector_number : ℕ
  pub sector_content : List ℕ

-- NipcHeader
pub record NipcHeader : Type 0 where
  pub message_type : ℕ
  pub payload_length : ℕ
  pub operation_id : ℕ
  pub response_code : ℕ
  pub process_handshake_id : ℕ

-- NipcPayload
pub record NipcPayload : Type 0 where
  pub disk_sector : DiskSector
  pub pfs_socket : ℕ

-- NipcMessage
pub record NipcMessage : Type 0 where
  pub header : NipcHeader
  pub payload : NipcPayload

-- NIPC_MESSAGE_TYPE_*
abbrev pub type_handshake : ℕ
type_handshake = 0

abbrev pub type_sync_process : ℕ
type_sync_process = b'S'

-- NIPC_RESPONSE_CODE_*
abbrev pub response_success : ℕ
response_success = 2

abbrev pub response_error : ℕ
response_error = 1

-- NIPC_OPERATION_ID_*
abbrev pub op_put_sectors : ℕ
op_put_sectors = b'P'

abbrev pub op_get_sectors : ℕ
op_get_sectors = b'G'

abbrev pub op_sync_put_sector : ℕ
op_sync_put_sector = b'p'

abbrev pub op_sync_get_sector : ℕ
op_sync_get_sector = b'g'

abbrev pub op_sync_end : ℕ
op_sync_end = b'e'

-- NIPC_PROCESS_ID_*
abbrev pub process_pfs : ℕ
process_pfs = 4

abbrev pub process_ppd : ℕ
process_ppd = 3

-- NIPC_FIELD_BLANK
abbrev pub field_blank : ℕ
field_blank = 11

-- nipc_mbuilder_addMessageType
abbrev pub add_message_type : NipcMessage → ℕ → NipcMessage
add_message_type m t = record m { header = record (m.header) { message_type = t % 2 ^ 8 } }

-- nipc_mbuilder_addResponseCode
abbrev pub add_response_code : NipcMessage → ℕ → NipcMessage
add_response_code m code = record m { header = record (m.header) { response_code = code % 2 ^ 32 } }

-- nipc_mbuilder_addPayloadLength
abbrev pub add_payload_length : NipcMessage → ℕ → NipcMessage
add_payload_length m len = record m { header = record (m.header) { payload_length = len % 2 ^ 16 } }

-- nipc_mbuilder_addOperationId
abbrev pub add_operation_id : NipcMessage → ℕ → NipcMessage
add_operation_id m op = record m { header = record (m.header) { operation_id = op % 2 ^ 8 } }

-- nipc_mbuilder_addProcessId
abbrev pub add_process_id : NipcMessage → ℕ → NipcMessage
add_process_id m id = record m { header = record (m.header) { process_handshake_id = id % 2 ^ 8 } }

-- nipc_mbuilder_addDiskSector
abbrev pub add_disk_sector : NipcMessage → DiskSector → NipcMessage
add_disk_sector m s = record m { payload = record (m.payload) { disk_sector = s } }

-- nipc_mbuilder_addDiskSectorId
abbrev pub add_disk_sector_id : NipcMessage → ℕ → NipcMessage
add_disk_sector_id m id = record m {
  payload = record (m.payload) {
    disk_sector = record (m.payload.disk_sector) { sector_number = id % 2 ^ 32 };
  };
}

-- `message.payload.pfsSocket = socket`
abbrev pub set_pfs_socket : NipcMessage → ℕ → NipcMessage
set_pfs_socket m socket = record m { payload = record (m.payload) { pfs_socket = socket % 2 ^ 32 } }

-- nipc_mbuilder_buildNipcMessage; the argument is what the uninitialised local holds.
unfoldable pub build_nipc_message : NipcMessage → NipcMessage
build_nipc_message builder =
    add_operation_id
      (add_process_id
        (add_payload_length (add_message_type (add_response_code builder field_blank) field_blank)
          field_blank)
        field_blank)
      field_blank

-- nipc_mbuilder_isBlanckMessage
abbrev pub is_blank_message : NipcMessage → Bool
is_blank_message m =
    m.header.message_type == field_blank
    && (m.header.operation_id == field_blank
        && (m.header.process_handshake_id == field_blank && m.header.response_code == field_blank))
