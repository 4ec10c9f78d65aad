-- ===== src/Nipc/Samples.antt =====
-- Messages for the tests.
use grage.Prelude.{ℕ, List, arith, length-replicate, replicate}
use grage.Nipc.Message.{NipcMessage, DiskSector}
use grage.Nipc.Wire.Roundtrip.{IsEncodable}

-- A sector filled with one byte.
abbrev pub content : ℕ → List ℕ
content byte = replicate 512 byte

abbrev pub sector : ℕ → ℕ → DiskSector
sector n byte = record { sector_number = n; sector_content = content byte }

-- A message with an operation and a sector.
abbrev pub request : ℕ → ℕ → ℕ → NipcMessage
request op n byte = record {
  header = record {
    message_type = 7;
    payload_length = 516;
    operation_id = op;
    response_code = 11;
    process_handshake_id = 4;
  };
  payload = record { disk_sector = sector n byte; pfs_socket = 9 };
}

pub request-IsEncodable : IsEncodable (request b'P' 6 1)
request-IsEncodable = record {
  message_type = omega arith;
  payload_length = omega arith;
  operation_id = omega arith;
  response_code = omega arith;
  process_handshake_id = omega arith;
  sector_number = omega arith;
  sector_content = length-replicate {A = ℕ} 512 1;
  pfs_socket = omega arith;
}
