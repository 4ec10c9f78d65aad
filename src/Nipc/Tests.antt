-- ===== src/Nipc/Tests.antt =====
-- Concrete transfers of a message.
use grage.Prelude.{ℕ, some, [], ◌∷◌, ◌≡◌, length-replicate}
use grage.Nipc.Samples.{request, request-IsEncodable}
use grage.Nipc.Wire.{bytes, message_size, send, receive}
use grage.Nipc.Wire.Roundtrip.{receive-send}

receive-send_example :
    receive (request 11 0 0) (bytes (send (message_size ∷ []) (request b'P' 6 1)) ∷ [])
    ≡ some (request b'P' 6 1)
receive-send_example =
    receive-send (request b'P' 6 1) (request 11 0 0) request-IsEncodable
      (length-replicate {A = ℕ} 512 0)
