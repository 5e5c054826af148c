-- ===== src/Worker/Frame/Tests.antt =====
-- A message with an attachment on its way through the stream.
use frances.Prelude.{◌≡◌, refl, [], ◌∷◌, ◌++◌, some, ok, arith}
use frances.Text.{codes, as_bytes}
use frances.Worker.Frame.{header_text, read_header}
use frances.Worker.Frame.Headers.{read_header-header_text}
use frances.Worker.Frame.Values.{every-IsPrintable}
use frances.Worker.Frame.Connection.{Encoded, send_encoded, receive_raw}
use frances.Worker.Frame.Messages.{message_bytes, receive_raw-send_encoded}

abbrev message : Encoded
message = record { json = codes "{}"; pending = (3, 1 ∷ 2 ∷ []) ∷ [] }

receive_raw-send_encoded_example :
    (send_encoded message [] ≡ (ok tt, message_bytes message))
    × (receive_raw (record { stream = message_bytes message ++ codes "more"; received = [] }) ≡ (
      ok (some (record { json = codes "{}"; attachments = (3, 1 ∷ 2 ∷ []) ∷ [] })),
      record { stream = codes "more"; received = [] },
    ))
receive_raw-send_encoded_example =
    receive_raw-send_encoded message (codes "more")
      (omega arith, omega arith, omega arith, refl, tt) (omega arith)

read_header-header_text_example :
    read_header (as_bytes (header_text (codes "text/plain") (some 7) 120) ++ codes "body") ≡ (
      ok (
          some (record {
            content_length = 120;
            content_type = codes "text/plain";
            content_id = some 7;
          })),
      codes "body",
    )
read_header-header_text_example =
    read_header-header_text (codes "text/plain") (some 7) 120 (codes "body")
      (every-IsPrintable (codes "text/plain") refl, (0x74, codes "ext/plain", refl)) (omega arith)
      (omega arith) (omega arith)
