-- ===== src/Worker/Frame.antt =====
-- crates/frances-worker-protocol/src/frame.rs: the frames of messages and their attachments.
pub mod Connection
mod Lines
mod Split
mod Values
pub mod Headers
pub mod Messages
pub mod Tests
use frances.Prelude.{
  ℕ, suc, ◌+◌, ◌-◌, ◌*◌, List, [], ◌∷◌, ◌++◌, Option, none, some, Bool, true, false, if◌then◌else◌,
  ltb, leb, ◌==◌, ◌&&◌, eq_list, map, Result, ok, err, panic, ◌>>=◌, ◌>>◌, ok_or,
}
use mathlib.Core.List.{reverse}
use frances.Text.{Text, codes, is_empty, trim, trim_end, split_once}
use frances.Text.Decimal.{decimal, parse_u64}
use frances.Text.Utf8.{from_utf8}

abbrev pub max_header_bytes : ℕ
max_header_bytes = 8 * 1024

abbrev pub max_json_bytes : ℕ
max_json_bytes = 8 * 1024 * 1024

abbrev pub max_attachment_bytes : ℕ
max_attachment_bytes = 256 * 1024 * 1024

abbrev pub max_unclaimed_attachments : ℕ
max_unclaimed_attachments = 16

-- The end of the stream in the middle, and a constructor for each message of `InvalidFrame`.
pub data ProtocolError : Type 0 where
  unexpected_eof header_too_large not_ascii invalid_content_length invalid_content_id :
      ProtocolError
  missing_content_length missing_content_type json_has_content_id json_too_large : ProtocolError
  no_content_id incoming_too_large outgoing_too_large too_many_unclaimed : ProtocolError
  malformed_line unknown_header unsupported_content_type : Text → ProtocolError
  duplicate_attachment : ℕ → ProtocolError
  ended_early : ℕ → ℕ → ℕ → ProtocolError

pub record Header : Type 0 where
  pub content_length : ℕ
  pub content_type : Text
  pub content_id : Option ℕ

abbrev pub crlf : Text
crlf = 0x0d ∷ 0x0a ∷ []

abbrev pub id_line : Option ℕ → Text
id_line none = []
id_line (some id) = codes "Content-Id: " ++ decimal id ++ crlf

-- The text that `write_header` sends.
unfoldable pub header_text : Text → Option ℕ → ℕ → Text
header_text content_type content_id content_length =
    codes "Content-Length: "
    ++ decimal content_length
    ++ crlf
    ++ codes "Content-Type: "
    ++ content_type
    ++ crlf
    ++ id_line content_id
    ++ crlf

-- `bytes.ends_with(b"\r\n\r\n")`, on the bytes with the last one first.
abbrev pub ends_header : List ℕ → Bool
ends_header (a ∷ b ∷ c ∷ d ∷ bytes) = a == 0x0a && b == 0x0d && c == 0x0a && d == 0x0d
ends_header bytes = false

-- The loop over the stream; `bytes` are those read so far, `size` of them, the last one first.
unfoldable pub read_header_bytes :
    ℕ → List ℕ → List ℕ → Result ProtocolError (Option (List ℕ)) × List ℕ
read_header_bytes size bytes [] = if is_empty bytes then (ok none, []) else (err unexpected_eof, [])
read_header_bytes size bytes (byte ∷ stream) =
    let rest = read_header_bytes (suc size) (byte ∷ bytes) stream in
    if ends_header (byte ∷ bytes)
    then (ok (some (reverse (byte ∷ bytes))), stream)
    else if ltb max_header_bytes (suc size)
    then (err header_too_large, stream)
    else rest

-- `split("\r\n")`: the first part, and the parts after it.
unfoldable pub crlf_parts : Text → Text × List Text
crlf_parts [] = ([], [])
crlf_parts (c ∷ []) = (c ∷ [], [])
crlf_parts (c ∷ d ∷ cs) =
    let (part, parts) = crlf_parts cs in
    let (longer, others) = crlf_parts (d ∷ cs) in
    if c == 0x0d && d == 0x0a then ([], part ∷ parts) else (c ∷ longer, others)

unfoldable pub split_crlf : Text → List Text
unfolding crlf_parts
split_crlf s = let (part, parts) = crlf_parts s in part ∷ parts

abbrev to_lower : ℕ → ℕ
to_lower c = if leb 0x41 c && leb c 0x5a then c + 0x20 else c

-- What the lines have said so far.
pub record Found : Type 0 where
  pub content_length : Option ℕ
  pub content_type : Option Text
  pub content_id : Option ℕ

abbrev set_found : Found → Text → Text → Result ProtocolError Found
set_found found name value =
    if eq_list name (codes "content-length")
    then ok_or (parse_u64 value) invalid_content_length
      >>= (λ n. ok (record found { content_length = some n }))
    else if eq_list name (codes "content-type")
    then ok (record found { content_type = some value })
    else if eq_list name (codes "content-id")
    then ok_or (parse_u64 value) invalid_content_id
      >>= (λ n. ok (record found { content_id = some n }))
    else err (unknown_header name)

unfoldable pub parse_line : Found → Text → Result ProtocolError Found
unfolding split_once
parse_line found line = ok_or (split_once 0x3a line) (malformed_line line) >>= λ parts.
    set_found found (map to_lower parts.0) (trim parts.1)

unfoldable pub parse_lines : Found → List Text → Result ProtocolError Found
unfolding parse_line
parse_lines found [] = ok found
parse_lines found (line ∷ lines) = do next ← parse_line found line; parse_lines next lines

unfoldable pub header_from : List Text → Result ProtocolError Header
unfolding parse_lines
header_from lines = do
  found ←
      parse_lines (record { content_length = none; content_type = none; content_id = none }) lines
  content_length ← ok_or found.content_length missing_content_length
  content_type ← ok_or found.content_type missing_content_type
  ok (record {
    content_length = content_length;
    content_type = content_type;
    content_id = found.content_id;
  })

-- The bytes of a header, parsed.
unfoldable pub parse_header : List ℕ → Result ProtocolError Header
parse_header bytes =
    ok_or (from_utf8 bytes) not_ascii >>= λ text. header_from (split_crlf (trim_end text))

abbrev parsed :
    Result ProtocolError (Option (List ℕ)) × List ℕ → Result ProtocolError (Option Header) × List ℕ
parsed (ok none, stream) = (ok none, stream)
parsed (ok (some bytes), stream) = (parse_header bytes >>= λ header. ok (some header), stream)
parsed (err e, stream) = (err e, stream)
parsed (panic, stream) = (panic, stream)

unfoldable pub read_header : List ℕ → Result ProtocolError (Option Header) × List ℕ
read_header stream = parsed (read_header_bytes 0 [] stream)
