-- ===== src/Worker/Frame/Connection.antt =====
-- crates/frances-worker-protocol/src/frame.rs: sending and receiving messages with attachments.
use frances.Prelude.{
  ℕ, zero, suc, List, [], ◌∷◌, ◌++◌, Option, none, some, Bool, true, false, if◌then◌else◌, ltb, leb,
  ◌==◌, ◌||◌, not, eq_list, length, take, drop, Result, ok, err, panic, fail_if, ok_or,
}
use frances.Prelude.Action.{Action, after, ◌>>=◌, ◌>>◌, return, lift, throw}
use frances.Text.{Text, codes, as_bytes}
use frances.Worker.Frame.{
  ProtocolError, unexpected_eof, json_has_content_id, json_too_large, no_content_id,
  incoming_too_large, outgoing_too_large, too_many_unclaimed, unsupported_content_type,
  duplicate_attachment, ended_early, Header, header_text, read_header, max_json_bytes,
  max_attachment_bytes, max_unclaimed_attachments,
}

-- A message and its attachments, each of which is the bytes that its reader gives.
pub record Encoded : Type 0 where
  pub json : List ℕ
  pub pending : List (ℕ × List ℕ)

pub record RawMessage : Type 0 where
  pub json : List ℕ
  pub attachments : List (ℕ × List ℕ)

abbrev pub octet_stream : Text
octet_stream = codes "application/octet-stream"

abbrev pub json_type : Text
json_type = codes "application/json"

-- The state of a sender are the bytes that it has written.
unfoldable pub write_all : List ℕ → Action ProtocolError (List ℕ) (Unit {0})
write_all bytes stream = (ok tt, stream ++ bytes)

unfoldable pub write_header : Text → Option ℕ → ℕ → Action ProtocolError (List ℕ) (Unit {0})
unfolding write_all
write_header content_type content_id content_length =
    write_all (as_bytes (header_text content_type content_id content_length))

-- The attachment is staged in a file first, which tells its length.
unfoldable pub send_content : ℕ → List ℕ → Action ProtocolError (List ℕ) (Unit {0})
unfolding write_header ◌>>=◌ ◌>>◌
send_content id source = do
  lift (fail_if (ltb max_attachment_bytes (length source)) outgoing_too_large)
  write_header octet_stream (some id) (length source)
  write_all source

unfoldable pub send_pending : List (ℕ × List ℕ) → Action ProtocolError (List ℕ) (Unit {0})
unfolding send_content ◌>>=◌ ◌>>◌
send_pending [] = return tt
send_pending ((id, source) ∷ pending) = send_content id source >> send_pending pending

unfoldable pub send_encoded : Encoded → Action ProtocolError (List ℕ) (Unit {0})
unfolding send_pending write_header ◌>>=◌ ◌>>◌
send_encoded encoded = do
  send_pending encoded.pending
  write_header json_type none (length encoded.json)
  write_all encoded.json

-- The state of a receiver: the bytes that are still to come, and the attachments of the next message.
pub record Receiver : Type 0 where
  pub stream : List ℕ
  pub received : List (ℕ × List ℕ)

abbrev pub contains_key : List (ℕ × List ℕ) → ℕ → Bool
contains_key [] id = false
contains_key ((i, content) ∷ received) id = i == id || contains_key received id

unfoldable pub next_header : Action ProtocolError Receiver (Option Header)
unfolding read_header
next_header r =
    let (header, stream) = read_header r.stream in (header, record r { stream = stream })

unfoldable pub read_exact : ℕ → Action ProtocolError Receiver (List ℕ)
read_exact n r =
    if ltb (length r.stream) n
    then (err unexpected_eof, record r { stream = [] })
    else (ok (take n r.stream), record r { stream = drop n r.stream })

-- `take(n)` and `copy`: as many bytes as there are, `n` at most.
unfoldable pub copy_limited : ℕ → Action ProtocolError Receiver (List ℕ)
copy_limited n r = (ok (take n r.stream), record r { stream = drop n r.stream })

abbrev insert_received : ℕ → List ℕ → Action ProtocolError Receiver (Unit {0})
insert_received id content r = (ok tt, record r { received = r.received ++ (id, content) ∷ [] })

unfoldable pub check_content : Header → ℕ → List (ℕ × List ℕ) → Result ProtocolError (Unit {0})
check_content header id received =
    if ltb max_attachment_bytes header.content_length
    then err incoming_too_large
    else if leb max_unclaimed_attachments (length received)
    then err too_many_unclaimed
    else if contains_key received id
    then err (duplicate_attachment id)
    else ok tt

unfoldable pub receive_content : Header → Action ProtocolError Receiver (Unit {0})
unfolding check_content copy_limited ◌>>=◌ ◌>>◌
receive_content header = do
  id ← lift (ok_or header.content_id no_content_id)
  (λ r. (check_content header id r.received, r))
  content ← copy_limited header.content_length
  lift (
      fail_if (not (length content == header.content_length))
        (ended_early id (length content) header.content_length))
  insert_received id content

abbrev has_id : Option ℕ → Bool
has_id none = false
has_id (some id) = true

abbrev deliver : List ℕ → Action ProtocolError Receiver (Option RawMessage)
deliver json r =
    (ok (some (record { json = json; attachments = r.received })), record r { received = [] })

unfoldable pub receive_json : Header → Action ProtocolError Receiver (Option RawMessage)
unfolding read_exact ◌>>=◌ ◌>>◌
receive_json header = do
  lift (fail_if (has_id header.content_id) json_has_content_id)
  lift (fail_if (ltb max_json_bytes header.content_length) json_too_large)
  json ← read_exact header.content_length
  deliver json

-- A frame, and what follows it when it was an attachment.
unfoldable pub receive_frame :
    Option Header
    → Action ProtocolError Receiver (Option RawMessage)
    → Action ProtocolError Receiver (Option RawMessage)
unfolding receive_content receive_json ◌>>=◌ ◌>>◌
receive_frame none next = return none
receive_frame (some header) next =
    if eq_list header.content_type octet_stream
    then receive_content header >> next
    else if eq_list header.content_type json_type
    then receive_json header
    else throw (unsupported_content_type header.content_type)

-- The loop, on fuel: each turn but the last receives an attachment, of which there are 16 at most.
unfoldable pub receive_on : ℕ → Action ProtocolError Receiver (Option RawMessage)
unfolding next_header receive_frame ◌>>=◌ ◌>>◌
receive_on zero r = (panic, r)
receive_on (suc fuel) r = after (next_header r) (λ header. receive_frame header (receive_on fuel))

unfoldable pub receive_raw : Action ProtocolError Receiver (Option RawMessage)
unfolding receive_on
receive_raw = receive_on (suc (suc max_unclaimed_attachments))
