-- ===== src/Worker/Frame/Messages.antt =====
-- crates/frances-worker-protocol/src/frame.rs: a message that was sent is received.
use frances.Prelude.{
  ℕ, zero, suc, ◌+◌, ◌^◌, ◌≤◌, ◌<◌, ◌≡◌, refl, sym, ap, ◌∙◌, List, [], ◌∷◌, ◌++◌, append_assoc,
  append-nil, Option, none, some, true, false, eq_list, ◌==◌, ltb, leb, length, length-append,
  take-append, drop-append, ok, arith,
}
use frances.Prelude.Action.{◌>>=◌, ◌>>◌}
use frances.Text.{Text, as_bytes}
use frances.Worker.Frame.{
  header_text, max_json_bytes, max_attachment_bytes, max_unclaimed_attachments,
}
use frances.Worker.Frame.Headers.{IsSmall, read_header-header_text}
use frances.Worker.Frame.Values.{IsValue, every-IsPrintable}
use frances.Worker.Frame.Connection.{
  Encoded, octet_stream, json_type, write_all, write_header, send_content, send_pending,
  send_encoded, contains_key, next_header, read_exact, copy_limited, check_content, receive_content,
  receive_json, receive_frame, receive_on, receive_raw,
}

abbrev frame_bytes : Text → Option ℕ → List ℕ → List ℕ
frame_bytes ty id content = as_bytes (header_text ty id (length content)) ++ content

abbrev pending_bytes : List (ℕ × List ℕ) → List ℕ
pending_bytes [] = []
pending_bytes ((id, content) ∷ pending) =
    frame_bytes octet_stream (some id) content ++ pending_bytes pending

-- The bytes of a message on the stream.
abbrev pub message_bytes : Encoded → List ℕ
message_bytes message = pending_bytes message.pending ++ frame_bytes json_type none message.json

-- What the receiver allows for, with the attachments that it holds already.
abbrev pub AreAllowed : List (ℕ × List ℕ) → List (ℕ × List ℕ) → Type 0
AreAllowed received [] = Unit {0}
AreAllowed received ((id, content) ∷ pending) =
    (id < 2 ^ 64)
    × (length content ≤ max_attachment_bytes)
    × (length received < max_unclaimed_attachments)
    × (contains_key received id ≡ false)
    × AreAllowed (received ++ (id, content) ∷ []) pending

not_less : (a b : ℕ) → a ≤ b → ltb b a ≡ false
not_less a b l = ground arith

not_reached : (a b : ℕ) → a < b → leb b a ≡ false
not_reached a b l = ground arith

same_length : (n : ℕ) → n == n ≡ true
same_length n = ground arith

regroup : {A : Type 0} (a b c d : List A) → a ++ b ++ c ++ d ≡ a ++ (b ++ c ++ d)
regroup a b c d = simp append_assoc

send_pending-sent :
    (received pending : List (ℕ × List ℕ)) (stream : List ℕ)
    → AreAllowed received pending
    → send_pending pending stream ≡ (ok tt, stream ++ pending_bytes pending)
unfolding send_pending send_content write_header write_all ◌>>=◌ ◌>>◌
send_pending-sent received [] stream a = ap (λ z. (ok tt, z)) (sym (append-nil stream))
send_pending-sent received ((id, content) ∷ pending) stream a =
    rw (not_less (length content) max_attachment_bytes a.1) (
      send_pending-sent (received ++ (id, content) ∷ []) pending
        (stream ++ as_bytes (header_text octet_stream (some id) (length content)) ++ content) a.4
      ∙ ap (λ z. (ok tt, z))
          (regroup stream (as_bytes (header_text octet_stream (some id) (length content))) content
            (pending_bytes pending)))

enough : (xs ys : List ℕ) → ltb (length (xs ++ ys)) (length xs) ≡ false
enough xs ys = rw (length-append xs ys) (not_less (length xs) (length xs + length ys) (omega arith))

octet_stream-IsValue : IsValue octet_stream
octet_stream-IsValue = (every-IsPrintable octet_stream refl, (_, _, refl))

json_type-IsValue : IsValue json_type
json_type-IsValue = (every-IsPrintable json_type refl, (_, _, refl))

-- A header is taken from the stream.
next_header-read :
    (ty : Text) (id : Option ℕ) (content more : List ℕ) (received : List (ℕ × List ℕ))
    → IsValue ty
    → length ty ≤ 1000
    → length content < 2 ^ 64
    → IsSmall id
    → next_header (record { stream = frame_bytes ty id content ++ more; received = received }) ≡ (
      ok (some (record { content_length = length content; content_type = ty; content_id = id })),
      record { stream = content ++ more; received = received },
    )
unfolding next_header
next_header-read ty id content more received v l size small =
    let header = as_bytes (header_text ty id (length content)) in
    rw
      (
        append_assoc header content more,
        read_header-header_text ty id (length content) (content ++ more) v l size small,
      )
      refl

receive_content-received :
    (id : ℕ) (content more : List ℕ) (received : List (ℕ × List ℕ))
    → length content ≤ max_attachment_bytes
    → length received < max_unclaimed_attachments
    → contains_key received id ≡ false
    → receive_content
        (record {
          content_length = length content;
          content_type = octet_stream;
          content_id = some id;
        })
        (record { stream = content ++ more; received = received })
      ≡ (ok tt, record { stream = more; received = received ++ (id, content) ∷ [] })
unfolding receive_content check_content copy_limited ◌>>=◌ ◌>>◌
receive_content-received id content more received l r c =
    rw
      (
        not_less (length content) max_attachment_bytes l,
        not_reached (length received) max_unclaimed_attachments r,
        c,
        take-append content more,
        same_length (length content),
        drop-append content more,
      )
      refl

-- An attachment is put to those that were received.
receive_on-content :
    (fuel id : ℕ) (content more : List ℕ) (received : List (ℕ × List ℕ))
    → id < 2 ^ 64
    → length content ≤ max_attachment_bytes
    → length received < max_unclaimed_attachments
    → contains_key received id ≡ false
    → receive_on (suc fuel) (record {
      stream = frame_bytes octet_stream (some id) content ++ more;
      received = received;
    })
      ≡ receive_on fuel (record { stream = more; received = received ++ (id, content) ∷ [] })
unfolding receive_on receive_frame ◌>>=◌ ◌>>◌ eq_list
receive_on-content fuel id content more received s l r c =
    rw
      (
        next_header-read octet_stream (some id) content more received octet_stream-IsValue
            (omega arith) (omega (arith, l)) s,
        receive_content-received id content more received l r c,
      )
      refl

receive_on-json :
    (fuel : ℕ) (json more : List ℕ) (received : List (ℕ × List ℕ))
    → length json ≤ max_json_bytes
    → receive_on
        (suc fuel)
        (record { stream = frame_bytes json_type none json ++ more; received = received })
      ≡ (
        ok (some (record { json = json; attachments = received })),
        record { stream = more; received = [] },
      )
unfolding receive_on receive_frame receive_json read_exact ◌>>=◌ ◌>>◌ eq_list
receive_on-json fuel json more received l =
    rw
      (
        next_header-read json_type none json more received json_type-IsValue (omega arith)
            (omega (arith, l)) tt,
        not_less (length json) max_json_bytes l,
        enough json more,
        take-append json more,
        drop-append json more,
      )
      refl

receive_on-message :
    (fuel : ℕ) (received pending : List (ℕ × List ℕ)) (json more : List ℕ)
    → AreAllowed received pending
    → length json ≤ max_json_bytes
    → length pending < fuel
    → receive_on fuel (record {
      stream = pending_bytes pending ++ frame_bytes json_type none json ++ more;
      received = received;
    })
      ≡ (
        ok (some (record { json = json; attachments = received ++ pending })),
        record { stream = more; received = [] },
      )
receive_on-message zero received pending json more a l f = absurd (omega (arith, f))
receive_on-message (suc fuel) received [] json more a l f =
    receive_on-json fuel json more received l
    ∙ ap
        (λ z. (
          ok (some (record { json = json; attachments = z })),
          record { stream = more; received = [] },
        ))
        (sym (append-nil received))
receive_on-message (suc fuel) received ((id, content) ∷ pending) json more a l f =
    let rest = pending_bytes pending ++ frame_bytes json_type none json ++ more in
    ap (λ z. receive_on (suc fuel) (record { stream = z; received = received }))
      (regroup (frame_bytes octet_stream (some id) content) (pending_bytes pending)
        (frame_bytes json_type none json) more)
    ∙ receive_on-content fuel id content rest received a.0 a.1 a.2 a.3
    ∙ receive_on-message fuel (received ++ (id, content) ∷ []) pending json more a.4 l
        (omega (arith, f))
    ∙ ap
        (λ z. (
          ok (some (record { json = json; attachments = z })),
          record { stream = more; received = [] },
        ))
        (append_assoc received ((id, content) ∷ []) pending)

AreAllowed-length :
    (received pending : List (ℕ × List ℕ))
    → AreAllowed received pending
    → length received ≤ max_unclaimed_attachments
    → length received + length pending ≤ max_unclaimed_attachments
AreAllowed-length received [] a l = omega (arith, l)
AreAllowed-length received ((id, content) ∷ pending) a l =
    let one_more = length-append received ((id, content) ∷ []) in
    omega (
      arith,
      one_more,
      AreAllowed-length (received ++ (id, content) ∷ []) pending a.4 (omega (arith, one_more, a.2)),
    )

-- A message whose attachments are 16 at most, each of 256 MiB at most and with an identifier of its
-- own, and whose JSON has 8 MiB at most: it is sent without an error, and a receiver without
-- unclaimed attachments receives from these bytes the JSON and the attachments with their
-- identifiers, in order. It stops behind the message, whatever follows, and is ready for the next.
pub receive_raw-send_encoded :
    (message : Encoded) (more : List ℕ)
    → AreAllowed [] message.pending
    → length message.json ≤ max_json_bytes
    → (send_encoded message [] ≡ (ok tt, message_bytes message))
      × (receive_raw (record { stream = message_bytes message ++ more; received = [] }) ≡ (
        ok (some (record { json = message.json; attachments = message.pending })),
        record { stream = more; received = [] },
      ))
unfolding send_encoded write_header write_all receive_raw ◌>>=◌ ◌>>◌
receive_raw-send_encoded message more a l = (
  rw (send_pending-sent [] message.pending [] a) (
      ap (λ z. (ok tt, z))
        (append_assoc (pending_bytes message.pending)
          (as_bytes (header_text json_type none (length message.json))) message.json)),
  receive_on-message (suc (suc max_unclaimed_attachments)) [] message.pending message.json more a l
      (omega (arith, AreAllowed-length [] message.pending a (omega arith))),
)
