-- ===== src/Worker/Feed/Tests.antt =====
-- Messages of two feeds on one connection.
use frances.Prelude.{
  ℕ, ◌≡◌, refl, List, [], ◌∷◌, some, true, if◌then◌else◌, ◌==◌, eq_list, Result, ok, err,
}
use frances.Text.{Text, codes}
use frances.Json.{Value, null, number, object, field, end}
use frances.Worker.Frame.Connection.{RawMessage}
use frances.Worker.Feed.{Feeds, holds, kind_of, run_reader}
use frances.Worker.Feed.Delivered.{messages_of, delivered-run_reader}

abbrev message : ℕ → RawMessage
message n = record { json = n ∷ []; attachments = [] }

abbrev of_kind : ℕ → Text → Value
of_kind id kind = object (field (codes "feed") (number (some id)) (field kind null end))

-- 1 and 3 are items of feed 7, 2 of feed 8; 4 ends feed 7 and 5 is no feed's; the rest are no JSON.
abbrev parse : List ℕ → Result Text Value
parse [] = err (codes "EOF")
parse (n ∷ ns) =
    if n == 1
    then ok (of_kind 7 (codes "item"))
    else if n == 2
    then ok (of_kind 8 (codes "item"))
    else if n == 3
    then ok (of_kind 7 (codes "item"))
    else if n == 4
    then ok (of_kind 7 (codes "end"))
    else if n == 5
    then ok null
    else err (codes "expected value")

abbrev feeds : Feeds
feeds = record {
  registered = 8 ∷ 7 ∷ [];
  alive = λ i. true;
  delivered = λ i. [];
  outbound = [];
  aborted = [];
}

abbrev messages : List RawMessage
messages = message 1 ∷ message 2 ∷ message 3 ∷ message 4 ∷ message 1 ∷ []

messages_left : (run_reader parse 0 messages feeds).1.registered ≡ 8 ∷ []
unfolding run_reader eq_list
messages_left = refl

delivered-run_reader_example :
    (run_reader parse 0 messages feeds).1.delivered 7 ≡ message 1 ∷ message 3 ∷ message 4 ∷ []
unfolding messages_of holds kind_of eq_list
delivered-run_reader_example = delivered-run_reader parse 0 messages feeds 7

-- A message that is no feed's, before another item: with the caller gone the item is not read.
abbrev and_other : List RawMessage
and_other = message 1 ∷ message 5 ∷ message 3 ∷ []

taken : (run_reader parse 1 and_other feeds).1.delivered 7 ≡ message 1 ∷ message 3 ∷ []
unfolding run_reader eq_list
taken = refl

gone : (run_reader parse 0 and_other feeds).1.delivered 7 ≡ message 1 ∷ []
unfolding run_reader eq_list
gone = refl
