-- ===== src/Worker/Feed.antt =====
-- crates/frances-worker-protocol/src/feed.rs: messages on their way to the feeds that they belong to.
pub mod Delivered
mod Tests
use frances.Prelude.{
  ℕ, zero, suc, List, [], ◌∷◌, ◌++◌, Option, none, some, Bool, true, false, if◌then◌else◌, ◌==◌,
  ◌&&◌, ◌||◌, not, Result, ok, err, panic,
}
use frances.Text.{Text, codes}
use frances.Json.{Value, get_value, as_u64}
use frances.Worker.Frame.Connection.{RawMessage}

-- The registries and what they lead to: the inbound feeds that are registered, those whose receiver
-- lives and what was put to each receiver, and the outbound feeds that run and that were aborted.
pub record Feeds : Type 0 where
  pub registered : List ℕ
  pub alive : ℕ → Bool
  pub delivered : ℕ → List RawMessage
  pub outbound : List ℕ
  pub aborted : List ℕ

unfoldable pub holds : List ℕ → ℕ → Bool
holds [] id = false
holds (i ∷ ids) id = i == id || holds ids id

unfoldable pub without : List ℕ → ℕ → List ℕ
without [] id = []
without (i ∷ ids) id = let rest = without ids id in if i == id then rest else i ∷ rest

abbrev pub is_some : Option Value → Bool
is_some none = false
is_some (some v) = true

-- `{"feed": id, "cancel": …}`, an item or the end of a feed, or anything else.
pub data Kind : Type 0 where
  other : Kind
  cancel : ℕ → Kind
  carries : ℕ → Bool → Kind

abbrev kind_for : Option ℕ → Bool → Bool → Bool → Kind
kind_for none cancelled item ends = other
kind_for (some id) cancelled item ends =
    if cancelled then cancel id else if not item && not ends then other else carries id ends

unfoldable pub kind_of : Value → Kind
unfolding get_value
kind_of value =
    kind_for (as_u64 (get_value value (codes "feed"))) (is_some (get_value value (codes "cancel")))
      (is_some (get_value value (codes "item"))) (is_some (get_value value (codes "end")))

abbrev unregister : ℕ → Feeds → Feeds
unregister id s = record s { registered = without s.registered id }

abbrev put : ℕ → RawMessage → Feeds → Feeds
put id raw s = record s {
  delivered = λ i. if i == id then s.delivered i ++ raw ∷ [] else s.delivered i;
}

-- By kind: the message that is left for the caller, if it is no feed's.
unfoldable pub route_kind : Kind → RawMessage → Feeds → Option RawMessage × Feeds
unfolding holds without
route_kind other raw s = (some raw, s)
route_kind (cancel id) raw s =
    if holds s.outbound id
    then (none, record s { outbound = without s.outbound id; aborted = s.aborted ++ id ∷ [] })
    else (none, s)
route_kind (carries id ends) raw s =
    if not (holds s.registered id)
    then (none, s)
    else if not (s.alive id)
    then (none, unregister id s)
    else (none, if ends then unregister id (put id raw s) else put id raw s)

-- `messages.send` of a message that is left for the caller, whose receiver is gone when it has taken
-- `room` more: what it gets, and how many it takes then, if there is no return.
abbrev pub sent : ℕ → Option RawMessage → List (Result Text RawMessage)
sent room none = []
sent zero (some raw) = []
sent (suc room) (some raw) = ok raw ∷ []

abbrev pub room_after : ℕ → Option RawMessage → Option ℕ
room_after room none = some room
room_after zero (some raw) = none
room_after (suc room) (some raw) = some room

abbrev pub sent_last : ℕ → Result Text RawMessage → List (Result Text RawMessage)
sent_last zero failure = []
sent_last (suc room) failure = failure ∷ []

abbrev pub Connected : Type 0
Connected = List (Result Text RawMessage) × Feeds

-- The next turn of the loop, or the return.
abbrev pub go_on : (ℕ → Connected) → List (Result Text RawMessage) → Feeds → Option ℕ → Connected
go_on next out t (some room) = let (later, u) = next room in (out ++ later, u)
go_on next out t none = (out, t)

-- `parse` is `serde_json::from_slice`, with the message of its error.
module _ (parse : List ℕ → Result Text Value) where
  unfoldable pub route_feed : RawMessage → Feeds → Result Text (Option RawMessage) × Feeds
  unfolding route_kind kind_of
  route_feed raw s = elim (parse raw.json) [
    | ok value ↦ let (left, t) = route_kind (kind_of value) raw s in (ok left, t)
    | err e ↦ (err e, s)
    | panic ↦ (panic, s)
  ]

  -- The messages of a connection, one after the other. The caller is sent the messages that are no
  -- feed's, and the error that ends the connection.
  unfoldable pub run_reader : ℕ → List RawMessage → Feeds → Connected
  unfolding route_feed
  run_reader room [] s = ([], s)
  run_reader room (raw ∷ raws) s =
      let (result, t) = route_feed raw s in
      elim result [
        | ok left ↦ go_on (λ n. run_reader n raws t) (sent room left) t (room_after room left)
        | err e ↦ (sent_last room (err e), t)
        | panic ↦ (sent_last room panic, t)
      ]
