-- ===== src/Worker/Feed/Delivered.antt =====
-- crates/frances-worker-protocol/src/feed.rs: each feed gets its own messages, in order, up to its end.
use frances.Prelude.{
  ℕ, zero, suc, ◌≡◌, refl, sym, subst, ap, ap₂, ◌∙◌, inl, inr, List, [], ◌∷◌, Option, none, some,
  ◌++◌, append_assoc, append-nil, Bool, true, false, if◌then◌else◌, ◌==◌, ◌&&◌, ◌||◌, not,
  eq_of_test, Bool-cases, Result, ok, err, panic, arith,
}
use frances.Text.{Text}
use frances.Json.{Value}
use frances.Worker.Frame.Connection.{RawMessage}
use frances.Worker.Feed.{
  Feeds, holds, without, Kind, other, cancel, carries, kind_of, route_kind, sent, room_after,
  sent_last, Connected, go_on, route_feed, run_reader,
}

-- What a message of this kind brings to a feed, and whether it is the feed's last.
unfoldable pub brings : ℕ → RawMessage → Kind → List RawMessage
brings id raw other = []
brings id raw (cancel i) = []
brings id raw (carries i ends) = if i == id then raw ∷ [] else []

unfoldable pub ends_feed : ℕ → Kind → Bool
ends_feed id other = false
ends_feed id (cancel i) = false
ends_feed id (carries i ends) = i == id && ends

-- A message reaches a feed that is registered and whose receiver lives.
abbrev pub is_reached : Feeds → ℕ → Bool
is_reached s id = holds s.registered id && s.alive id

-- The caller's receiver takes one message that is no feed's, or it is gone and the connection ends.
unfoldable pub room_for : ℕ → Kind → Option ℕ
room_for zero other = none
room_for (suc room) other = some room
room_for room (cancel i) = some room
room_for room (carries i ends) = some room

abbrev pub while_room : (ℕ → List RawMessage) → Option ℕ → List RawMessage
while_room later (some room) = later room
while_room later none = []

module _ (parse : List ℕ → Result Text Value) where
  -- The messages of a feed among those of a connection: up to the feed's end, to the message that
  -- cannot be parsed, or to the one that is no feed's and finds the caller's receiver gone.
  unfoldable pub messages_of : ℕ → ℕ → List RawMessage → List RawMessage
  unfolding brings ends_feed room_for
  messages_of id room [] = []
  messages_of id room (raw ∷ raws) = elim (parse raw.json) [
    | ok value ↦
        let later = while_room (λ n. messages_of id n raws) (room_for room (kind_of value)) in
        brings id raw (kind_of value) ++ (if ends_feed id (kind_of value) then [] else later)
    | err e ↦ []
    | panic ↦ []
  ]

holds-without : (ids : List ℕ) (id : ℕ) → holds (without ids id) id ≡ false
unfolding holds without
holds-without [] id = refl
holds-without (i ∷ ids) id = elim (Bool-cases (i == id)) [
  | inl e ↦ rw e (holds-without ids id)
  | inr e ↦ rw (e, e) (holds-without ids id)
]

holds-other : (ids : List ℕ) (i id : ℕ) → i == id ≡ false → holds (without ids i) id ≡ holds ids id
unfolding holds without
holds-other [] i id n = refl
holds-other (j ∷ ids) i id n = elim (Bool-cases (j == i)) [
  | inl e ↦
      let not_id : j == id ≡ false = rw (eq_of_test j i e) n in
      rw (e, not_id) (holds-other ids i id n)
  | inr e ↦ rw e (ap (λ b. j == id || b) (holds-other ids i id n))
]

same : (id : ℕ) → id == id ≡ true
same id = ground arith

flip : (i id : ℕ) → i == id ≡ false → id == i ≡ false
flip i id n = ground arith

append-if_nil {ℓ} : {A : Type ℓ} → (b : Bool) (xs : List A) → xs ++ (if b then [] else []) ≡ xs
append-if_nil true xs = append-nil xs
append-if_nil false xs = append-nil xs

regroup {ℓ} :
    {A : Type ℓ}
    → (reached ends : Bool) (xs ys zs : List A)
    → (xs ++ (if reached then ys else [])) ++ (if reached && not ends then zs else [])
      ≡ xs ++ (if reached then ys ++ (if ends then [] else zs) else [])
regroup false ends xs ys zs = append-nil (xs ++ [])
regroup true true xs ys zs = append_assoc xs ys []
regroup true false xs ys zs = append_assoc xs ys zs

-- One message: what it brings is put to the feed if that is reached, and the last one closes it.
abbrev IsStep : Kind → RawMessage → Feeds → ℕ → Type 0
IsStep k raw s id =
    ((route_kind k raw s).1.delivered id
      ≡ s.delivered id ++ (if is_reached s id then brings id raw k else []))
    × (is_reached (route_kind k raw s).1 id ≡ is_reached s id && not (ends_feed id k))

carries-IsStep :
    (ends : Bool) (raw : RawMessage) (s : Feeds) (id : ℕ) → IsStep (carries id ends) raw s id
unfolding route_kind brings ends_feed
carries-IsStep ends raw s id = elim (Bool-cases (holds s.registered id)) [
  | inl h ↦ elim (Bool-cases (s.alive id)) [
    | inl a ↦ elim (Bool-cases ends) [
      | inl e ↦ rw (h, a, e, same id, holds-without s.registered id) (refl, refl)
      | inr e ↦ rw (h, a, e, same id) (refl, rw (h, a) refl)
    ]
    | inr a ↦ rw (h, a, holds-without s.registered id) (sym (append-nil (s.delivered id)), refl)
  ]
  | inr h ↦ rw h (sym (append-nil (s.delivered id)), rw h refl)
]

other-IsStep :
    (i : ℕ) (ends : Bool) (raw : RawMessage) (s : Feeds) (id : ℕ)
    → i == id ≡ false
    → IsStep (carries i ends) raw s id
unfolding route_kind brings ends_feed
other-IsStep i ends raw s id n =
    let closes : holds (without s.registered i) id && s.alive id ≡ is_reached s id && true =
      rw (holds-other s.registered i id n) (ground arith) in
    elim (Bool-cases (holds s.registered i)) [
      | inl h ↦ elim (Bool-cases (s.alive i)) [
        | inl a ↦ elim (Bool-cases ends) [
          | inl e ↦
              rw (h, a, e, n, flip i id n)
                (sym (append-if_nil (is_reached s id) (s.delivered id)), closes)
          | inr e ↦
              rw (h, a, e, n, flip i id n)
                (sym (append-if_nil (is_reached s id) (s.delivered id)), ground arith)
        ]
        | inr a ↦ rw (h, a, n) (sym (append-if_nil (is_reached s id) (s.delivered id)), closes)
      ]
      | inr h ↦ rw (h, n) (sym (append-if_nil (is_reached s id) (s.delivered id)), ground arith)
    ]

delivered-route_kind : (k : Kind) (raw : RawMessage) (s : Feeds) (id : ℕ) → IsStep k raw s id
unfolding route_kind brings ends_feed
delivered-route_kind other raw s id =
    (sym (append-if_nil (is_reached s id) (s.delivered id)), ground arith)
delivered-route_kind (cancel i) raw s id = elim (Bool-cases (holds s.outbound i)) [
  | inl e ↦ rw e (sym (append-if_nil (is_reached s id) (s.delivered id)), ground arith)
  | inr e ↦ rw e (sym (append-if_nil (is_reached s id) (s.delivered id)), ground arith)
]
delivered-route_kind (carries i ends) raw s id = elim (Bool-cases (i == id)) [
  | inl e ↦
      subst (λ x. IsStep (carries x ends) raw s id) (sym (eq_of_test i id e))
        (carries-IsStep ends raw s id)
  | inr e ↦ other-IsStep i ends raw s id e
]

room_after-route_kind :
    (k : Kind) (raw : RawMessage) (s : Feeds) (room : ℕ)
    → room_after room (route_kind k raw s).0 ≡ room_for room k
unfolding route_kind room_for
room_after-route_kind other raw s zero = refl
room_after-route_kind other raw s (suc room) = refl
room_after-route_kind (cancel i) raw s room = elim (Bool-cases (holds s.outbound i)) [
  | inl e ↦ rw e refl
  | inr e ↦ rw e refl
]
room_after-route_kind (carries i ends) raw s room = elim (Bool-cases (holds s.registered i)) [
  | inl h ↦ elim (Bool-cases (s.alive i)) [ inl a ↦ rw (h, a) refl | inr a ↦ rw (h, a) refl ]
  | inr h ↦ rw h refl
]

module _ (parse : List ℕ → Result Text Value) where
  abbrev IsDelivered : ℕ → List RawMessage → Feeds → ℕ → Type 0
  IsDelivered room raws s id =
      (run_reader parse room raws s).1.delivered id
      ≡ s.delivered id ++ (if is_reached s id then messages_of parse id room raws else [])

  -- What a connection does after a message.
  abbrev onward : ℕ → List RawMessage → Result Text (Option RawMessage) × Feeds → Feeds
  onward room raws p =
      (elim p.0 as (λ r. Connected) [
        | ok left ↦
            go_on (λ n. run_reader parse n raws p.1) (sent room left) p.1 (room_after room left)
        | err x ↦ (sent_last room (err x), p.1)
        | panic ↦ (sent_last room panic, p.1)
      ]).1

  go_on-IsDelivered :
      (raws : List RawMessage) (t : Feeds) (id : ℕ) (out : List (Result Text RawMessage))
      (o : Option ℕ)
      → ((n : ℕ) → IsDelivered n raws t id)
      → (go_on (λ n. run_reader parse n raws t) out t o).1.delivered id
        ≡ t.delivered id
          ++ (if is_reached t id then while_room (λ n. messages_of parse id n raws) o else [])
  go_on-IsDelivered raws t id out none later =
      sym (append-if_nil (is_reached t id) (t.delivered id))
  go_on-IsDelivered raws t id out (some n) later = later n

  IsDelivered-first :
      (room : ℕ) (raw : RawMessage) (raws : List RawMessage) (s : Feeds) (id : ℕ)
      → ((t : Feeds) (n : ℕ) → IsDelivered n raws t id)
      → (r : Result Text Value) → parse raw.json ≡ r
      → IsDelivered room (raw ∷ raws) s id
  unfolding run_reader route_feed messages_of
  IsDelivered-first room raw raws s id later (ok value) e =
      let k = kind_of value in
      let t = (route_kind k raw s).1 in
      let mine = while_room (λ n. messages_of parse id n raws) (room_for room k) in
      let (had, left) = delivered-route_kind k raw s id in
      let step : route_feed parse raw s ≡ (ok (route_kind k raw s).0, t) =
        rw (route_feed, e) refl in
      let out = sent room (route_kind k raw s).0 in
      let run : (run_reader parse room (raw ∷ raws) s).1
          ≡ (go_on (λ n. run_reader parse n raws t) out t (room_for room k)).1 =
        ap (onward room raws) step
        ∙ ap (λ o. (go_on (λ n. run_reader parse n raws t) out t o).1)
            (room_after-route_kind k raw s room) in
      rw (run, messages_of, e)
        (go_on-IsDelivered raws t id out (room_for room k) (later t)
          ∙ ap₂ (λ xs b. xs ++ (if b then mine else [])) had left
          ∙ regroup (is_reached s id) (ends_feed id k) (s.delivered id) (brings id raw k) mine)
  IsDelivered-first room raw raws s id later (err x) e =
      let step : route_feed parse raw s ≡ (err x, s) = rw (route_feed, e) refl in
      let run : (run_reader parse room (raw ∷ raws) s).1 ≡ s = ap (onward room raws) step in
      rw (run, messages_of, e) (sym (append-if_nil (is_reached s id) (s.delivered id)))
  IsDelivered-first room raw raws s id later panic e =
      let step : route_feed parse raw s ≡ (panic, s) = rw (route_feed, e) refl in
      let run : (run_reader parse room (raw ∷ raws) s).1 ≡ s = ap (onward room raws) step in
      rw (run, messages_of, e) (sym (append-if_nil (is_reached s id) (s.delivered id)))

  -- For a caller that takes `room` messages before its receiver is gone: a feed that is registered and
  -- whose receiver lives gets, after what it has, exactly its own messages of the connection, in the
  -- connection's order, up to the one that ends it, to the first message of the connection that cannot be
  -- parsed, or to the first that is no feed's and that the caller does not take any more. Any other feed
  -- gets nothing.
  pub delivered-run_reader :
      (room : ℕ) (raws : List RawMessage) (s : Feeds) (id : ℕ)
      → (run_reader parse room raws s).1.delivered id
        ≡ s.delivered id ++ (if is_reached s id then messages_of parse id room raws else [])
  unfolding run_reader messages_of
  delivered-run_reader room [] s id = sym (append-if_nil (is_reached s id) (s.delivered id))
  delivered-run_reader room (raw ∷ raws) s id =
      IsDelivered-first room raw raws s id (λ t n. delivered-run_reader n raws t id)
        (parse raw.json) refl
