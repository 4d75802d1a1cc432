-- ===== src/Response/Stream.antt =====
-- `SizeCappedStream` of src/response_controls.rs: the adapter as a record, one poll as a function.
-- The inner stream is the list of the polls that it will answer, and has ended after them.
pub mod Laws
use agent_locksmith.Prelude.{
  ℕ, zero, suc, ◌+◌, ◌-◌, ◌^◌, min, Bool, true, false, Option, none, some, List, [], ◌∷◌, ◌++◌,
  length, take, leb, Result, ok, err, if◌then◌else◌,
}
use agent_locksmith.Text.{codes}
use agent_locksmith.Text.Utf8.{Bytes, as_bytes}

pub data Poll {ℓ} (A : Type ℓ) : Type ℓ where
  pending : Poll A
  ready : A → Poll A

abbrev pub u64_max : ℕ
u64_max = 2 ^ 64 - 1

-- `u64::saturating_add`
abbrev pub saturating_add : ℕ → ℕ → ℕ
saturating_add a b = min (a + b) u64_max

-- `STREAM_TRUNCATION_MARKER`
pub truncation_marker : Bytes
truncation_marker = as_bytes (codes "\n{\"_locksmith\":\"response_size_exceeded\"}\n")

module _ (E : Type 0) where
  abbrev pub Item : Type 0
  Item = Result Bytes E

  -- `on_truncate` is the callback while it has not been taken; `fired` has what it was called with.
  pub record CappedStream : Type 0 where
    pub inner : List (Poll Item)
    pub cap : Option ℕ
    pub seen : ℕ
    pub truncated : Bool
    pub pending_marker : Option Bytes
    pub on_truncate : Bool
    pub fired : List ℕ

  unfoldable pub new : List (Poll Item) → Option ℕ → CappedStream
  new inner cap = record {
    inner = inner;
    cap = cap;
    seen = 0;
    truncated = false;
    pending_marker = none;
    on_truncate = true;
    fired = [];
  }

  -- one poll of the inner stream
  poll_inner : List (Poll Item) → Poll (Option Item) × List (Poll Item)
  poll_inner [] = (ready none, [])
  poll_inner (pending ∷ rest) = (pending, rest)
  poll_inner (ready item ∷ rest) = (ready (some item), rest)

  fire_truncation : CappedStream → Bytes → Bytes × CappedStream
  unfolding truncation_marker
  fire_truncation s prefix = (
    prefix,
    record s {
      truncated = true;
      on_truncate = false;
      fired = if s.on_truncate then s.fired ++ s.seen ∷ [] else s.fired;
      pending_marker = some truncation_marker;
    },
  )

  -- a chunk under the cap `cap`
  accept_chunk : ℕ → CappedStream → Bytes → Poll (Option Item) × CappedStream
  unfolding fire_truncation
  accept_chunk cap s chunk =
      let new_total : ℕ = saturating_add s.seen (length chunk) in
      if leb new_total cap
      then (ready (some (ok chunk)), record s { seen = new_total })
      else let prefix : Bytes = take (cap - s.seen) chunk in
        let (yielded, t) = fire_truncation (record s { seen = cap }) prefix in
        (ready (some (ok yielded)), t)

  -- what the inner stream answered, under the cap
  under_cap : ℕ → CappedStream → Poll (Option Item) → Poll (Option Item) × CappedStream
  unfolding accept_chunk
  under_cap cap s pending = (pending, s)
  under_cap cap s (ready none) = (ready none, s)
  under_cap cap s (ready (some (err e))) = (ready (some (err e)), s)
  under_cap cap s (ready (some (ok chunk))) = accept_chunk cap s chunk

  poll_live : CappedStream → Option ℕ → Poll (Option Item) × CappedStream
  unfolding poll_inner under_cap
  poll_live s none = let (answer, rest) = poll_inner s.inner in (answer, record s { inner = rest })
  poll_live s (some cap) =
      let (answer, rest) = poll_inner s.inner in under_cap cap (record s { inner = rest }) answer

  poll_marked : CappedStream → Option Bytes → Poll (Option Item) × CappedStream
  unfolding poll_live
  poll_marked s (some m) = (ready (some (ok m)), record s { pending_marker = none })
  poll_marked s none = if s.truncated then (ready none, s) else poll_live s s.cap

  pub poll_next : CappedStream → Poll (Option Item) × CappedStream
  unfolding poll_marked
  poll_next s = poll_marked s s.pending_marker

  -- Polling until the stream has ended, at most as often as the fuel says: the bytes that the agent
  -- received, whether the end was reached, and the adapter.
  abbrev pub received : Poll (Option Item) → Bytes
  received pending = []
  received (ready none) = []
  received (ready (some (err e))) = []
  received (ready (some (ok chunk))) = chunk

  -- the outcome of one poll, before what the later ones give
  abbrev pub after :
      Poll (Option Item) → CappedStream → Bytes × Bool × CappedStream → Bytes × Bool × CappedStream
  after (ready none) s later = ([], true, s)
  after answer s (bytes, done, t) = (received answer ++ bytes, done, t)

  pub drain : ℕ → CappedStream → Bytes × Bool × CappedStream
  drain zero s = ([], false, s)
  drain (suc fuel) s =
      let later = drain fuel (poll_next s).1 in after (poll_next s).0 (poll_next s).1 later

  -- The bytes that the inner stream offers.
  abbrev pub offered : List (Poll Item) → Bytes
  offered [] = []
  offered (pending ∷ rest) = offered rest
  offered (ready (err e) ∷ rest) = offered rest
  offered (ready (ok chunk) ∷ rest) = chunk ++ offered rest
