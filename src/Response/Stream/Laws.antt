-- ===== src/Response/Stream/Laws.antt =====
-- `SizeCappedStream` of src/response_controls.rs against its specification.
use agent_locksmith.Prelude.{
  ℕ, zero, suc, ◌+◌, ◌-◌, ◌≤◌, ◌<◌, ◌≡◌, refl, ap, Bool, true, false, Option, none, some, List, [],
  ◌∷◌, ◌++◌, length, take, leb, ok, err, arith, ◌∙◌, if◌then◌else◌, length-append, append_assoc,
  append-nil,
}
use native.Mathlib.Decide.{dec_le}
use agent_locksmith.Text.Utf8.{Bytes}
use agent_locksmith.Response.Stream.{
  Poll, pending, ready, u64_max, truncation_marker, Item, CappedStream, new, poll_next, drain,
  offered, after,
}

-- What an agent may receive of the bytes that an upstream offers: all of them if they fit the cap,
-- else the prefix that fills the cap and the marker.
abbrev pub capped : ℕ → Bytes → Bytes
capped cap bytes = if leb (length bytes) cap then bytes else take cap bytes ++ truncation_marker

-- How often the truncation callback is called, and with what.
abbrev pub calls : ℕ → ℕ → Bytes → List ℕ
calls observed cap bytes = if leb (length bytes) cap then [] else observed ∷ []

sub-zero : (n : ℕ) → n - 0 ≡ n
sub-zero n = omega arith

take-append_le :
    (n : ℕ) (xs ys : Bytes) → length xs ≤ n → take n (xs ++ ys) ≡ xs ++ take (n - length xs) ys
take-append_le n [] ys h = rw (sub-zero n)
take-append_le zero (x ∷ xs) ys h = absurd (omega arith)
take-append_le (suc n) (x ∷ xs) ys h =
    ap (λ t. x ∷ t) (take-append_le n xs ys (omega arith) ∙ ap (λ k. xs ++ take k ys) (omega arith))

take-append_ge : (n : ℕ) (xs ys : Bytes) → n ≤ length xs → take n (xs ++ ys) ≡ take n xs
take-append_ge zero xs ys h = refl
take-append_ge (suc n) [] ys h = absurd (omega arith)
take-append_ge (suc n) (x ∷ xs) ys h = ap (λ t. x ∷ t) (take-append_ge n xs ys (omega arith))

capped_more :
    (room : ℕ) (chunk rest : Bytes)
    → length chunk ≤ room
    → chunk ++ capped (room - length chunk) rest ≡ capped room (chunk ++ rest)
capped_more room chunk rest h = ground (
  arith,
  take-append_le room chunk rest,
  length-append {0} chunk rest,
  append_assoc chunk (take (room - length chunk) rest) truncation_marker,
)

capped_last :
    (room : ℕ) (chunk rest : Bytes)
    → room < length chunk
    → take room chunk ++ truncation_marker ≡ capped room (chunk ++ rest)
capped_last room chunk rest h =
    ground (arith, take-append_ge room chunk rest, length-append {0} chunk rest)

module _ (E : Type 0) (cap : ℕ) where
  -- The adapter before it truncates.
  abbrev live : List (Poll (Item E)) → ℕ → CappedStream E
  live inner seen = record (new E inner (some cap)) { seen = seen }

  abbrev IsCapped : List (Poll (Item E)) → ℕ → Bytes × Bool × CappedStream E → Type 0
  IsCapped inner seen (bytes, done, s) =
      (bytes ≡ capped (cap - seen) (offered E inner))
      × (done ≡ true)
      × (s.fired ≡ calls cap (cap - seen) (offered E inner))

  -- The adapter after it has truncated.
  abbrev full : List (Poll (Item E)) → CappedStream E
  full inner = record (live inner cap) {
    truncated = true;
    pending_marker = some truncation_marker;
    on_truncate = false;
    fired = cap ∷ [];
  }

  poll_fits :
      (inner : List (Poll (Item E))) (chunk : Bytes) (seen : ℕ)
      → seen + length chunk ≤ cap
      → cap < u64_max
      → poll_next E (live (ready (ok chunk) ∷ inner) seen)
        ≡ (ready (some (ok chunk)), live inner (seen + length chunk))
  unfolding poll_next new
  poll_fits inner chunk seen fits small = ground arith

  poll_crosses :
      (inner : List (Poll (Item E))) (chunk : Bytes) (seen : ℕ)
      → cap < seen + length chunk
      → cap < u64_max
      → poll_next E (live (ready (ok chunk) ∷ inner) seen)
        ≡ (ready (some (ok (take (cap - seen) chunk))), full inner)
  unfolding poll_next new
  poll_crosses inner chunk seen crosses small = ground arith

  drain-full :
      (inner : List (Poll (Item E))) (fuel : ℕ)
      → drain E (suc (suc fuel)) (full inner)
        ≡ (truncation_marker, true, record (full inner) { pending_marker = none })
  unfolding drain poll_next new
  drain-full inner fuel =
      ap (λ b. (b, true, record (full inner) { pending_marker = none }))
        (append-nil truncation_marker)

  drain-step :
      (s t : CappedStream E) (answer : Poll (Option (Item E))) (fuel : ℕ)
      → poll_next E s ≡ (answer, t)
      → drain E (suc fuel) s ≡ after E answer t (drain E fuel t)
  unfolding drain
  drain-step s t answer fuel e = ap (λ step. after E step.0 step.1 (drain E fuel step.1)) e

  poll_end : (seen : ℕ) → poll_next E (live [] seen) ≡ (ready none, live [] seen)
  unfolding poll_next new
  poll_end seen = refl

  poll_pending :
      (inner : List (Poll (Item E))) (seen : ℕ)
      → poll_next E (live (pending ∷ inner) seen) ≡ (pending, live inner seen)
  unfolding poll_next new
  poll_pending inner seen = refl

  poll_failed :
      (inner : List (Poll (Item E))) (seen : ℕ) (e : E)
      → poll_next E (live (ready (err e) ∷ inner) seen) ≡ (ready (some (err e)), live inner seen)
  unfolding poll_next new
  poll_failed inner seen e = refl

  IsCapped-crosses :
      (inner : List (Poll (Item E))) (chunk : Bytes) (seen : ℕ)
      → seen ≤ cap
      → cap < seen + length chunk
      → IsCapped (ready (ok chunk) ∷ inner) seen (
        take (cap - seen) chunk ++ truncation_marker,
        true,
        record (full inner) { pending_marker = none },
      )
  IsCapped-crosses inner chunk seen fits crosses = (
    capped_last (cap - seen) chunk (offered E inner) (omega arith),
    refl,
    ground (arith, length-append {0} chunk (offered E inner)),
  )

  IsCapped-fits :
      (inner : List (Poll (Item E))) (chunk : Bytes) (seen : ℕ) (r : Bytes × Bool × CappedStream E)
      → seen + length chunk ≤ cap
      → IsCapped inner (seen + length chunk) r
      → IsCapped (ready (ok chunk) ∷ inner) seen (chunk ++ r.0, r.1, r.2)
  IsCapped-fits inner chunk seen r fits h =
      let room : cap - (seen + length chunk) ≡ cap - seen - length chunk = omega arith in
      (
        ap (λ b. chunk ++ b) (h.0 ∙ ap (λ n. capped n (offered E inner)) room)
            ∙ capped_more (cap - seen) chunk (offered E inner) (omega arith),
        h.1,
        h.2 ∙ ground (arith, length-append {0} chunk (offered E inner)),
      )

  drain-live :
      (inner : List (Poll (Item E))) (seen fuel : ℕ)
      → length inner + 2 ≤ fuel
      → seen ≤ cap
      → cap < u64_max
      → IsCapped inner seen (drain E fuel (live inner seen))
  drain-live inner seen zero enough fits small = absurd (omega arith)
  drain-live [] seen (suc fuel) enough fits small =
      rw (drain-step _ _ _ fuel (poll_end seen)) (unfold new in (ground arith, refl, ground arith))
  drain-live (pending ∷ inner) seen (suc fuel) enough fits small =
      rw (drain-step _ _ _ fuel (poll_pending inner seen))
        (drain-live inner seen fuel (omega arith) fits small)
  drain-live (ready (err e) ∷ inner) seen (suc fuel) enough fits small =
      rw (drain-step _ _ _ fuel (poll_failed inner seen e))
        (drain-live inner seen fuel (omega arith) fits small)
  drain-live (ready (ok chunk) ∷ inner) seen (suc zero) enough fits small = absurd (omega arith)
  drain-live (ready (ok chunk) ∷ inner) seen (suc (suc zero)) enough fits small =
      absurd (omega arith)
  drain-live (ready (ok chunk) ∷ inner) seen (suc (suc (suc fuel))) enough fits small =
      elim (dec_le (seen + length chunk) cap) [
        | yes room ↦
            rw (drain-step _ _ _ (suc (suc fuel)) (poll_fits inner chunk seen room small)) (
              IsCapped-fits inner chunk seen
                (drain E (suc (suc fuel)) (live inner (seen + length chunk))) room
                (drain-live inner (seen + length chunk) (suc (suc fuel)) (omega arith) room small))
        | no over ↦
            rw
              (
                drain-step _ _ _ (suc (suc fuel))
                    (poll_crosses inner chunk seen (omega arith) small),
                drain-full inner fuel,
              )
              (IsCapped-crosses inner chunk seen fits (omega arith))
      ]

-- Whatever the upstream answers, pending polls and errors among them, once the agent has polled two
-- times more often than the upstream has answers the stream has ended; it has received exactly the
-- bytes that the upstream offered if they fit the cap, else the prefix that fills the cap and then
-- the marker; and the callback was called once, with the cap, exactly if the bytes did not fit.
pub drain-capped :
    (E : Type 0) (inner : List (Poll (Item E))) (cap fuel : ℕ)
    → cap < u64_max
    → length inner + 2 ≤ fuel
    → (drain E fuel (new E inner (some cap))).0 ≡ capped cap (offered E inner)
      × (drain E fuel (new E inner (some cap))).1 ≡ true
      × (drain E fuel (new E inner (some cap))).2.fired ≡ calls cap cap (offered E inner)
unfolding new
drain-capped E inner limit fuel small enough =
    let h = drain-live E limit inner 0 fuel enough (omega arith) small in
    (
      h.0 ∙ ap (λ n. capped n (offered E inner)) (sub-zero limit),
      h.1,
      h.2 ∙ ap (λ n. calls limit n (offered E inner)) (sub-zero limit),
    )

module _ (E : Type 0) where
  drain_uncapped :
      (inner : List (Poll (Item E))) (fuel : ℕ)
      → length inner + 1 ≤ fuel
      → ((drain E fuel (new E inner none)).0 ≡ offered E inner)
        × ((drain E fuel (new E inner none)).1 ≡ true)
  unfolding drain poll_next new
  drain_uncapped inner zero enough = absurd (omega arith)
  drain_uncapped [] (suc fuel) enough = (refl, refl)
  drain_uncapped (pending ∷ inner) (suc fuel) enough = drain_uncapped inner fuel (omega arith)
  drain_uncapped (ready (err e) ∷ inner) (suc fuel) enough = drain_uncapped inner fuel (omega arith)
  drain_uncapped (ready (ok chunk) ∷ inner) (suc fuel) enough =
      let ih = drain_uncapped inner fuel (omega arith) in (ap (λ b. chunk ++ b) ih.0, ih.1)
