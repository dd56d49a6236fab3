-- ===== src/Send/Delivery.antt =====
-- What the loop of `send_all_until` puts on the wire, and what its errors report.
use native.Mathlib.Nat.{add-zero}
use v4l2_capture.Prelude.{
  ℕ, suc, ◌+◌, ◌-◌, ◌≤◌, ◌≡◌, ◌≢◌, refl, sym, ap, ◌∙◌, ◌⊎◌, inl, inr, ◌↔◌, true, Bool, some,
}
use v4l2_capture.Prelude.Int.{pos}
use v4l2_capture.Prelude.{
  List, [], ◌∷◌, ◌++◌, append-nil, append_assoc, Bool-cases, ltb, arith, length, length-append,
  length-take,
}
use v4l2_capture.Prelude.{length-drop, take, drop, take-append-drop, drop-drop, drop_all}
use v4l2_capture.Send.{SendAnswer, took, send_error, Round, Outcome, sent_all, timed_out, cancelled}
use v4l2_capture.Send.{unfinished, send_all_until, Next, stop, go, Job, round, send_loop}

-- `send` takes no more than it is offered.
abbrev pub Within : SendAnswer → ℕ → Type 0
Within (took n) k = n ≤ k
Within (send_error e) k = Unit {0}

abbrev pub After : Next → (ℕ → Type 0) → Type 0
After (stop o) P = Unit {0}
After (go n) P = P n

-- It does so in every round that the loop makes.
abbrev pub Obeys : Job → ℕ → List Round → Type 0
Obeys j sent [] = Unit {0}
Obeys j sent (r ∷ rs) =
    Within r.send_answer (length j.bytes - sent)
    × After (round j sent r) (λ n. Obeys j (sent + n) rs)

-- A timeout and a cancellation report how much was sent, of how much.
abbrev pub Reports : Outcome → ℕ → ℕ → Type 0
Reports (timed_out k n) sent size = (k ≡ sent) × (n ≡ size)
Reports (cancelled k n) sent size = (k ≡ sent) × (n ≡ size)
Reports _ sent size = Unit {0}

pub Next-cases : (n : Next) → ((o : Outcome) × (n ≡ stop o)) ⊎ ((k : ℕ) × (n ≡ go k))
Next-cases (stop o) = inl (o, refl)
Next-cases (go k) = inr (k, refl)

round_go :
    (j : Job) (sent : ℕ) (r : Round) (n k : ℕ)
    → round j sent r ≡ go n
    → Within r.send_answer k
    → n ≤ k
unfolding round
round_go j sent r n k e h = ground arith

round_stop :
    (j : Job) (sent : ℕ) (r : Round) (o : Outcome)
    → round j sent r ≡ stop o
    → Reports o sent (length j.bytes) × (o ≢ sent_all)
unfolding round
round_stop j sent r sent_all e = ground arith
round_stop j sent r _ e = ground arith

-- What a run of the loop that started at `sent` has done.
record Delivered (j : Job) (sent : ℕ) (result : Outcome × List ℕ) : Type 0 where
  in_order : result.1 ++ drop (sent + length result.1) j.bytes ≡ drop sent j.bytes
  reported : Reports result.0 (sent + length result.1) (length j.bytes)
  complete : (result.0 ≡ sent_all) ↔ (sent + length result.1 ≡ length j.bytes)
  within : sent + length result.1 ≤ length j.bytes

Delivered-ended :
    (j : Job) (sent : ℕ) (o : Outcome)
    → sent ≤ length j.bytes
    → Reports o sent (length j.bytes)
    → (o ≡ sent_all) ↔ (sent ≡ length j.bytes)
    → Delivered j sent (o, [])
Delivered-ended j sent o h rep all = record {
  in_order = ap (λ (k : ℕ). drop k j.bytes) (omega arith);
  reported = rw (add-zero sent) rep;
  complete = (λ e. omega (arith, all.0 e), λ e. all.1 (omega arith));
  within = omega arith;
}

Delivered-went_on :
    (j : Job) (sent n : ℕ) (o : Outcome) (wire : List ℕ)
    → sent + n ≤ length j.bytes
    → Delivered j (sent + n) (o, wire)
    → Delivered j sent (o, take n (drop sent j.bytes) ++ wire)
Delivered-went_on j sent n o wire h d = record {
  in_order =
      append_assoc (take n (drop sent j.bytes)) wire _
      ∙ ap (λ (k : ℕ). take n (drop sent j.bytes) ++ (wire ++ drop k j.bytes)) (sym count)
      ∙ ap (λ t. take n (drop sent j.bytes) ++ t) (d.in_order ∙ sym (drop-drop sent n j.bytes))
      ∙ take-append-drop n (drop sent j.bytes);
  reported = rw (← count) d.reported;
  complete = (λ e. omega (arith, count, d.complete.0 e), λ e. d.complete.1 (omega (arith, count)));
  within = omega (arith, count, d.within);
}
  where
    count : sent + n + length wire ≡ sent + length (take n (drop sent j.bytes) ++ wire)
    count = omega (
      arith,
      length-append (take n (drop sent j.bytes)) wire,
      length-take n (drop sent j.bytes),
      length-drop sent j.bytes,
    )

send_loop-Delivered :
    (j : Job) (sent : ℕ) (rs : List Round)
    → sent ≤ length j.bytes
    → Obeys j sent rs
    → Delivered j sent (send_loop j sent rs)
unfolding send_loop
send_loop-Delivered j sent [] h ob = elim (Bool-cases (ltb sent (length j.bytes))) [
  | inl e ↦ rw e (Delivered-ended j sent unfinished h tt (λ p. cc, λ p. ground arith))
  | inr e ↦ rw e (Delivered-ended j sent sent_all h tt (λ p. ground arith, λ p. refl))
]
send_loop-Delivered j sent (r ∷ rs) h (w, rest) = elim (Bool-cases (ltb sent (length j.bytes))) [
  | inr e ↦ rw e (Delivered-ended j sent sent_all h tt (λ p. ground arith, λ p. refl))
  | inl e ↦ rw e (elim (Next-cases (round j sent r)) [
    | inl (o, eq) ↦ rw eq (
        Delivered-ended j sent o h (round_stop j sent r o eq).0
          (λ p. absurd ((round_stop j sent r o eq).1 p), λ p. ground arith))
    | inr (n, eq) ↦ rw eq (
        Delivered-went_on j sent n _ _ (fits n eq e)
          (send_loop-Delivered j (sent + n) rs (fits n eq e) (later n eq)))
  ])
]
  where
    fits :
        (n : ℕ)
        → round j sent r ≡ go n
        → ltb sent (length j.bytes) ≡ true
        → sent + n ≤ length j.bytes
    fits n eq e = omega (arith, round_go j sent r n _ eq w, h)

    later : (n : ℕ) → round j sent r ≡ go n → Obeys j (sent + n) rs
    later n eq = rw eq at rest

Delivered-whole :
    (j : Job) (o : Outcome) (wire : List ℕ)
    → Delivered j 0 (o, wire)
    → (wire ++ drop (length wire) j.bytes ≡ j.bytes)
      × Reports o (length wire) (length j.bytes)
      × ((o ≡ sent_all) ↔ (wire ≡ j.bytes))
Delivered-whole j o wire d =
    (prefix, rw same d.reported, (whole, λ e. d.complete.1 (omega (arith, ap length e))))
  where
    same : length wire ≡ 0 + length wire
    same = omega arith

    prefix : wire ++ drop (length wire) j.bytes ≡ j.bytes
    prefix = ap (λ (k : ℕ). wire ++ drop k j.bytes) same ∙ d.in_order

    whole : o ≡ sent_all → wire ≡ j.bytes
    whole e =
        sym (append-nil wire)
        ∙ ap (λ t. wire ++ t)
            (sym (ap (λ (k : ℕ). drop k j.bytes) (same ∙ d.complete.0 e) ∙ drop_all j.bytes))
        ∙ prefix

-- With valid arguments, what the kernel took is a prefix of the buffer, in order; a timeout and a
-- cancellation report its length and the buffer's; and the call returns normally exactly when the
-- whole buffer was taken.
pub send_all_until_delivers :
    (ticks_per_ms fd slice : ℕ) (bytes : List ℕ) (deadline : ℕ) (given : Bool) (rs : List Round)
    → Obeys
        (record {
          bytes = bytes;
          deadline = deadline;
          stop_given = given;
          poll_slice = suc slice;
          ticks_per_ms = ticks_per_ms;
        })
        0
        rs
    → let (o, wire) =
        send_all_until ticks_per_ms
          (pos fd)
          (some bytes)
          (length bytes)
          deadline
          given
          (pos (suc slice))
          rs in
      (wire ++ drop (length wire) bytes ≡ bytes)
      × Reports o (length wire) (length bytes)
      × ((o ≡ sent_all) ↔ (wire ≡ bytes))
unfolding send_all_until
send_all_until_delivers ticks_per_ms fd slice bytes deadline given rs ob =
    Delivered-whole _ _ _ (send_loop-Delivered _ 0 rs (omega arith) ob)
