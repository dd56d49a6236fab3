-- ===== src/Sender/Attempts.antt =====
-- The attempts to connect, and their counts in the statistics.
use native.Mathlib.Decide.{dec_lt}
use native.Mathlib.Nat.{le_refl}
use v4l2_capture.Prelude.{
  ℕ, zero, suc, ◌+◌, ◌≤◌, ◌<◌, ◌≡◌, refl, ap, ◌∙◌, ◌⊎◌, Option, none, some, Option-cases, inl, inr,
  arith,
}
use v4l2_capture.Sender.{ConnectStats, connect_loop, connect_to_tcp_receiver_with_retry}

-- How `n + 1` attempts from number `a` on end, with `r` retries counted before.
abbrev pub Ended : (ℕ → Option ℕ) → ℕ → ℕ → ℕ → Option ℕ → ConnectStats → Type 0
Ended connect n a r result stats =
    ((result ≡ none)
      × (stats.tcp_connect_attempts ≡ a + n)
      × (stats.tcp_connect_retries ≡ r + n)
      × ((i : ℕ) → a ≤ i → i ≤ a + n → connect i ≡ none))
    ⊎ ((k : ℕ) × (a ≤ k)
        × (k ≤ a + n)
        × (fd : ℕ) × (result ≡ some fd)
        × (connect k ≡ some fd)
        × (stats.tcp_connect_attempts ≡ k)
        × (stats.tcp_connect_retries + a ≡ r + k)
        × ((i : ℕ) → a ≤ i → i < k → connect i ≡ none))

none_at :
    (connect : ℕ → Option ℕ) (a b : ℕ)
    → connect a ≡ none
    → ((i : ℕ) → a + 1 ≤ i → i ≤ b → connect i ≡ none)
    → (i : ℕ) → a ≤ i
    → i ≤ b
    → connect i ≡ none
none_at connect a b e later i h k = elim (dec_lt a i) [
  | yes p ↦ later i (omega arith) k
  | no p ↦ ap connect (omega arith) ∙ e
]

-- An attempt that failed, before the others.
Ended-failed :
    (connect : ℕ → Option ℕ) (n a r : ℕ) (result : Option ℕ) (stats : ConnectStats)
    → connect a ≡ none
    → Ended connect n (a + 1) (r + 1) result stats
    → Ended connect (suc n) a r result stats
Ended-failed connect n a r result stats e (inl (x, p, q, all)) = inl (
  x,
  omega arith,
  omega arith,
  λ i h k. none_at connect a (a + suc n) e (λ i h k. all i h (omega arith)) i h k,
)
Ended-failed connect n a r result stats e (inr (k, h, l, fd, x, c, p, q, all)) = inr (
  k,
  omega arith,
  omega arith,
  fd,
  x,
  c,
  p,
  omega arith,
  λ i h' l'. none_at connect a i e (λ j p q. all j p (omega arith)) i h' (le_refl i),
)

connect_loop-Ended :
    (connect : ℕ → Option ℕ) (n a : ℕ) (stats : ConnectStats)
    → let (result, after) = connect_loop connect (suc n) a stats in
      Ended connect n a stats.tcp_connect_retries result after
unfolding connect_loop
connect_loop-Ended connect zero a stats = elim (Option-cases (connect a)) [
  | inr (fd, e) ↦
      rw e (inr (a, le_refl a, omega arith, fd, refl, e, refl, refl, λ i h l. absurd (omega arith)))
  | inl e ↦ rw e (inl (refl, omega arith, omega arith, λ i h k. ap connect (omega arith) ∙ e))
]
connect_loop-Ended connect (suc n) a stats = elim (Option-cases (connect a)) [
  | inr (fd, e) ↦
      rw e (inr (a, le_refl a, omega arith, fd, refl, e, refl, refl, λ i h l. absurd (omega arith)))
  | inl e ↦ rw e (
      Ended-failed connect n a stats.tcp_connect_retries _ _ e (
        connect_loop-Ended connect n (a + 1) (record {
          tcp_connect_attempts = a;
          tcp_connect_retries = stats.tcp_connect_retries + 1;
        })))
]

-- One attempt at least is made. Without success, all `n + 1` attempts failed and are counted, with a
-- retry between any two; with it, the descriptor is that of the first attempt that succeeded, the
-- attempts before it failed, and the statistics count them.
pub connect_to_tcp_receiver_with_retry-Ended :
    (connect : ℕ → Option ℕ) (n : ℕ) (stats : ConnectStats)
    → let (result, after) = connect_to_tcp_receiver_with_retry connect (suc n) stats in
      Ended connect n 1 stats.tcp_connect_retries result after
unfolding connect_to_tcp_receiver_with_retry
connect_to_tcp_receiver_with_retry-Ended connect n stats = connect_loop-Ended connect n 1 stats
