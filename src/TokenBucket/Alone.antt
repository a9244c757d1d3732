-- ===== src/TokenBucket/Alone.antt =====
-- common/token_bucket.rs: `try_consume` as one step and as atomic operations.
use peer_link.Common.{
  ℕ, ◌≤◌, ◌≡◌, inl, inr, refl, sym, [], ◌∷◌, Bool, true, false, arith, ltb, Bool-cases,
}
use peer_link.TokenBucket.{TokenBucket, try_consume}
use peer_link.TokenBucket.Concurrent.{
  Call, consume, consuming, consumed, refused, Step, oversized, load, short, take_tokens,
  take_failed, here, there, Run, stop, next,
}

-- How the call stands when `try_consume` has answered.
abbrev pub answered : ℕ → Bool → Call
answered t true = consumed t
answered t false = refused t

-- A call that runs alone can make steps to the count and the answer of `try_consume`.
pub try_consume-Run :
    (t : ℕ) (b : TokenBucket)
    → Run b.config.capacity b.available_tokens
        (consume t ∷ [])
        ((try_consume t b).0.available_tokens)
        (answered t (try_consume t b).1 ∷ [])
unfolding try_consume
try_consume-Run t b = elim (Bool-cases (ltb b.config.capacity t)) [
  | inl over ↦ rw over (next (here (oversized (ground arith))) stop)
  | inr fits ↦ elim (Bool-cases (ltb b.available_tokens t)) [
    | inl few ↦
        rw (fits, few) (next (here (load (ground arith))) (next (here (short (ground arith))) stop))
    | inr enough ↦
        rw (fits, enough)
          (next (here (load (ground arith))) (next (here (take_tokens (ground arith))) stop))
  ]
]

-- Where one call may stand, with the count of tokens.
abbrev Stands : TokenBucket → ℕ → ℕ → Call → Type 0
Stands b t n (consume s) = (n ≡ b.available_tokens) × (s ≡ t)
Stands b t n (consuming s c) =
    (n ≡ b.available_tokens) × (s ≡ t) × (c ≡ n) × (t ≤ b.config.capacity)
Stands b t n (consumed s) =
    (n ≡ (try_consume t b).0.available_tokens) × ((try_consume t b).1 ≡ true)
Stands b t n (refused s) =
    (n ≡ (try_consume t b).0.available_tokens) × ((try_consume t b).1 ≡ false)
Stands b t n _ = ¬ Unit {0}

Stands-Step :
    (t : ℕ) (b : TokenBucket) {n m : ℕ} {c d : Call}
    → Step b.config.capacity n c m d
    → Stands b t n c
    → Stands b t m d
unfolding try_consume
Stands-Step t b (oversized h) v = ground arith
Stands-Step t b (load h) v = (v.0, v.1, refl, omega (arith, v.1))
Stands-Step t b (short h) v = ground arith
Stands-Step t b (take_tokens h) v = ground arith
Stands-Step t b (take_failed h) v = (v.0, v.1, refl, v.3)
Stands-Step t b _ v = v

Stands-Run :
    (t : ℕ) (b : TokenBucket) {n m : ℕ} {c d : Call}
    → Run b.config.capacity n (c ∷ []) m (d ∷ [])
    → Stands b t n c
    → Stands b t m d
Stands-Run t b stop v = v
Stands-Run t b (next (here s) r) v = Stands-Run t b r (Stands-Step t b s v)
Stands-Run t b (next (there none_left) r) v = elim none_left [ ]

-- A call of `try_consume` that no other call interrupts can run to its end, and wherever its steps end
-- with an answer, the answer and the count are those of `try_consume`, however often the weak
-- compare-exchange fails.
pub try_consume_lem :
    (t : ℕ) (b : TokenBucket)
    → Run b.config.capacity b.available_tokens
        (consume t ∷ [])
        ((try_consume t b).0.available_tokens)
        (answered t (try_consume t b).1 ∷ [])
      × ((answer : Bool) (n : ℕ)
          → Run b.config.capacity b.available_tokens (consume t ∷ []) n (answered t answer ∷ [])
          → ((try_consume t b).1 ≡ answer) × ((try_consume t b).0.available_tokens ≡ n))
try_consume_lem t b = (try_consume-Run t b, only)
  where
    only :
        (answer : Bool) (n : ℕ)
        → Run b.config.capacity b.available_tokens (consume t ∷ []) n (answered t answer ∷ [])
        → ((try_consume t b).1 ≡ answer) × ((try_consume t b).0.available_tokens ≡ n)
    only true n r = let (e, f) = Stands-Run t b r (refl, refl) in (f, sym e)
    only false n r = let (e, f) = Stands-Run t b r (refl, refl) in (f, sym e)
