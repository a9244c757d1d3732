-- ===== src/TokenBucket/Concurrent.antt =====
-- common/token_bucket.rs: calls that run beside each other on the atomic count of tokens. A step is one
-- atomic operation; a weak compare-exchange may fail where the count has not changed.
use peer_link.Common.{ℕ, ◌+◌, ◌-◌, ◌≤◌, ◌<◌, List, [], ◌∷◌, arith}
use peer_link.TokenBucket.{filled}

-- Where a call stands.
pub data Call : Type 0 where
  consume : (tokens : ℕ) → Call
  consuming : (tokens current : ℕ) → Call
  consumed : (tokens : ℕ) → Call
  refused : (tokens : ℕ) → Call
  fill : (tokens : ℕ) → Call
  filling : (tokens current : ℕ) → Call
  done_filling : (tokens : ℕ) → Call

-- A step of a call: the count of tokens before and after it.
pub data Step (capacity : ℕ) : ℕ → Call → ℕ → Call → Type 0 where
  oversized : {n t : ℕ} → capacity < t → Step capacity n (consume t) n (refused t)
  load : {n t : ℕ} → t ≤ capacity → Step capacity n (consume t) n (consuming t n)
  short : {n t c : ℕ} → c < t → Step capacity n (consuming t c) n (refused t)
  take_tokens : {n t : ℕ} → t ≤ n → Step capacity n (consuming t n) (n - t) (consumed t)
  take_failed : {n t c : ℕ} → t ≤ c → Step capacity n (consuming t c) n (consuming t n)
  load_fill : {n t : ℕ} → Step capacity n (fill t) n (filling t n)
  put_tokens : {n t : ℕ} → Step capacity n (filling t n) (filled capacity t n) (done_filling t)
  put_failed : {n t c : ℕ} → Step capacity n (filling t c) n (filling t n)

-- One of the calls makes a step.
pub data Any (capacity : ℕ) : ℕ → List Call → ℕ → List Call → Type 0 where
  here :
      {n m : ℕ} {a b : Call} {calls : List Call}
      → Step capacity n a m b
      → Any capacity n (a ∷ calls) m (b ∷ calls)
  there :
      {n m : ℕ} {a : Call} {calls others : List Call}
      → Any capacity n calls m others
      → Any capacity n (a ∷ calls) m (a ∷ others)

-- Steps of the calls, in any order.
pub data Run (capacity : ℕ) : ℕ → List Call → ℕ → List Call → Type 0 where
  stop : {n : ℕ} {calls : List Call} → Run capacity n calls n calls
  next :
      {n m k : ℕ} {before after cs : List Call}
      → Any capacity n before m after
      → Run capacity m after k cs
      → Run capacity n before k cs

-- The tokens that a call has taken out.
abbrev pub taken : Call → ℕ
taken (consumed t) = t
taken _ = 0

-- The tokens that a call has been given to put in, once it has.
abbrev pub given : Call → ℕ
given (done_filling t) = t
given _ = 0

abbrev pub all_taken : List Call → ℕ
all_taken [] = 0
all_taken (c ∷ cs) = taken c + all_taken cs

abbrev pub all_given : List Call → ℕ
all_given [] = 0
all_given (c ∷ cs) = given c + all_given cs

step_lem :
    (capacity : ℕ) {n m : ℕ} {a b : Call}
    → Step capacity n a m b
    → (m + taken b + given a ≤ n + taken a + given b) × (n ≤ capacity → m ≤ capacity)
step_lem capacity (oversized h) = (omega arith, λ e. e)
step_lem capacity (load h) = (omega arith, λ e. e)
step_lem capacity (short h) = (omega arith, λ e. e)
step_lem capacity (take_tokens h) = (omega arith, λ e. omega arith)
step_lem capacity (take_failed h) = (omega arith, λ e. e)
step_lem capacity load_fill = (omega arith, λ e. e)
step_lem capacity put_tokens = (omega arith, λ e. omega arith)
step_lem capacity put_failed = (omega arith, λ e. e)

any_lem :
    (capacity : ℕ) {n m : ℕ} {before after : List Call}
    → Any capacity n before m after
    → (m + all_taken after + all_given before ≤ n + all_taken before + all_given after)
      × (n ≤ capacity → m ≤ capacity)
any_lem capacity (here s) = (omega (arith, (step_lem capacity s).0), (step_lem capacity s).1)
any_lem capacity (there s) = (omega (arith, (any_lem capacity s).0), (any_lem capacity s).1)

-- Whatever the order of their steps, calls of `try_consume` and `refill` that run beside each other
-- take out no more tokens than were there and were put in meanwhile, and a count that does not exceed
-- the capacity never comes to exceed it.
pub run_lem :
    (capacity : ℕ) {n m : ℕ} {before after : List Call}
    → Run capacity n before m after
    → (m + all_taken after + all_given before ≤ n + all_taken before + all_given after)
      × (n ≤ capacity → m ≤ capacity)
run_lem capacity stop = (omega arith, λ e. e)
run_lem capacity (next s r) =
    let (t, u) = any_lem capacity s in
    let (v, w) = run_lem capacity r in (omega arith, λ e. w (u e))
