-- ===== src/TokenBucket/Tests.antt =====
-- common/token_bucket.rs: two callers, one token too few.
use peer_link.Common.{ℕ, ◌+◌, ◌≤◌, ◌≡◌, [], ◌∷◌, Bool, arith}
use peer_link.TokenBucket.{TokenBucket, try_consume}
use peer_link.TokenBucket.Concurrent.{
  consume, consumed, refused, load, short, take_tokens, take_failed, here, there, Run, stop, next,
  all_taken, all_given, run_lem,
}
use peer_link.TokenBucket.Alone.{answered, try_consume_lem}

abbrev three : TokenBucket
three = record {
  available_tokens = 3;
  last_refill_time = 0;
  config = record { capacity = 4; fill_rate = 100; refill_interval = 10 };
}

-- Both have read 3, one takes 2, the other fails and is refused.
race : Run 4 3 (consume 2 ∷ consume 2 ∷ []) 1 (consumed 2 ∷ refused 2 ∷ [])
race = next (here (load (omega arith))) (
    next (there (here (load (omega arith)))) (
      next (here (take_tokens (omega arith))) (
        next (there (here (take_failed (omega arith))))
          (next (there (here (short (omega arith)))) stop))))

run_lem_example :
    (1 + all_taken (consumed 2 ∷ refused 2 ∷ []) + all_given (consume 2 ∷ consume 2 ∷ [])
      ≤ 3 + all_taken (consume 2 ∷ consume 2 ∷ []) + all_given (consumed 2 ∷ refused 2 ∷ []))
    × (3 ≤ 4 → 1 ≤ 4)
run_lem_example = run_lem 4 race

try_consume_lem_example :
    Run 4 3
      (consume 2 ∷ [])
      ((try_consume 2 three).0.available_tokens)
      (answered 2 (try_consume 2 three).1 ∷ [])
    × ((answer : Bool) (n : ℕ)
        → Run 4 3 (consume 2 ∷ []) n (answered 2 answer ∷ [])
        → ((try_consume 2 three).1 ≡ answer) × ((try_consume 2 three).0.available_tokens ≡ n))
try_consume_lem_example = try_consume_lem 2 three
