-- ===== src/Examples/FeeRefresh.antt =====
-- The task that keeps the L1 fee cache fresh, with a refresh that fails. The backoff is the node's.
use dogeos_reth.Prelude.{
  ℕ, ◌+◌, ◌*◌, ◌^◌, ◌≤◌, ◌≡◌, refl, Bool, true, false, some, none, List, [], ◌∷◌, Result, ok, err,
  min, arith, length,
}
use dogeos_reth.TxPool.FeeRefresh.{
  l1_fee_retry_backoff, TryRecvError, lagged, empty, FeeLoop, looping, refresh_afresh, start,
  on_retry, Turn, Turns, stay, turn, retry,
}
use dogeos_reth.TxPool.FeeRefresh.Retry.{retries, unavailable_is_retried, retry_delay_doubles}

-- The world counts the refreshes.
abbrev refresh : ℕ → ℕ × Bool
refresh s = (s + 1, false)

abbrev resubscribe : ℕ → ℕ
resubscribe s = s

abbrev answers : List (Result TryRecvError (Unit {0}))
answers = ok tt ∷ err (lagged 3) ∷ err empty ∷ []

abbrev first : FeeLoop ℕ
first = record {
  world = 3;
  available = false;
  retry_delay = 1_000_000_000;
  retry_deadline = some 1_000_000_050;
  clock = 50;
}

started : start l1_fee_retry_backoff refresh resubscribe answers true 50 0 ≡ looping first
unfolding start
started = refl

abbrev after : FeeLoop ℕ
unfolding on_retry
after = on_retry l1_fee_retry_backoff refresh resubscribe 1_000_000_060 first

one_turn : Turns l1_fee_retry_backoff refresh resubscribe first after
unfolding on_retry
one_turn =
    turn first after after (retry 1_000_000_060 1_000_000_050 first refl (omega arith)) (stay after)

unavailable_is_retried_example :
    (after.available ≡ true → after.retry_deadline ≡ none)
    × (after.available ≡ false
        → (due : ℕ) × (after.retry_deadline ≡ some due)
          × (due ≤ after.clock + l1_fee_retry_backoff.max)
          × Turn l1_fee_retry_backoff refresh resubscribe after
              (on_retry l1_fee_retry_backoff refresh resubscribe due after))
unavailable_is_retried_example =
    unavailable_is_retried l1_fee_retry_backoff refresh resubscribe answers true 50 0 first after
      (omega arith) (omega arith) started one_turn

abbrev times : List ℕ
times = 60 ∷ 70 ∷ []

retry_delay_doubles_example :
    (retries l1_fee_retry_backoff refresh resubscribe times
      (refresh_afresh l1_fee_retry_backoff refresh resubscribe 50 0)).retry_delay
    ≡ min (l1_fee_retry_backoff.initial * 2 ^ length times) l1_fee_retry_backoff.max
retry_delay_doubles_example =
    retry_delay_doubles l1_fee_retry_backoff refresh resubscribe times 50 0 (omega arith)
      (omega arith) (λ world. refl)
