-- ===== src/Worker/Queue/Retries.antt =====
-- Retries of a failing message: how many there are, and where the message ends.
use vpn_management_panel.Prelude.{
  ℕ, zero, suc, ◌-◌, ◌≤◌, ◌<◌, ◌≡◌, Bool, true, false, some, arith, ap, ◌∙◌,
}
use native.Mathlib.Decide.{dec_lt}
use vpn_management_panel.Worker.Queue.{Message, attempts_of, handled, poisoned, life}

-- One failed attempt that is not the last.
life_retry :
    (fuel m : ℕ) (raises : ℕ → Bool) (message : Message)
    → raises (attempts_of message) ≡ true
    → attempts_of message < m
    → life (suc fuel) m raises message
      ≡ life fuel m raises (record message { x_retry_count = some (attempts_of message) })
unfolding life
life_retry fuel m raises message r h = ground arith

-- The last attempt.
life_last :
    (fuel m : ℕ) (raises : ℕ → Bool) (message : Message)
    → raises (attempts_of message) ≡ true
    → m ≤ attempts_of message
    → life (suc fuel) m raises message
      ≡ poisoned (record message { x_retry_count = some (attempts_of message) })
unfolding life
life_last fuel m raises message r h = ground arith

life_handled :
    (fuel m : ℕ) (raises : ℕ → Bool) (message : Message)
    → raises (attempts_of message) ≡ false
    → life (suc fuel) m raises message ≡ handled (attempts_of message)
unfolding life
life_handled fuel m raises message r = ground arith

-- A message whose handler raises at every attempt that it gets, from its next one up to the allowed
-- number `m`, ends in the poison queue with that number in its header. It is neither dropped nor
-- retried for ever: as many steps as there are attempts left are enough.
pub life-poisoned :
    (fuel m : ℕ) (raises : ℕ → Bool) (message : Message)
    → ((k : ℕ) → attempts_of message ≤ k → k ≤ m → raises k ≡ true)
    → attempts_of message ≤ m
    → m - attempts_of message < fuel
    → life fuel m raises message ≡ poisoned (record message { x_retry_count = some m })
life-poisoned zero m raises message all h enough = elim enough [ ]
life-poisoned (suc fuel) m raises message all h enough = elim (dec_lt (attempts_of message) m) [
  | yes more ↦
      life_retry fuel m raises message (all (attempts_of message) (omega arith) h) more
      ∙ life-poisoned fuel m raises (record message { x_retry_count = some (attempts_of message) })
          (λ k a b. all k (omega arith) b) (omega arith) (omega arith)
  | no last ↦
      life_last fuel m raises message (all (attempts_of message) (omega arith) h) (omega arith)
      ∙ ap (λ (n : ℕ). poisoned (record message { x_retry_count = some n })) (omega arith)
]

-- If an attempt `k` within the allowed number is the first whose handler does not raise, the message
-- is handled at that attempt.
pub life-handled :
    (fuel m k : ℕ) (raises : ℕ → Bool) (message : Message)
    → ((j : ℕ) → attempts_of message ≤ j → j < k → raises j ≡ true)
    → raises k ≡ false
    → attempts_of message ≤ k
    → k ≤ m
    → k - attempts_of message < fuel
    → life fuel m raises message ≡ handled k
life-handled zero m k raises message before r a b enough = elim enough [ ]
life-handled (suc fuel) m k raises message before r a b enough =
    elim (dec_lt (attempts_of message) k) [
      | yes more ↦
          life_retry fuel m raises message (before (attempts_of message) (omega arith) more)
            (omega arith)
          ∙ life-handled fuel m k raises
              (record message { x_retry_count = some (attempts_of message) })
              (λ j p q. before j (omega arith) q) r (omega arith) b (omega arith)
      | no here ↦
          let e : attempts_of message ≡ k = omega arith in
          life_handled fuel m raises message (rw e r) ∙ ap handled e
    ]
