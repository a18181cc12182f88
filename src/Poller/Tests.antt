-- ===== src/Poller/Tests.antt =====
-- Tokens and wake-ups on concrete inputs.
use rnet.Prelude.{ℕ, zero, suc, ◌+◌, ◌-◌, ◌^◌, ◌<◌, ◌≡◌, ◌↔◌, refl, true, [], ◌∷◌, some, arith}
use rnet.Io.{IoResult, ok, err, other, ret}
use rnet.Poller.{listener_token, is_listener_token, wake_token, Waker, reset, wake_times}
use rnet.Poller.Tokens.{is_listener_token_iff}
use rnet.Poller.Coalesce.{wake_times_lem}

-- The token of listener 1024 would be that of the waker.
clash_run : listener_token true 1024 ≡ ret wake_token
unfolding listener_token
clash_run = refl

is_listener_token_iff_example :
    (is_listener_token (2 ^ 64 - 1025 + 3) ≡ some 3)
    ↔ ((3 < 1024) × (listener_token true 3 ≡ ret (2 ^ 64 - 1025 + 3)))
is_listener_token_iff_example = is_listener_token_iff true 3 (2 ^ 64 - 1025 + 3) (omega arith)

-- A waker that counts, and fails the first time.
abbrev count_wakes : ℕ → ℕ × IoResult (Unit {0})
count_wakes zero = (1, err other)
count_wakes (suc n) = (suc (suc n), ok tt)

abbrev awake : Waker count_wakes
awake = record { waker = 0; awoken = true }

wake_times_lem_example :
    wake_times count_wakes 3 (reset count_wakes awake)
    ≡ (record { waker = 1; awoken = true }, err other ∷ ok tt ∷ ok tt ∷ [])
wake_times_lem_example = wake_times_lem count_wakes 2 awake
