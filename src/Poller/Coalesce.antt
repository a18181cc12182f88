-- ===== src/Poller/Coalesce.antt =====
-- Wake-ups of src/poller.rs that come before the loop has reset its waker.
use rnet.Prelude.{ℕ, zero, suc, ◌≡◌, refl, true, ◌∷◌, replicate}
use rnet.Io.{IoResult, ok}
use rnet.Poller.{Waker, wake, reset, wake_times}

module _ {MioWaker : Type 0} (inner_wake : MioWaker → MioWaker × IoResult (Unit {0})) where
  abbrev awake : MioWaker → Waker inner_wake
  awake waker = record { waker = waker; awoken = true }

  awoken_wakes :
      (n : ℕ) (waker : MioWaker)
      → wake_times inner_wake n (awake waker) ≡ (awake waker, replicate n (ok tt))
  unfolding wake_times wake
  awoken_wakes zero waker = refl
  awoken_wakes (suc n) waker = let later = awoken_wakes n waker in rw later

  -- Of many calls of `wake` after a `reset`, only the first reaches mio's waker, and its result is
  -- returned; all others succeed, even where that first one failed.
  pub wake_times_lem :
      (n : ℕ) (w : Waker inner_wake)
      → let (waker', res) = inner_wake w.waker in
        wake_times inner_wake (suc n) (reset inner_wake w)
        ≡ (record { waker = waker'; awoken = true }, res ∷ replicate n (ok tt))
  unfolding wake_times wake reset
  wake_times_lem n w =
      let (waker', res) = inner_wake w.waker in let later = awoken_wakes n waker' in rw later
