-- ===== src/Poller.antt =====
-- src/poller.rs: the tokens of listeners and wakers, `Poller`, and the `Waker`, which coalesces
-- wake-ups. mio's own poll and waker are parameters. `usize` has 64 bits.
pub mod Tokens
pub mod Coalesce
mod Tests
use rnet.Prelude.{
  ℕ, zero, suc, ◌+◌, ◌-◌, ◌%◌, ◌^◌, Bool, true, false, List, [], ◌∷◌, Option, none, some, ltb, leb,
  ◌&&◌, if◌then◌else◌,
}
use rnet.Prelude.Int.{ℤ}
use rnet.Io.{IoResult, ok, Run, ret, panic}
use rnet.Extern.Polls.{PollApi}

abbrev pub wake_token : ℕ
wake_token = 2 ^ 64 - 1

abbrev pub listener_token_start : ℕ
listener_token_start = wake_token - 1024

-- The addition panics on overflow if the build has overflow checks, and wraps around else.
unfoldable pub listener_token : (overflow_checks : Bool) → ℕ → Run ℕ
listener_token overflow_checks index =
    if overflow_checks && leb (2 ^ 64) (listener_token_start + index)
    then panic
    else ret ((listener_token_start + index) % 2 ^ 64)

unfoldable pub is_listener_token : ℕ → Option ℕ
is_listener_token token =
    if leb listener_token_start token && ltb token wake_token
    then some (token - listener_token_start)
    else none

-- `Poller`, which asks the poll for events of one source under a token.
module _ ⦃polls : PollApi⦄ where
  open polls use {Poll}

  abbrev pub register : Poll → ℤ → ℕ → Poll × IoResult (Unit {0})
  register p fd token = polls.register p fd token false

  abbrev pub enable_write : Poll → ℤ → ℕ → Poll × IoResult (Unit {0})
  enable_write p fd token = polls.reregister p fd token true

  abbrev pub disable_write : Poll → ℤ → ℕ → Poll × IoResult (Unit {0})
  disable_write p fd token = polls.reregister p fd token false

  abbrev pub deregister : Poll → ℤ → Poll × IoResult (Unit {0})
  deregister p fd = polls.deregister p fd

-- `inner_wake` is `wake` of mio's waker.
module _ {MioWaker : Type 0} (inner_wake : MioWaker → MioWaker × IoResult (Unit {0})) where
  pub record Waker : Type 0 where
    pub waker : MioWaker
    pub awoken : Bool

  unfoldable pub new : MioWaker → Waker
  new waker = record { waker = waker; awoken = false }

  unfoldable pub wake : Waker → Waker × IoResult (Unit {0})
  wake w =
      let (waker', res) = inner_wake w.waker in
      if w.awoken then (w, ok tt) else (record { waker = waker'; awoken = true }, res)

  unfoldable pub reset : Waker → Waker
  reset w = record w { awoken = false }

  -- So many calls of `wake`, and what they return.
  unfoldable pub wake_times : ℕ → Waker → Waker × List (IoResult (Unit {0}))
  wake_times zero w = (w, [])
  wake_times (suc n) w =
      let (w', res) = wake w in let (w'', later) = wake_times n w' in (w'', res ∷ later)
