-- ===== src/EventLoop/Starting/Effect.antt =====
-- The loops that `new` and `build` of src/event_loop.rs make stand in a state where the invariant holds.
use rnet.Prelude.{
  ℕ, suc, ◌+◌, ◌%◌, ◌^◌, ◌≤◌, ◌<◌, ◌≡◌, refl, ap, sym, subst, Bool, true, false, List, [], ◌∷◌,
  length, arith,
}
use rnet.Io.{IoResult, ok, err, Run, ret, and_then}
use rnet.Poller.{listener_token, listener_token_start}
use rnet.Listener.{Listener}
use rnet.Options.{Options}
use rnet.Connection.{Connection}
use rnet.EventLoop.Method.{◌>>◌, Ensures}
use rnet.EventLoop.Starting.{
  made, new, with_listeners, watch_listener, watch_from, watch_some, build,
}
use rnet.EventLoop.Invariant.{Entry}
use rnet.EventLoop.Preserving.{IsValid, then-Preserves}
use rnet.Extern.Bytes.{BytesApi}
use rnet.Extern.Streams.{StreamApi}
use rnet.Extern.Channels.{ChannelApi}
use rnet.Extern.Polls.{PollApi, WakerApi}
use rnet.Extern.Slabs.{SlabApi}
use rnet.Extern.Listeners.{ListenerApi}
use rnet.Codec.{CodecApi}
use rnet.Command.{Command}
use rnet.EventLoop.State.{EventLoop}

listener_token-small :
    (overflow_checks : Bool) (i : ℕ)
    → i < 1024
    → listener_token overflow_checks i ≡ ret (listener_token_start + i)
unfolding listener_token
listener_token-small true i small = ground arith
listener_token-small false i small = ground arith

module _ ⦃bytes : BytesApi⦄ ⦃streams : StreamApi⦄ ⦃codecs : CodecApi⦄
    ⦃channels : ChannelApi Command⦄ ⦃wakers : WakerApi⦄ ⦃polls : PollApi⦄
    ⦃slabs : SlabApi Connection⦄ ⦃listening : ListenerApi⦄ {U : Type 0} where
  made-IsValid :
      (loop_id : ℕ) (options : Options) (user : U) (urgent common : channels.Channel) (mono_seq : ℕ)
      (poll : polls.Poll) (waker : wakers.MioWaker)
      → loop_id < 256
      → IsValid (made loop_id options user urgent common mono_seq false poll waker)
  unfolding made
  made-IsValid loop_id options user urgent common mono_seq poll waker small = record {
    counted = ap (λ (n : ℕ). n % 2 ^ 64) (sym slabs.len-empty);
    entries = λ key. subst (Entry loop_id key) (sym (slabs.get-empty key)) tt;
    small = small;
    release = refl;
  }

  watch_from-IsValid :
      (overflow_checks : Bool) (i : ℕ) (xs : List Listener) (l : EventLoop U)
      → i + length xs ≤ 1024
      → IsValid l
      → Ensures (λ l' r. IsValid l') (watch_from overflow_checks i xs l)
  unfolding watch_from watch_listener
  watch_from-IsValid overflow_checks i [] l fits v = v
  watch_from-IsValid overflow_checks i (x ∷ xs) l fits v =
      let later = watch_from overflow_checks (suc i) xs in
      subst
        (λ (token : Run ℕ).
          Ensures (λ l' r. IsValid l') (and_then token (λ t. (watch_listener x t >> later) l)))
        (sym (listener_token-small overflow_checks i (omega arith)))
        (then-Preserves (watch_listener x (listener_token_start + i)) later (λ m w. w)
          (λ m w. watch_from-IsValid overflow_checks (suc i) xs m (omega arith) w) l v)

  abbrev pub ValidIfOk : IoResult (EventLoop U) → Type 0
  ValidIfOk (ok l) = IsValid l
  ValidIfOk (err e) = Unit {0}

  -- A loop of a release build, of a number that fits `u8`, that `new` made: its invariant holds.
  pub new-IsValid :
      (loop_id : ℕ) (options : Options) (user : U) (urgent common : channels.Channel) (mono_seq : ℕ)
      (poll : IoResult polls.Poll) (waker : IoResult wakers.MioWaker)
      → loop_id < 256
      → ValidIfOk (new loop_id options user urgent common mono_seq false poll waker)
  unfolding new
  new-IsValid loop_id options user urgent common mono_seq (ok poll) (ok waker) small =
      made-IsValid loop_id options user urgent common mono_seq poll waker small
  new-IsValid loop_id options user urgent common mono_seq (ok poll) (err e) small = tt
  new-IsValid loop_id options user urgent common mono_seq (err e) waker small = tt

  pub build-IsValid :
      (overflow_checks : Bool) (xs : List Listener) (l : EventLoop U)
      → IsValid l
      → length xs ≤ 1024
      → Ensures (λ l' r. IsValid l') (build overflow_checks (with_listeners l xs))
  unfolding build watch_some with_listeners
  build-IsValid overflow_checks xs l v fits =
      watch_from-IsValid overflow_checks 0 xs (with_listeners l xs) (omega arith) v
