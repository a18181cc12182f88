-- ===== src/EventLoop/Preserving.antt =====
-- The methods of an event loop of src/event_loop.rs that end without a panic and keep its invariant.
use rnet.Prelude.{Bool, true, false, if◌then◌else◌}
use rnet.Connection.{Connection}
use rnet.EventLoop.Method.{Method, ◌>>=◌, ◌>>◌, Ensures, continue-Ensures}
use rnet.EventLoop.Invariant.{Valid}
use rnet.Extern.Bytes.{BytesApi}
use rnet.Extern.Streams.{StreamApi}
use rnet.Extern.Channels.{ChannelApi}
use rnet.Extern.Polls.{PollApi, WakerApi}
use rnet.Extern.Slabs.{SlabApi}
use rnet.Extern.Listeners.{ListenerApi}
use rnet.Codec.{CodecApi}
use rnet.Command.{Command}
use rnet.EventLoop.State.{EventLoop}

module _ ⦃bytes : BytesApi⦄ ⦃streams : StreamApi⦄ ⦃codecs : CodecApi⦄
    ⦃channels : ChannelApi Command⦄ ⦃wakers : WakerApi⦄ ⦃polls : PollApi⦄
    ⦃slabs : SlabApi Connection⦄ ⦃listening : ListenerApi⦄ {U : Type 0} where
  -- The loop's invariant holds of it.
  abbrev pub IsValid : EventLoop U → Type 0
  IsValid l = Valid l.loop_id l.debug_assertions l.conn_count l.connections

  abbrev pub Preserves : {A : Type 0} → Method (EventLoop U) A → Type 0
  Preserves m = (l : EventLoop U) → IsValid l → Ensures (λ l' r. IsValid l') (m l)

  pub bind-Preserves :
      {A B : Type 0} (m : Method (EventLoop U) A) (k : A → Method (EventLoop U) B)
      → Preserves m
      → ((a : A) → Preserves (k a))
      → Preserves (m >>= k)
  bind-Preserves m k first next l v =
      continue-Ensures (λ l' r. IsValid l') _ k (m l) (λ l' a v'. next a l' v') (λ l' e v'. v')
        (first l v)

  pub then-Preserves :
      {B : Type 0} (m : Method (EventLoop U) (Unit {0})) (k : Method (EventLoop U) B)
      → Preserves m
      → Preserves k
      → Preserves (m >> k)
  then-Preserves m k first next = bind-Preserves m (λ u. k) first (λ u. next)

  pub if-Preserves :
      {A : Type 0} (b : Bool) (m k : Method (EventLoop U) A)
      → Preserves m
      → Preserves k
      → Preserves (if b then m else k)
  if-Preserves true m k fits fails l v = fits l v
  if-Preserves false m k fits fails l v = fails l v
