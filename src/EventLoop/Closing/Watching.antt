-- ===== src/EventLoop/Closing/Watching.antt =====
-- `reregister` of src/event_loop.rs needs the socket of each entry.
use rnet.Prelude.{ℕ, ◌≡◌, refl, sym, subst, Option, none, some}
use rnet.Socket.{Socket}
use rnet.Connection.{Connection, chunks}
use rnet.Connection.Output.{nonempty}
use rnet.EventLoop.Method.{Ensures, weaken-Ensures}
use rnet.EventLoop.Closing.{watch_socket, watch, reregister}
use rnet.EventLoop.Invariant.{Entry-at}
use rnet.EventLoop.Preserving.{IsValid}
use rnet.Extern.Bytes.{BytesApi}
use rnet.Extern.Streams.{StreamApi}
use rnet.Extern.Channels.{ChannelApi}
use rnet.Extern.Polls.{PollApi, WakerApi}
use rnet.Extern.Slabs.{SlabApi}
use rnet.Extern.Listeners.{ListenerApi}
use rnet.Codec.{CodecApi}
use rnet.Command.{Command}
use rnet.Handler.{EventHandler}
use rnet.EventLoop.Handle.{Shared}
use rnet.EventLoop.State.{EventLoop}

module _ ⦃bytes : BytesApi⦄ ⦃streams : StreamApi⦄ ⦃codecs : CodecApi⦄
    ⦃channels : ChannelApi Command⦄ ⦃wakers : WakerApi⦄ ⦃polls : PollApi⦄
    ⦃slabs : SlabApi Connection⦄ ⦃listening : ListenerApi⦄ {U : Type 0}
    ⦃handler : EventHandler (Shared U)⦄ where
  -- A poll's refusal is passed on, and no connection changes.
  watch-connections :
      (key : ℕ) (found : Option Connection) (l : EventLoop U)
      → IsValid l
      → slabs.get l.connections key ≡ found
      → Ensures (λ l' r. IsValid l' × (l'.connections ≡ l.connections)) (watch key found l)
  unfolding watch watch_socket
  watch-connections key none l v at = (v, refl)
  watch-connections key (some c) l v at =
      let ((s, at_s), here, there) =
        Entry-at l.loop_id key (slabs.get l.connections key) at (v.entries key) in
      subst
        (λ (o : Option Socket).
          Ensures (λ l' r. IsValid l' × (l'.connections ≡ l.connections))
            (watch_socket key (nonempty (chunks c.out_buffer)) o l))
        (sym at_s) (v, refl)

  reregister_lem :
      (key : ℕ) (l : EventLoop U)
      → IsValid l
      → Ensures (λ l' r. IsValid l' × (l'.connections ≡ l.connections)) (reregister key l)
  unfolding reregister
  reregister_lem key l v = watch-connections key (slabs.get l.connections key) l v refl

  pub reregister-IsValid :
      (key : ℕ) (l : EventLoop U) → IsValid l → Ensures (λ l' r. IsValid l') (reregister key l)
  reregister-IsValid key l v =
      weaken-Ensures _ _ (reregister key l) (λ l' r h. h.0) (reregister_lem key l v)

  pub reregister-connections :
      (key : ℕ) (l : EventLoop U)
      → IsValid l
      → Ensures (λ l' r. l'.connections ≡ l.connections) (reregister key l)
  reregister-connections key l v =
      weaken-Ensures _ _ (reregister key l) (λ l' r h. h.1) (reregister_lem key l v)
