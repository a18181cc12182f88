-- ===== src/EventLoop/Accepting.antt =====
-- `accept_process` of src/event_loop.rs. The listeners are taken out of the loop while they accept.
pub mod Effect
use rnet.Prelude.{ℕ, zero, suc, List, [], ◌∷◌, Option, none, some, get_elem?}
use rnet.Io.{IoResult, ok, err, Run, ret, panic}
use rnet.SocketAddr.{NetworkAddress}
use rnet.Socket.{Socket}
use rnet.Listener
use rnet.Listener.{Listener, pending}
use rnet.Connection.{Connection}
use rnet.EventLoop.Method.{Method, done, fails, ◌>>=◌, ◌>>◌}
use rnet.EventLoop.Opening.{register}
use rnet.Extern.Bytes.{BytesApi}
use rnet.Extern.Streams.{StreamApi}
use rnet.Extern.Channels.{ChannelApi}
use rnet.Extern.Polls.{PollApi, WakerApi}
use rnet.Extern.Slabs.{SlabApi}
use rnet.Extern.Listeners.{ListenerApi}
use rnet.Codec.{CodecApi}
use rnet.Command.{Command}
use rnet.Handler.{EventHandler}
use rnet.EventLoop.Handle.{Shared}
use rnet.EventLoop.State.{EventLoop}

-- What a slice is after a change of an item in place.
unfoldable pub set_nth {ℓ} : {A : Type ℓ} → List A → ℕ → A → List A
set_nth [] n y = []
set_nth (x ∷ xs) zero y = y ∷ xs
set_nth (x ∷ xs) (suc n) y = x ∷ set_nth xs n y

module _ ⦃bytes : BytesApi⦄ ⦃streams : StreamApi⦄ ⦃codecs : CodecApi⦄
    ⦃channels : ChannelApi Command⦄ ⦃wakers : WakerApi⦄ ⦃polls : PollApi⦄
    ⦃slabs : SlabApi Connection⦄ ⦃listening : ListenerApi⦄ {U : Type 0}
    ⦃handler : EventHandler (Shared U)⦄ where
  -- A method of the loop, beside a listener.
  abbrev pub carry :
      Listener
      → Run (EventLoop U × IoResult (Unit {0}))
      → Run ((EventLoop U × Listener) × IoResult (Unit {0}))
  carry x (ret (l, r)) = ret ((l, x), r)
  carry x panic = panic

  abbrev pub beside : Method (EventLoop U) (Unit {0}) → Method (EventLoop U × Listener) (Unit {0})
  beside m (l, x) = carry x (m l)

  -- The address that a new socket gets is its listener's.
  admit_from :
      IoResult NetworkAddress → Socket → NetworkAddress → Method (EventLoop U × Listener) (Unit {0})
  admit_from (err e) socket peer_addr = fails e
  admit_from (ok local_addr) socket peer_addr = beside (register socket local_addr peer_addr)

  -- An error ends the loop, be it that no connection waits or another, which is printed.
  after_accept :
      Method (EventLoop U × Listener) (Unit {0})
      → IoResult (Socket × NetworkAddress)
      → Method (EventLoop U × Listener) (Unit {0})
  after_accept later (err e) s = done s
  after_accept later (ok (socket, peer_addr)) (l, x) =
      (admit_from (Listener.local_addr x) socket peer_addr >> later) (l, x)

  unfoldable pub accept_loop : ℕ → Method (EventLoop U × Listener) (Unit {0})
  unfolding after_accept admit_from
  accept_loop zero s = panic
  accept_loop (suc fuel) (l, x) =
      let (x', res) = Listener.accept x in after_accept (accept_loop fuel) res (l, x')

  -- The listeners come back, the one that accepted as that left it.
  put_listeners :
      List Listener
      → ℕ
      → Run ((EventLoop U × Listener) × IoResult (Unit {0}))
      → Run (EventLoop U × IoResult (Unit {0}))
  put_listeners xs idx panic = panic
  put_listeners xs idx (ret ((l, x), r)) = ret (record l { listeners = some (set_nth xs idx x) }, r)

  accept_at : List Listener → ℕ → Option Listener → Method (EventLoop U) (Unit {0})
  accept_at xs idx none l = ret (record l { listeners = some xs }, ok tt)
  accept_at xs idx (some x) l = put_listeners xs idx (accept_loop (suc (pending x.inner)) (l, x))

  accept_taken : Option (List Listener) → ℕ → Method (EventLoop U) (Unit {0})
  accept_taken none idx = done
  accept_taken (some xs) idx = accept_at xs idx (get_elem? xs idx)

  unfoldable pub accept_process : ℕ → Method (EventLoop U) (Unit {0})
  unfolding accept_taken accept_at put_listeners
  accept_process idx l = accept_taken l.listeners idx (record l { listeners = none })
