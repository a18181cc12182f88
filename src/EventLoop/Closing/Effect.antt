-- ===== src/EventLoop/Closing/Effect.antt =====
-- `close_connection` of src/event_loop.rs, whatever the user's code and the operating system do.
use rnet.Prelude.{
  ℕ, ◌<◌, ◌≡◌, ◌≢◌, refl, ap, sym, ◌∙◌, subst, Bool, true, false, ◌∷◌, Option, none, some, arith,
}
use rnet.Io.{ErrorKind, IoResult, ok, err, Run, ret, and_then}
use rnet.Socket
use rnet.Socket.{Socket, interruptions}
use rnet.Connection.{Connection, chunks}
use rnet.Connection.Output.Flush.{work, flush-open}
use rnet.Handler.{Keeps, Keeps-eq, Keeps-trans}
use rnet.EventLoop.Method.{Ensures}
use rnet.EventLoop.Closing.{
  rounds, rounds_of, flushed_to, let_go, retire, unwatch, tell_close, close_found, close_connection,
}
use rnet.EventLoop.Invariant.{Valid, Entry-at, put-Valid, remove-Valid, found-ne-none}
use rnet.EventLoop.Preserving.{IsValid}
use rnet.Extern.Bytes.{BytesApi}
use rnet.Extern.Streams.{StreamApi}
use rnet.Extern.Channels.{ChannelApi}
use rnet.Extern.Polls.{PollApi, WakerApi}
use rnet.Extern.Slabs.{SlabApi, get-put_found, get-put_other, get-remove_same, get-remove_other}
use rnet.Extern.Listeners.{ListenerApi}
use rnet.Codec.{CodecApi}
use rnet.Command.{Command}
use rnet.Handler.{EventHandler}
use rnet.EventLoop.Handle.{Shared}
use rnet.EventLoop.State.{EventLoop}

module _ ⦃bytes : BytesApi⦄ ⦃streams : StreamApi⦄ ⦃codecs : CodecApi⦄ where
  pub rounds-enough :
      (c : Connection) (s : Socket) → c.socket ≡ some s → work s (chunks c.out_buffer) < rounds c
  rounds-enough c s at_s =
      subst
        (λ (o : Option Socket). work s (chunks c.out_buffer) < rounds_of o (chunks c.out_buffer))
        (sym at_s) (omega arith)

  -- Letting go of a connection that has a socket neither panics nor takes its socket.
  pub let_go-Keeps :
      (graceful : Bool) (c : Connection) (s : Socket)
      → c.socket ≡ some s
      → (c' : Connection) × (let_go graceful c ≡ ret c') × Keeps c c'
  unfolding let_go
  let_go-Keeps false c s at_s = (record c { out_buffer = none }, refl, Keeps-eq c _ refl refl)
  let_go-Keeps true c s at_s =
      let (c', r, e, same_gfd, still) = flush-open (rounds c) c s at_s (rounds-enough c s at_s) in
      (
        c',
        ap (λ (o : Run (Option (Connection × IoResult (Unit {0})))). and_then o flushed_to) e,
        record { same_gfd = same_gfd; open_still = λ t at_t. still },
      )

module _ ⦃bytes : BytesApi⦄ ⦃streams : StreamApi⦄ ⦃codecs : CodecApi⦄
    ⦃channels : ChannelApi Command⦄ ⦃wakers : WakerApi⦄ ⦃polls : PollApi⦄
    ⦃slabs : SlabApi Connection⦄ ⦃listening : ListenerApi⦄ {U : Type 0}
    ⦃handler : EventHandler (Shared U)⦄ where
  -- `on_close` was told of the entry under the key: `c` is what it left of it, and the shared state is
  -- what it left of that.
  abbrev pub Told : ℕ → EventLoop U → Shared U → Connection → Type 0
  Told key l shared c =
      (c0 : Connection) × (c1 : Connection) × (slabs.get l.connections key ≡ some c0)
      × Keeps c0 c1
      × (c ≡ (handler.on_close l.shared c1).1)
      × (shared ≡ (handler.on_close l.shared c1).0)

  -- The poll was asked to let go of the socket of `c`, and what it answered.
  abbrev pub LetsGo : EventLoop U → EventLoop U → Connection → IoResult (Unit {0}) → Type 0
  LetsGo l l' c answer =
      (s : Socket) × (c.socket ≡ some s)
      × ((polls.deregister l.poll (Socket.fd s)).1 ≡ answer)
      × (l'.poll ≡ (polls.deregister l.poll (Socket.fd s)).0)

  -- What the closing of an entry leaves. If there is none, nothing changes. Else the user's code is told,
  -- and the poll is asked to let go of the entry's socket. If it does, the entry is gone, and goes into
  -- the pool without its socket; if not, its error is returned, and the entry is there still, as the
  -- user's code left it. No other entry changes.
  pub data Closed (key : ℕ) (l : EventLoop U) (l' : EventLoop U) (r : IoResult (Unit {0}))
      : Type 0 where
    absent : slabs.get l.connections key ≡ none → l' ≡ l → r ≡ ok tt → Closed key l l' r
    gone :
        (c : Connection)
        → Told key l l'.shared c
        → LetsGo l l' c (ok tt)
        → r ≡ ok tt
        → slabs.get l'.connections key ≡ none
        → l'.connection_pool ≡ record c { socket = none } ∷ l.connection_pool
        → ((j : ℕ) → key ≢ j → slabs.get l'.connections j ≡ slabs.get l.connections j)
        → Closed key l l' r
    stuck :
        (c : Connection) {e : ErrorKind}
        → Told key l l'.shared c
        → LetsGo l l' c (err e)
        → r ≡ err e
        → slabs.get l'.connections key ≡ some c
        → ((j : ℕ) → key ≢ j → slabs.get l'.connections j ≡ slabs.get l.connections j)
        → Closed key l l' r

  -- The invariant holds afterwards too, and the listeners are as they were.
  abbrev pub After : ℕ → EventLoop U → EventLoop U → IoResult (Unit {0}) → Type 0
  After key l l' r = IsValid l' × (l'.listeners ≡ l.listeners) × Closed key l l' r

  -- The poll has answered, after the user's code changed the entry.
  unwatch-Closed :
      (key : ℕ) (c : Connection) (s : Socket) (l : EventLoop U) (shared : Shared U)
      (cs : slabs.Slab) (res : IoResult (Unit {0}))
      → c.socket ≡ some s
      → (polls.deregister l.poll (Socket.fd s)).1 ≡ res
      → Told key l shared c
      → Valid l.loop_id l.debug_assertions l.conn_count cs
      → slabs.get cs key ≡ some c
      → ((j : ℕ) → key ≢ j → slabs.get cs j ≡ slabs.get l.connections j)
      → Ensures
          (λ l' r. After key l l' r)
          (let l' = record l {
            shared = shared;
            connections = cs;
            poll = (polls.deregister l.poll (Socket.fd s)).0;
          } in
            elim res [ ok u ↦ ret (retire key c l', ok tt) | err e ↦ ret (l', err e) ])
  unfolding retire
  unwatch-Closed key c s l shared cs (ok u) at_s answered told v found others =
      let full = found-ne-none (slabs.get cs key) found in
      (
        remove-Valid l.loop_id l.debug_assertions l.conn_count cs key v full,
        refl,
        gone c told (s, at_s, answered, refl) refl (get-remove_same cs key full) refl
            (λ j other. get-remove_other cs key full j other ∙ others j other),
      )
  unwatch-Closed key c s l shared cs (err e) at_s answered told v found others =
      (v, refl, stuck c told (s, at_s, answered, refl) refl found others)

  tell_close-Closed :
      (key : ℕ) (c c0 : Connection) (s : Socket) (l : EventLoop U)
      → IsValid l
      → slabs.get l.connections key ≡ some c0
      → Keeps c0 c
      → c0.socket ≡ some s
      → Ensures (λ l' r. After key l l' r) (tell_close key c l)
  unfolding tell_close unwatch
  tell_close-Closed key c c0 s l v found k at_s =
      let full = found-ne-none (slabs.get l.connections key) found in
      let told = handler.on_close l.shared c in
      let kept = Keeps-trans c0 c told.1 k (handler.on_close-Keeps l.shared c) in
      let (t, at_t) = kept.open_still s at_s in
      let cs = slabs.put l.connections key told.1 in
      subst
        (λ (o : Option Socket).
          Ensures (λ l' r. After key l l' r)
            (unwatch key told.1 o (record l { shared = told.0; connections = cs })))
        (sym at_t)
        (unwatch-Closed key told.1 t l told.0 cs (polls.deregister l.poll (Socket.fd t)).1 at_t refl
          (c0, c, found, k, refl, refl)
          (put-Valid l.loop_id l.debug_assertions l.conn_count l.connections key c0 told.1 v found
            kept)
          (get-put_found l.connections key told.1 full)
          (get-put_other l.connections key told.1 full))

  close_found-Closed :
      (key : ℕ) (graceful : Bool) (l : EventLoop U) (o : Option Connection)
      → IsValid l
      → slabs.get l.connections key ≡ o
      → Ensures (λ l' r. After key l l' r) (close_found key graceful o l)
  unfolding close_found
  close_found-Closed key graceful l none v found = (v, refl, absent found refl refl)
  close_found-Closed key graceful l (some c) v found =
      let ((s, at_s), here, there) =
        Entry-at l.loop_id key (slabs.get l.connections key) found (v.entries key) in
      let (c', e, k) = let_go-Keeps graceful c s at_s in
      subst
        (λ (m : Run Connection).
          Ensures (λ l' r. After key l l' r) (and_then m (λ d. tell_close key d l)))
        (sym e) (tell_close-Closed key c' c s l v found k at_s)

  -- `close_connection` in a loop whose invariant holds, with a handler that leaves handle and socket
  -- to the connections that it is lent: it does not panic and keeps the invariant. If no entry is under
  -- the key, nothing changes. Else the poll is asked to let go of the socket that the entry has after
  -- `on_close`. If it does, the entry is gone and goes into the pool; if not, its error is returned and
  -- the entry is there still. No other entry changes.
  pub close_connection_lem :
      (key : ℕ) (graceful : Bool) (l : EventLoop U)
      → IsValid l
      → Ensures (λ l' r. After key l l' r) (close_connection key graceful l)
  unfolding close_connection
  close_connection_lem key graceful l v =
      close_found-Closed key graceful l (slabs.get l.connections key) v refl
