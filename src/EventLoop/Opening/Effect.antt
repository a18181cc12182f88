-- ===== src/EventLoop/Opening/Effect.antt =====
-- `register` of src/event_loop.rs, whatever the user's code and the operating system do.
use rnet.Prelude.{
  ℕ, ◌%◌, ◌^◌, ◌≡◌, ◌≢◌, refl, ap, ◌∙◌, Bool, true, false, List, [], ◌∷◌, Option, none, some, arith,
}
use rnet.Prelude.Int.{ℤ}
use rnet.Io.{ErrorKind, interrupted, IoResult, ok, err}
use rnet.Gfd
use rnet.Gfd.{Gfd, event_loop_index, slab_index}
use rnet.Gfd.Packing.{new_fields}
use rnet.Options.{Options, TcpSocketOpt, no_delay, delay}
use rnet.SocketAddr.{NetworkAddress}
use rnet.Socket
use rnet.Socket.{Socket}
use rnet.Connection
use rnet.Connection.{Connection, unread, unsent}
use rnet.Connection.Recycle.{reset_lem}
use rnet.Handler.{Action, no_action, close_it, shut_down}
use rnet.EventLoop.Method.{Ensures, weaken-Ensures, ◌>>◌, fails}
use rnet.EventLoop.Closing.{close_connection, shutdown}
use rnet.EventLoop.Closing.Effect.{Closed, absent, gone, stuck, close_connection_lem}
use rnet.EventLoop.Closing.Drain.{ending-IsValid}
use rnet.EventLoop.Opening.{prepared, obtain, admit, opened, introduce, after_watch, register}
use rnet.EventLoop.Invariant.{Stands, insert-Valid, found-ne-none}
use rnet.EventLoop.Preserving.{IsValid}
use rnet.Extern.Bytes.{BytesApi}
use rnet.Extern.Streams.{StreamApi}
use rnet.Extern.Channels.{ChannelApi}
use rnet.Extern.Polls.{PollApi, WakerApi}
use rnet.Extern.Slabs.{SlabApi}
use rnet.Extern.Listeners.{ListenerApi}
use rnet.Codec.{CodecApi}
use rnet.Command.{Command}
use rnet.Handler.{EventHandler}
use rnet.EventLoop.Handle.{Shared}
use rnet.EventLoop.State.{EventLoop}

made_in_release :
    (debug : Bool) (n : ℕ) (fd : ℤ) (m k : ℕ) → debug ≡ false → Gfd.new debug n fd m k ≢ none
unfolding Gfd.new
made_in_release debug n fd m k release e = ground arith

module _ ⦃bytes : BytesApi⦄ ⦃streams : StreamApi⦄ ⦃codecs : CodecApi⦄ where
  -- A connection of the pool is as good as a new one: it has the handle, the socket and the addresses,
  -- and nothing of the former peer is left in it.
  abbrev pub Stems : Gfd → Socket → NetworkAddress → NetworkAddress → Connection → Type 0
  Stems g s local_addr peer_addr c =
      (c.gfd ≡ g)
      × (c.socket ≡ some s)
      × (c.local_addr ≡ local_addr)
      × (c.peer_addr ≡ peer_addr)
      × (unread c ≡ [])
      × (unsent c ≡ [])

  obtain-Stems :
      (pool : List Connection) (g : Gfd) (s : Socket) (options : Options)
      (local_addr peer_addr : NetworkAddress) (handle : ℕ)
      → Stems g s local_addr peer_addr (obtain pool g s options local_addr peer_addr handle).0
  unfolding obtain Connection.new Connection.reset
  obtain-Stems [] g s options local_addr peer_addr handle = (refl, refl, refl, refl, refl, refl)
  obtain-Stems (c ∷ pool) g s options local_addr peer_addr handle =
      let (nothing_unread, nothing_unsent, rest) =
        reset_lem c g s options local_addr peer_addr handle in
      (refl, refl, refl, refl, nothing_unread, nothing_unsent)

  -- The socket, once Nagle's algorithm was turned off if the options ask for it.
  abbrev pub Readied : TcpSocketOpt → Socket → Socket → Type 0
  Readied no_delay socket s = s ≡ (Socket.set_nodelay socket true).0
  Readied delay socket s = s ≡ socket

  prepared-Readied : (o : TcpSocketOpt) (socket : Socket) → Readied o socket (prepared o socket)
  prepared-Readied no_delay socket = refl
  prepared-Readied delay socket = refl

module _ ⦃bytes : BytesApi⦄ ⦃streams : StreamApi⦄ ⦃codecs : CodecApi⦄
    ⦃channels : ChannelApi Command⦄ ⦃wakers : WakerApi⦄ ⦃polls : PollApi⦄
    ⦃slabs : SlabApi Connection⦄ ⦃listening : ListenerApi⦄ {U : Type 0}
    ⦃handler : EventHandler (Shared U)⦄ where
  -- What the poll answered to watching the socket under the vacant key.
  abbrev pub Watches : EventLoop U → Socket → IoResult (Unit {0}) → Type 0
  Watches l s answer =
      (polls.register l.poll (Socket.fd s) (slabs.vacant_key l.connections) false).1 ≡ answer

  -- The connection that `on_open` is shown: it is of that socket and those addresses, and its handle
  -- leads to the loop and the vacant key.
  abbrev pub Shown : EventLoop U → Socket → NetworkAddress → NetworkAddress → Connection → Type 0
  Shown l s local_addr peer_addr c =
      (g : Gfd) × (event_loop_index g ≡ l.loop_id)
      × (slab_index g ≡ slabs.vacant_key l.connections % 2 ^ 24)
      × Stems g s local_addr peer_addr c

  -- What `register` comes to: the poll refused the socket, whose error is returned, and no connection is
  -- new; or else the handler was shown the new connection, and as it answered: the connection, as the
  -- handler left it, is a new entry under the key that was vacant; or no connection is new; or the loop
  -- was shut down.
  pub data Registered (s : Socket) (local_addr peer_addr : NetworkAddress) (l : EventLoop U)
      (l' : EventLoop U) (r : IoResult (Unit {0})) : Type 0 where
    refused :
        {e : ErrorKind}
        → Watches l s (err e)
        → r ≡ err e
        → l'.connections ≡ l.connections
        → Registered s local_addr peer_addr l l' r
    let_in :
        (c : Connection)
        → Watches l s (ok tt)
        → Shown l s local_addr peer_addr c
        → (handler.on_open l.shared c).2 ≡ no_action
        → l'.connections ≡ slabs.insert l.connections (handler.on_open l.shared c).1
        → l'.shared ≡ (handler.on_open l.shared c).0
        → r ≡ ok tt
        → Registered s local_addr peer_addr l l' r
    turned_away :
        (c : Connection)
        → Watches l s (ok tt)
        → Shown l s local_addr peer_addr c
        → (handler.on_open l.shared c).2 ≡ close_it
        → ((key : ℕ) → slabs.get l'.connections key ≡ slabs.get l.connections key)
        → r ≡ ok tt
        → Registered s local_addr peer_addr l l' r
    ended :
        (c : Connection)
        → Watches l s (ok tt)
        → Shown l s local_addr peer_addr c
        → (handler.on_open l.shared c).2 ≡ shut_down
        → r ≡ err interrupted
        → Registered s local_addr peer_addr l l' r

  introduced-Stands :
      (c : Connection) (shared : Shared U) (g : Gfd) (s : Socket) (loop_id key : ℕ)
      → c.gfd ≡ g
      → c.socket ≡ some s
      → event_loop_index g ≡ loop_id
      → slab_index g ≡ key % 2 ^ 24
      → Stands loop_id key (handler.on_open shared c).1
  introduced-Stands c shared g s loop_id key same at_s here there =
      let k = handler.on_open-Keeps shared c in
      (
        k.open_still s at_s,
        ap event_loop_index (k.same_gfd ∙ same) ∙ here,
        ap slab_index (k.same_gfd ∙ same) ∙ there,
      )

  opened-Registered :
      (action : Action) (s : Socket) (local_addr peer_addr : NetworkAddress) (l : EventLoop U)
      (c : Connection) (m : EventLoop U)
      → Watches l s (ok tt)
      → Shown l s local_addr peer_addr c
      → (handler.on_open l.shared c).2 ≡ action
      → m.shared ≡ (handler.on_open l.shared c).0
      → m.connections ≡ l.connections
      → IsValid m
      → Stands m.loop_id (slabs.vacant_key m.connections) (handler.on_open l.shared c).1
      → Ensures
          (λ l' r. IsValid l' × Registered s local_addr peer_addr l l' r)
          (opened action (slabs.vacant_key m.connections) (handler.on_open l.shared c).1 m)
  unfolding opened admit
  opened-Registered no_action s local_addr peer_addr l c m watches shown asked told same v stands =
      (
        insert-Valid m.loop_id m.debug_assertions m.conn_count m.connections
            (handler.on_open l.shared c).1 v stands,
        let_in c watches shown asked
            (ap (λ (cs : slabs.Slab). slabs.insert cs (handler.on_open l.shared c).1) same) told
            refl,
      )
  opened-Registered close_it s local_addr peer_addr l c m watches shown asked told same v stands =
      weaken-Ensures _ _ (close_connection (slabs.vacant_key m.connections) true m)
        (λ l' r h. (h.0, closed_vacant l' r h.2))
        (close_connection_lem (slabs.vacant_key m.connections) true m v)
    where
      closed_vacant :
          (l' : EventLoop U) (r : IoResult (Unit {0}))
          → Closed (slabs.vacant_key m.connections) m l' r
          → Registered s local_addr peer_addr l l' r
      closed_vacant l' r (absent empty unchanged fine) =
          turned_away c watches shown asked
            (λ key.
              ap (λ (n : EventLoop U). slabs.get n.connections key) unchanged
              ∙ ap (λ (cs : slabs.Slab). slabs.get cs key) same)
            fine
      closed_vacant l' r
            (gone d (c0, c1, found, kept, left_by, shared) lets fine left pool others) =
          absurd (
            found-ne-none (slabs.get m.connections (slabs.vacant_key m.connections)) found
              (slabs.get-vacant_key m.connections))
      closed_vacant l' r (stuck d (c0, c1, found, kept, left_by, shared) lets fails left others) =
          absurd (
            found-ne-none (slabs.get m.connections (slabs.vacant_key m.connections)) found
              (slabs.get-vacant_key m.connections))
  opened-Registered shut_down s local_addr peer_addr l c m watches shown asked told same v stands =
      weaken-Ensures _ _ ((shutdown >> fails interrupted) m)
        (λ l' r h. (h.0, ended c watches shown asked h.1)) (ending-IsValid m v)

  introduce-Registered :
      (s : Socket) (local_addr peer_addr : NetworkAddress) (made : Option (Gfd × ℕ))
      (p : polls.Poll) (l : EventLoop U)
      → IsValid l
      → Watches l s (ok tt)
      → Gfd.new l.debug_assertions l.mono_seq
          (Socket.fd s)
          l.loop_id
          (slabs.vacant_key l.connections)
        ≡ made
      → Ensures
          (λ l' r. IsValid l' × Registered s local_addr peer_addr l l' r)
          (introduce s local_addr peer_addr
            (slabs.vacant_key l.connections)
            made
            (record l { poll = p }))
  unfolding introduce
  introduce-Registered s local_addr peer_addr none p l v watches e = absurd (
      made_in_release l.debug_assertions l.mono_seq (Socket.fd s) l.loop_id
        (slabs.vacant_key l.connections) v.release e)
  introduce-Registered s local_addr peer_addr (some (g, next)) p l v watches e =
      let (here, there, fd, seq, next_seq, fits, debugged) =
        new_fields l.debug_assertions l.mono_seq (Socket.fd s) l.loop_id
          (slabs.vacant_key l.connections) v.small e in
      let made = obtain l.connection_pool g s l.options local_addr peer_addr l.loop_id in
      let stems = obtain-Stems l.connection_pool g s l.options local_addr peer_addr l.loop_id in
      let told = handler.on_open l.shared made.0 in
      opened-Registered told.2 s local_addr peer_addr l made.0
        (record l { poll = p; shared = told.0; connection_pool = made.1; mono_seq = next }) watches
        (g, here, there, stems) refl refl refl v
        (introduced-Stands made.0 l.shared g s l.loop_id (slabs.vacant_key l.connections) stems.0
          stems.1 here there)

  -- `register` in a loop whose invariant holds, in a release build, with a handler that leaves handle and
  -- socket to the connections that it is lent: it does not panic and keeps the invariant. The poll is
  -- asked to watch the socket, whose Nagle's algorithm was turned off if the options ask for it, under
  -- the vacant key. If it refuses, its error is returned and no connection is new. Else `on_open` is
  -- shown a connection of that socket and those addresses, with a handle that leads to the loop and the
  -- key and with nothing unread or unsent; and as it answers, the connection, as it left it, is the only
  -- new entry, or no connection is new, or the loop ends.
  pub register_lem :
      (socket : Socket) (local_addr peer_addr : NetworkAddress) (l : EventLoop U)
      → IsValid l
      → (s : Socket) × Readied l.options.tcp_no_delay socket s
        × Ensures
            (λ l' r. IsValid l' × Registered s local_addr peer_addr l l' r)
            (register socket local_addr peer_addr l)
  unfolding register after_watch
  register_lem socket local_addr peer_addr l v =
      let s = prepared l.options.tcp_no_delay socket in
      let (p, res) = polls.register l.poll (Socket.fd s) (slabs.vacant_key l.connections) false in
      (s, prepared-Readied l.options.tcp_no_delay socket, after s p res refl)
    where
      after :
          (s : Socket) (p : polls.Poll) (res : IoResult (Unit {0}))
          → Watches l s res
          → Ensures
              (λ l' r. IsValid l' × Registered s local_addr peer_addr l l' r)
              (after_watch s local_addr peer_addr
                (slabs.vacant_key l.connections)
                res
                (record l { poll = p }))
      after s p (err e) watches = (v, refused watches refl refl)
      after s p (ok tt) watches = introduce-Registered s local_addr peer_addr _ p l v watches refl

  pub register-IsValid :
      (socket : Socket) (local_addr peer_addr : NetworkAddress) (l : EventLoop U)
      → IsValid l
      → Ensures (λ l' r. IsValid l') (register socket local_addr peer_addr l)
  register-IsValid socket local_addr peer_addr l v =
      weaken-Ensures _ _ (register socket local_addr peer_addr l) (λ l' r h. h.0)
        (register_lem socket local_addr peer_addr l v).2
