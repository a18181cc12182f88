-- ===== src/EventLoop/Reading/Rounds.antt =====
-- The rounds of `process_read` in src/event_loop.rs, as steps, and how it stops.
use rnet.Prelude.{ℕ, suc, ◌+◌, ◌≤◌, ◌≡◌, ap, true, false, List, [], ◌∷◌, some, length, leb}
use rnet.Io.{ErrorKind, IoResult, ok, err, ret, is_would_block}
use rnet.Extern.Bytes.{BytesApi}
use rnet.Extern.Streams.{StreamApi}
use rnet.Codec.{CodecApi}
use rnet.Socket
use rnet.Socket.{Socket}
use rnet.Connection.{Connection}
use rnet.EventLoop.{IoStatus, completed, yield, shutdown, closed}
use rnet.Handler.{Action, no_action, close_it, shut_down}
use rnet.EventLoop.Reading.{handed, settle, read_loop}

module _ ⦃bytes : BytesApi⦄ ⦃streams : StreamApi⦄ ⦃codecs : CodecApi⦄ where
  module _ {H : Type 0} (on_traffic : H → Connection → H × Connection × Action) where
    -- From a handler and a connection, by rounds that read so many bytes in all and handed each
    -- piece to the handler, who asked to go on.
    pub data Received (size : ℕ) : H → Connection → ℕ → H → Connection → Type 0 where
      nothing_read : {h : H} {c : Connection} → Received size h c 0 h c
      one_more :
          {h h' h'' : H} {c c' c'' : Connection} {s s' : Socket} {b : ℕ} {bs : List ℕ} {n : ℕ}
          → c.socket ≡ some s
          → Socket.read s size ≡ (s', ok (b ∷ bs))
          → on_traffic h (handed c s' (b ∷ bs)) ≡ (h', c', no_action)
          → Received size h' (settle c') n h'' c''
          → Received size h c (length (b ∷ bs) + n) h'' c''

    -- Why the loop stopped, at a handler and a connection, when so many bytes had been read, and
    -- what it left: the batch is full, or the socket had no more, had ended or failed, or the
    -- handler, who was given what was read, asked to close or to shut down.
    pub data Stops (max size n : ℕ) (h : H) (c : Connection)
        : H → Connection → IoStatus → Type 0 where
      batch_full : max ≤ n → Stops max size n h c h c yield
      would_wait :
          {s s' : Socket} {e : ErrorKind}
          → c.socket ≡ some s
          → Socket.read s size ≡ (s', err e)
          → is_would_block e ≡ true
          → Stops max size n h c h (record c { socket = some s' }) completed
      read_failed :
          {s s' : Socket} {e : ErrorKind}
          → c.socket ≡ some s
          → Socket.read s size ≡ (s', err e)
          → is_would_block e ≡ false
          → Stops max size n h c h (record c { socket = some s' }) (closed false)
      peer_ended :
          {s s' : Socket}
          → c.socket ≡ some s
          → Socket.read s size ≡ (s', ok [])
          → Stops max size n h c h (record c { socket = some s' }) (closed true)
      asked_close :
          {s s' : Socket} {b : ℕ} {bs : List ℕ} {h' : H} {c' : Connection}
          → c.socket ≡ some s
          → Socket.read s size ≡ (s', ok (b ∷ bs))
          → on_traffic h (handed c s' (b ∷ bs)) ≡ (h', c', close_it)
          → Stops max size n h c h' c' (closed true)
      asked_shutdown :
          {s s' : Socket} {b : ℕ} {bs : List ℕ} {h' : H} {c' : Connection}
          → c.socket ≡ some s
          → Socket.read s size ≡ (s', ok (b ∷ bs))
          → on_traffic h (handed c s' (b ∷ bs)) ≡ (h', c', shut_down)
          → Stops max size n h c h' c' shutdown

    -- The user's code never takes the socket away.
    abbrev pub KeepsSocket : Type 0
    KeepsSocket =
        (h : H) (c : Connection) (s : Socket)
        → c.socket ≡ some s
        → (s' : Socket) × ((on_traffic h c).1.socket ≡ some s')

    pub loop_full :
        (fuel max size n : ℕ) {h : H} {c : Connection}
        → leb max n ≡ true
        → read_loop on_traffic (suc fuel) max size n h c ≡ ret (some (h, c, yield))
    unfolding read_loop
    loop_full fuel max size n full = rw (read_loop, full)

    pub loop_waits :
        (fuel max size n : ℕ) {h : H} (c : Connection) {s s' : Socket} {k : ErrorKind}
        → leb max n ≡ false
        → c.socket ≡ some s
        → Socket.read s size ≡ (s', err k)
        → is_would_block k ≡ true
        → read_loop on_traffic (suc fuel) max size n h c
          ≡ ret (some (h, record c { socket = some s' }, completed))
    unfolding read_loop
    loop_waits fuel max size n c room at_s e blocks =
        rw (read_loop, room, at_s, e, blocks, ap (λ (w : Socket × IoResult (List ℕ)). w.0) e)

    pub loop_fails :
        (fuel max size n : ℕ) {h : H} (c : Connection) {s s' : Socket} {k : ErrorKind}
        → leb max n ≡ false
        → c.socket ≡ some s
        → Socket.read s size ≡ (s', err k)
        → is_would_block k ≡ false
        → read_loop on_traffic (suc fuel) max size n h c
          ≡ ret (some (h, record c { socket = some s' }, closed false))
    unfolding read_loop
    loop_fails fuel max size n c room at_s e goes =
        rw (read_loop, room, at_s, e, goes, ap (λ (w : Socket × IoResult (List ℕ)). w.0) e)

    pub loop_ends :
        (fuel max size n : ℕ) {h : H} (c : Connection) {s s' : Socket}
        → leb max n ≡ false
        → c.socket ≡ some s
        → Socket.read s size ≡ (s', ok [])
        → read_loop on_traffic (suc fuel) max size n h c
          ≡ ret (some (h, record c { socket = some s' }, closed true))
    unfolding read_loop
    loop_ends fuel max size n c room at_s e =
        rw (read_loop, room, at_s, e, ap (λ (w : Socket × IoResult (List ℕ)). w.0) e)

    pub loop_goes_on :
        (fuel max size n : ℕ) {h h' : H} (c c' : Connection) {s s' : Socket} {b : ℕ} {bs : List ℕ}
        → leb max n ≡ false
        → c.socket ≡ some s
        → Socket.read s size ≡ (s', ok (b ∷ bs))
        → on_traffic h (handed c s' (b ∷ bs)) ≡ (h', c', no_action)
        → read_loop on_traffic (suc fuel) max size n h c
          ≡ read_loop on_traffic fuel max size (n + length (b ∷ bs)) h' (settle c')
    unfolding read_loop
    loop_goes_on fuel max size n c c' room at_s e t = rw (
      read_loop,
      room,
      at_s,
      e,
      ap (λ (w : Socket × IoResult (List ℕ)). w.0) e,
      t,
      ap (λ (w : Socket × IoResult (List ℕ)). w.0) e,
      ap (λ (w : H × Connection × Action). w.0) t,
      ap (λ (w : H × Connection × Action). w.1) t,
    )

    pub loop_closes :
        (fuel max size n : ℕ) {h h' : H} (c c' : Connection) {s s' : Socket} {b : ℕ} {bs : List ℕ}
        → leb max n ≡ false
        → c.socket ≡ some s
        → Socket.read s size ≡ (s', ok (b ∷ bs))
        → on_traffic h (handed c s' (b ∷ bs)) ≡ (h', c', close_it)
        → read_loop on_traffic (suc fuel) max size n h c ≡ ret (some (h', c', closed true))
    unfolding read_loop
    loop_closes fuel max size n c c' room at_s e t = rw (
      read_loop,
      room,
      at_s,
      e,
      ap (λ (w : Socket × IoResult (List ℕ)). w.0) e,
      t,
      ap (λ (w : Socket × IoResult (List ℕ)). w.0) e,
      ap (λ (w : H × Connection × Action). w.0) t,
      ap (λ (w : H × Connection × Action). w.1) t,
    )

    pub loop_shuts_down :
        (fuel max size n : ℕ) {h h' : H} (c c' : Connection) {s s' : Socket} {b : ℕ} {bs : List ℕ}
        → leb max n ≡ false
        → c.socket ≡ some s
        → Socket.read s size ≡ (s', ok (b ∷ bs))
        → on_traffic h (handed c s' (b ∷ bs)) ≡ (h', c', shut_down)
        → read_loop on_traffic (suc fuel) max size n h c ≡ ret (some (h', c', shutdown))
    unfolding read_loop
    loop_shuts_down fuel max size n c c' room at_s e t = rw (
      read_loop,
      room,
      at_s,
      e,
      ap (λ (w : Socket × IoResult (List ℕ)). w.0) e,
      t,
      ap (λ (w : Socket × IoResult (List ℕ)). w.0) e,
      ap (λ (w : H × Connection × Action). w.0) t,
      ap (λ (w : H × Connection × Action). w.1) t,
    )
