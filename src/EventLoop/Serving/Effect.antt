-- ===== src/EventLoop/Serving/Effect.antt =====
-- `process_io` of src/event_loop.rs and what it calls, whatever the user's code and the operating
-- system do.
use rnet.Prelude.{
  ℕ, suc, ◌≡◌, refl, ap, sym, subst, Bool, true, false, ◌&&◌, ◌||◌, not, Option, none, some,
}
use rnet.Io.{Run, and_then}
use rnet.Connection.{Connection}
use rnet.Handler.{Keeps}
use rnet.EventLoop.{IoStatus, completed, yield, shutdown, closed, process_write}
use rnet.EventLoop.Batches.{process_write_lem}
use rnet.EventLoop.Reading.{process_read}
use rnet.EventLoop.Reading.Lending.{process_read-Keeps}
use rnet.EventLoop.Method.{Method, Ensures, weaken-Ensures}
use rnet.EventLoop.Closing.{rounds, close_connection}
use rnet.EventLoop.Closing.Effect.{rounds-enough, close_connection_lem}
use rnet.EventLoop.Closing.Watching.{reregister-IsValid}
use rnet.EventLoop.Closing.Drain.{ending-IsValid}
use rnet.EventLoop.Serving.{
  Event, rounds_at, put_back, after_read, read_back, read_socket, after_write, write_back,
  write_socket, when, process_io,
}
use rnet.EventLoop.Invariant.{Entry-at, put-Valid}
use rnet.EventLoop.Preserving.{IsValid, Preserves, then-Preserves, if-Preserves}
use rnet.Extern.Bytes.{BytesApi}
use rnet.Extern.Streams.{StreamApi}
use rnet.Extern.Channels.{ChannelApi}
use rnet.Extern.Polls.{PollApi, WakerApi}
use rnet.Extern.Slabs.{SlabApi}
use rnet.Extern.Listeners.{ListenerApi}
use rnet.Codec.{CodecApi}
use rnet.Command.{Command}
use rnet.Handler.{EventHandler}
use rnet.EventLoop.Handle.{Shared}
use rnet.EventLoop.State.{EventLoop}

module _ ⦃bytes : BytesApi⦄ ⦃streams : StreamApi⦄ ⦃codecs : CodecApi⦄
    ⦃channels : ChannelApi Command⦄ ⦃wakers : WakerApi⦄ ⦃polls : PollApi⦄
    ⦃slabs : SlabApi Connection⦄ ⦃listening : ListenerApi⦄ {U : Type 0}
    ⦃handler : EventHandler (Shared U)⦄ where
  after_read-IsValid :
      (key : ℕ) (status : IoStatus) (l : EventLoop U)
      → IsValid l
      → Ensures (λ l' r. IsValid l') (after_read key status l)
  unfolding after_read
  after_read-IsValid key (closed graceful) l v =
      weaken-Ensures _ _ (close_connection key graceful l) (λ l' r h. h.0)
        (close_connection_lem key graceful l v)
  after_read-IsValid key yield l v = v
  after_read-IsValid key completed l v = v
  after_read-IsValid key shutdown l v =
      weaken-Ensures _ _ (after_read key shutdown l) (λ l' r h. h.0) (ending-IsValid l v)

  after_write-IsValid :
      (key : ℕ) (status : IoStatus) (l : EventLoop U)
      → IsValid l
      → Ensures (λ l' r. IsValid l') (after_write key status l)
  unfolding after_write
  after_write-IsValid key (closed graceful) l v =
      weaken-Ensures _ _ (close_connection key graceful l) (λ l' r h. h.0)
        (close_connection_lem key graceful l v)
  after_write-IsValid key yield l v = v
  after_write-IsValid key completed l v = reregister-IsValid key l v
  after_write-IsValid key shutdown l v = v

  read_found-IsValid :
      (key : ℕ) (found : Option Connection) (l : EventLoop U)
      → IsValid l
      → slabs.get l.connections key ≡ found
      → Ensures
          (λ l' r. IsValid l')
          (let max = l.options.max_batch_size in
            and_then
              (process_read handler.on_traffic
                (suc max)
                max
                l.options.read_buffer_cap
                l.shared
                found)
              (read_back key l))
  unfolding read_back process_read
  read_found-IsValid key none l v at = after_read-IsValid key completed l v
  read_found-IsValid key (some c) l v at =
      let ((s, at_s), here, there) =
        Entry-at l.loop_id key (slabs.get l.connections key) at (v.entries key) in
      let max = l.options.max_batch_size in
      let (shared, c', status, e, k) =
        process_read-Keeps handler.on_traffic handler.on_traffic-Keeps max l.options.read_buffer_cap
          l.shared c s at_s in
      subst
        (λ (m : Run (Option (Shared U × Option Connection × IoStatus))).
          Ensures (λ l' r. IsValid l') (and_then m (read_back key l)))
        (sym e)
        (after_read-IsValid key status (put_back key (some c') (record l { shared = shared }))
          (put-Valid l.loop_id l.debug_assertions l.conn_count l.connections key c c' v at k))

  write_found-IsValid :
      (key : ℕ) (found : Option Connection) (l : EventLoop U)
      → IsValid l
      → slabs.get l.connections key ≡ found
      → Ensures
          (λ l' r. IsValid l')
          (and_then
            (process_write (rounds_at found) l.options.max_batch_size found)
            (write_back key l))
  unfolding write_back process_write
  write_found-IsValid key none l v at = after_write-IsValid key completed l v
  write_found-IsValid key (some c) l v at =
      let ((s, at_s), here, there) =
        Entry-at l.loop_id key (slabs.get l.connections key) at (v.entries key) in
      let (c', s', status, e, at_s', same_wire, reason, frame) =
        process_write_lem (rounds c) l.options.max_batch_size c s at_s (rounds-enough c s at_s) in
      let k : Keeps c c' = record {
        same_gfd = ap (λ (d : Connection). d.gfd) frame;
        open_still = λ t at_t. (s', at_s');
      } in
      subst
        (λ (m : Run (Option (Option Connection × IoStatus))).
          Ensures (λ l' r. IsValid l') (and_then m (write_back key l)))
        (sym e)
        (after_write-IsValid key status (put_back key (some c') l)
          (put-Valid l.loop_id l.debug_assertions l.conn_count l.connections key c c' v at k))

  pub read_socket-Preserves : (key : ℕ) → Preserves {U = U} (read_socket key)
  unfolding read_socket
  read_socket-Preserves key l v = read_found-IsValid key (slabs.get l.connections key) l v refl

  pub write_socket-Preserves : (key : ℕ) → Preserves {U = U} (write_socket key)
  unfolding write_socket
  write_socket-Preserves key l v = write_found-IsValid key (slabs.get l.connections key) l v refl

  pub close_connection-Preserves :
      (key : ℕ) (graceful : Bool) → Preserves {U = U} (close_connection key graceful)
  close_connection-Preserves key graceful l v =
      weaken-Ensures _ _ (close_connection key graceful l) (λ l' r h. h.0)
        (close_connection_lem key graceful l v)

  pub when-Preserves :
      (b : Bool) (m : Method (EventLoop U) (Unit {0})) → Preserves m → Preserves (when b m)
  when-Preserves true m keeps l v = keeps l v
  when-Preserves false m keeps l v = v

  -- Whatever a poll event says of a connection's socket, `process_io` does not panic, ends, and
  -- keeps the loop's invariant, with a handler that is lent its connections as src/connection.rs
  -- lends them.
  pub process_io-Preserves :
      (key : ℕ) (e : Event) (l : EventLoop U)
      → IsValid l
      → Ensures (λ l' r. IsValid l') (process_io key e l)
  unfolding process_io
  process_io-Preserves key e =
      if-Preserves ((e.is_error || e.is_read_closed) && (not e.is_readable && not e.is_writable))
        (close_connection key false) _ (close_connection-Preserves key false)
        (then-Preserves _ _
          (then-Preserves _ _
            (when-Preserves (e.is_error || e.is_writable) _ (write_socket-Preserves key))
            (when-Preserves (e.is_error || e.is_readable) _ (read_socket-Preserves key)))
          (reregister-IsValid key))
