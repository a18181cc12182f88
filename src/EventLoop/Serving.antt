-- ===== src/EventLoop/Serving.antt =====
-- `read_socket`, `write_socket` and `process_io` of src/event_loop.rs: what a poll event leads to.
pub mod Effect
use rnet.Prelude.{
  ℕ, suc, Bool, true, false, ◌&&◌, ◌||◌, not, List, Option, none, some, if◌then◌else◌,
}
use rnet.Io.{ErrorKind, interrupted, IoResult, ok, err, Run, ret, panic, and_then}
use rnet.Connection.{Connection}
use rnet.Command
use rnet.Command.{Priority, high}
use rnet.EventLoop.{IoStatus, completed, yield, shutdown, closed, process_write}
use rnet.EventLoop.Reading.{process_read}
use rnet.EventLoop.Handle.{trigger}
use rnet.EventLoop.Method.{Method, done, fails, ◌>>=◌, ◌>>◌}
use rnet.EventLoop.Closing
use rnet.EventLoop.Closing.{rounds, reregister, close_connection}
use rnet.Extern.Bytes.{BytesApi}
use rnet.Extern.Streams.{StreamApi}
use rnet.Extern.Channels.{ChannelApi}
use rnet.Extern.Polls.{PollApi, WakerApi}
use rnet.Extern.Slabs.{SlabApi}
use rnet.Extern.Listeners.{ListenerApi}
use rnet.Codec.{CodecApi}
use rnet.Command.{Command}
use rnet.Handler.{EventHandler}
use rnet.EventLoop.Handle.{Shared}
use rnet.EventLoop.State.{EventLoop}

-- The readiness of a `mio` event.
pub record Event : Type 0 where
  pub is_readable : Bool
  pub is_writable : Bool
  pub is_error : Bool
  pub is_read_closed : Bool

module _ ⦃bytes : BytesApi⦄ ⦃streams : StreamApi⦄ ⦃codecs : CodecApi⦄ where
  -- How many rounds of writing are enough, by `process_write_lem`.
  abbrev pub rounds_at : Option Connection → ℕ
  rounds_at none = 0
  rounds_at (some c) = rounds c

module _ ⦃bytes : BytesApi⦄ ⦃streams : StreamApi⦄ ⦃codecs : CodecApi⦄
    ⦃channels : ChannelApi Command⦄ ⦃wakers : WakerApi⦄ ⦃polls : PollApi⦄
    ⦃slabs : SlabApi Connection⦄ ⦃listening : ListenerApi⦄ {U : Type 0}
    ⦃handler : EventHandler (Shared U)⦄ where
  -- The connection goes back to the slab.
  abbrev pub put_back : ℕ → Option Connection → EventLoop U → EventLoop U
  put_back key none l = l
  put_back key (some c) l = record l { connections = slabs.put l.connections key c }

  -- `let _ = self.trigger(Prioity::High, command);`
  abbrev pub post : Command → Method (EventLoop U) (Unit {0})
  post command l = ret (record l { shared = (trigger l.shared high command).0 }, ok tt)

  after_read : ℕ → IoStatus → Method (EventLoop U) (Unit {0})
  after_read key (closed graceful) = close_connection key graceful
  after_read key yield = post (Command.read key)
  after_read key completed = done
  after_read key shutdown = Closing.shutdown >> fails interrupted

  read_back :
      ℕ
      → EventLoop U
      → Option (Shared U × Option Connection × IoStatus)
      → Run (EventLoop U × IoResult (Unit {0}))
  read_back key l none = panic
  read_back key l (some (shared, c, status)) =
      after_read key status (put_back key c (record l { shared = shared }))

  -- One round more than the bytes of a batch is enough, by `process_read_lem`.
  unfoldable pub read_socket : ℕ → Method (EventLoop U) (Unit {0})
  unfolding read_back after_read
  read_socket key l =
      let max = l.options.max_batch_size in
      and_then
        (process_read handler.on_traffic (suc max) max l.options.read_buffer_cap l.shared
          (slabs.get l.connections key))
        (read_back key l)

  after_write : ℕ → IoStatus → Method (EventLoop U) (Unit {0})
  after_write key (closed graceful) = close_connection key graceful
  after_write key yield = post (Command.write key)
  after_write key completed = reregister key
  after_write key shutdown = post Command.shutdown

  write_back :
      ℕ
      → EventLoop U
      → Option (Option Connection × IoStatus)
      → Run (EventLoop U × IoResult (Unit {0}))
  write_back key l none = panic
  write_back key l (some (c, status)) = after_write key status (put_back key c l)

  unfoldable pub write_socket : ℕ → Method (EventLoop U) (Unit {0})
  unfolding write_back after_write
  write_socket key l =
      let found = slabs.get l.connections key in
      and_then (process_write (rounds_at found) l.options.max_batch_size found) (write_back key l)

  abbrev pub when : Bool → Method (EventLoop U) (Unit {0}) → Method (EventLoop U) (Unit {0})
  when true m = m
  when false m = done

  unfoldable pub process_io : ℕ → Event → Method (EventLoop U) (Unit {0})
  process_io key e =
      if (e.is_error || e.is_read_closed) && (not e.is_readable && not e.is_writable)
      then close_connection key false
      else when (e.is_error || e.is_writable) (write_socket key)
        >> when (e.is_error || e.is_readable) (read_socket key)
        >> reregister key
