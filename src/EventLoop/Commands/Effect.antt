-- ===== src/EventLoop/Commands/Effect.antt =====
-- `process_command` of src/event_loop.rs, whatever the commands, the user's code and the operating
-- system do.
use rnet.Prelude.{ℕ, zero, suc, ◌≡◌, refl, sym, subst, true, false, not, ◌==◌, Option, none, some}
use rnet.Io.{IoResult, ok, err, Run, and_then}
use rnet.Gfd
use rnet.Gfd.{Gfd, event_loop_index, slab_index}
use rnet.Connection.{Connection}
use rnet.Connection.Output.Keeping.{write-open}
use rnet.Handler.{Keeps}
use rnet.EventLoop.Method.{Method, Ensures, if-Ensures, weaken-Ensures}
use rnet.EventLoop.Closing.Watching.{reregister-IsValid}
use rnet.EventLoop.Closing.Drain.{ending-IsValid}
use rnet.EventLoop.Opening.Effect.{register-IsValid}
use rnet.EventLoop.Serving.Effect.{
  read_socket-Preserves, write_socket-Preserves, close_connection-Preserves,
}
use rnet.EventLoop.Commands.{
  max_async_task_one_time, answered, write_to, async_write, wake_self, run_command, run_next,
  process_commands, process_command,
}
use rnet.EventLoop.Invariant.{Entry-at, put-Valid}
use rnet.EventLoop.Preserving.{IsValid, Preserves, then-Preserves}
use rnet.Extern.Bytes.{BytesApi}
use rnet.Extern.Streams.{StreamApi}
use rnet.Extern.Channels.{ChannelApi}
use rnet.Extern.Polls.{PollApi, WakerApi}
use rnet.Extern.Slabs.{SlabApi}
use rnet.Extern.Listeners.{ListenerApi}
use rnet.Codec.{CodecApi}
use rnet.Command.{Command}
use rnet.Handler.{EventHandler}
use rnet.EventLoop.Handle.{Shared, next_command}
use rnet.EventLoop.State.{EventLoop}

module _ ⦃bytes : BytesApi⦄ ⦃streams : StreamApi⦄ ⦃codecs : CodecApi⦄
    ⦃channels : ChannelApi Command⦄ ⦃wakers : WakerApi⦄ ⦃polls : PollApi⦄
    ⦃slabs : SlabApi Connection⦄ ⦃listening : ListenerApi⦄ {U : Type 0}
    ⦃handler : EventHandler (Shared U)⦄ where
  open bytes use {Bytes, chunk}

  answered-Preserves : (token : ℕ) (res : IoResult ℕ) → Preserves {U = U} (answered token res)
  unfolding answered
  answered-Preserves token (ok n) = reregister-IsValid token
  answered-Preserves token (err e) = close_connection-Preserves token false

  write_to-IsValid :
      (g : Gfd) (d : Bytes) (found : Option Connection) (l : EventLoop U)
      → IsValid l
      → slabs.get l.connections (slab_index g) ≡ found
      → Ensures (λ l' r. IsValid l') (write_to g d found l)
  unfolding write_to
  write_to-IsValid g d none l v at = v
  write_to-IsValid g d (some c) l v at =
      let key = slab_index g in
      let ((s, at_s), here, there) =
        Entry-at l.loop_id key (slabs.get l.connections key) at (v.entries key) in
      let (c', res, e, same_gfd, still) = write-open c s (chunk d) at_s in
      let k : Keeps c c' = record { same_gfd = same_gfd; open_still = λ t at_t. still } in
      let next : Connection × IoResult ℕ → Run (EventLoop U × IoResult (Unit {0})) =
        λ w. answered key w.1 (record l { connections = slabs.put l.connections key w.0 }) in
      if-Ensures _ _ _ (not (Gfd.eq c.gfd g)) v (
        subst
          (λ (m : Run (Connection × IoResult ℕ)). Ensures (λ l' r. IsValid l') (and_then m next))
          (sym e)
          (answered-Preserves key res (record l { connections = slabs.put l.connections key c' })
            (put-Valid l.loop_id l.debug_assertions l.conn_count l.connections key c c' v at k)))

  async_write-Preserves : (g : Gfd) (d : Bytes) → Preserves {U = U} (async_write g d)
  unfolding async_write
  async_write-Preserves g d l v =
      if-Ensures _ _ _ (not (event_loop_index g == l.loop_id)) v
        (write_to-IsValid g d (slabs.get l.connections (slab_index g)) l v refl)

  run_command-Preserves : (command : Command) → Preserves {U = U} (run_command command)
  unfolding run_command wake_self
  run_command-Preserves Command.none l v = v
  run_command-Preserves (Command.async_write g d) l v = async_write-Preserves g d l v
  run_command-Preserves (Command.register s local_addr peer_addr) l v =
      register-IsValid s local_addr peer_addr l v
  run_command-Preserves (Command.close key) l v = close_connection-Preserves key true l v
  run_command-Preserves (Command.read key) l v = read_socket-Preserves key l v
  run_command-Preserves (Command.write key) l v = write_socket-Preserves key l v
  run_command-Preserves Command.wake l v = v
  run_command-Preserves Command.shutdown l v =
      weaken-Ensures _ _ (run_command Command.shutdown l) (λ l' r h. h.0) (ending-IsValid l v)

  run_next-Preserves :
      (next : Option Command) (later : Method (EventLoop U) (Unit {0}))
      → Preserves later
      → Preserves (run_next next later)
  unfolding run_next
  run_next-Preserves none later keeps l v = v
  run_next-Preserves (some command) later keeps l v =
      then-Preserves (run_command command) later (run_command-Preserves command) keeps l v

  process_commands-Preserves : (n : ℕ) → Preserves {U = U} (process_commands n)
  unfolding process_commands
  process_commands-Preserves zero l v = v
  process_commands-Preserves (suc n) l v =
      let (shared, command) = next_command l.shared in
      run_next-Preserves command (process_commands n) (process_commands-Preserves n)
        (record l { shared = shared }) v

  -- Whatever stands in the two queues, `process_command` does not panic, ends, and keeps the loop's
  -- invariant, with a handler that is lent its connections as src/connection.rs lends them.
  pub process_command-Preserves :
      (l : EventLoop U) → IsValid l → Ensures (λ l' r. IsValid l') (process_command l)
  unfolding process_command
  process_command-Preserves = process_commands-Preserves max_async_task_one_time
