-- ===== src/EventLoop/Commands.antt =====
-- `process_command` of src/event_loop.rs: a batch of commands, the urgent ones first.
pub mod Effect
pub mod Addressing
use rnet.Prelude.{
  ℕ, zero, suc, Bool, true, false, ◌==◌, not, List, Option, none, some, if◌then◌else◌,
}
use rnet.Io.{ErrorKind, interrupted, IoResult, ok, err, Run, ret, panic, and_then}
use rnet.Gfd
use rnet.Gfd.{Gfd, event_loop_index, slab_index}
use rnet.Poller
use rnet.Connection.{Connection}
use rnet.Connection.Output
use rnet.Command
use rnet.EventLoop.Method.{Method, done, fails, ◌>>=◌, ◌>>◌}
use rnet.EventLoop.Closing.{reregister, close_connection, shutdown}
use rnet.EventLoop.Opening.{register}
use rnet.EventLoop.Serving.{read_socket, write_socket}
use rnet.Extern.Bytes.{BytesApi}
use rnet.Extern.Streams.{StreamApi}
use rnet.Extern.Channels.{ChannelApi}
use rnet.Extern.Polls.{PollApi, WakerApi}
use rnet.Extern.Slabs.{SlabApi}
use rnet.Extern.Listeners.{ListenerApi}
use rnet.Codec.{CodecApi}
use rnet.Command.{Command}
use rnet.Handler.{EventHandler}
use rnet.EventLoop.Handle.{Shared, next_command}
use rnet.EventLoop.State.{EventLoop}

abbrev pub max_async_task_one_time : ℕ
max_async_task_one_time = 256

module _ ⦃bytes : BytesApi⦄ ⦃streams : StreamApi⦄ ⦃codecs : CodecApi⦄
    ⦃channels : ChannelApi Command⦄ ⦃wakers : WakerApi⦄ ⦃polls : PollApi⦄
    ⦃slabs : SlabApi Connection⦄ ⦃listening : ListenerApi⦄ {U : Type 0}
    ⦃handler : EventHandler (Shared U)⦄ where
  open bytes use {Bytes, chunk}

  answered : ℕ → IoResult ℕ → Method (EventLoop U) (Unit {0})
  answered token (err e) = close_connection token false
  answered token (ok n) = reregister token

  -- The connection under the handle's index, if it is still that of the handle.
  write_to : Gfd → Bytes → Option Connection → Method (EventLoop U) (Unit {0})
  write_to g d none l = done l
  write_to g d (some c) l =
      if not (Gfd.eq c.gfd g)
      then done l
      else and_then (Output.write c (chunk d)) (λ (c', res).
        answered (slab_index g) res
          (record l { connections = slabs.put l.connections (slab_index g) c' }))

  unfoldable pub async_write : Gfd → Bytes → Method (EventLoop U) (Unit {0})
  unfolding write_to answered
  async_write g d l =
      if not (event_loop_index g == l.loop_id)
      then done l
      else write_to g d (slabs.get l.connections (slab_index g)) l

  -- `self.handle.waker.wake()?`.
  wake_self : Method (EventLoop U) (Unit {0})
  wake_self l =
      let (w, res) = Poller.wake wakers.inner_wake l.shared.waker in
      ret (record l { shared = record l.shared { waker = w } }, res)

  unfoldable pub run_command : Command → Method (EventLoop U) (Unit {0})
  unfolding async_write wake_self
  run_command Command.none = done
  run_command (Command.async_write g d) = async_write g d
  run_command (Command.register s local_addr peer_addr) = register s local_addr peer_addr
  run_command (Command.close key) = close_connection key true
  run_command (Command.read key) = read_socket key
  run_command (Command.write key) = write_socket key
  run_command Command.wake = wake_self
  run_command Command.shutdown = shutdown >> fails interrupted

  run_next : Option Command → Method (EventLoop U) (Unit {0}) → Method (EventLoop U) (Unit {0})
  run_next none later = done
  run_next (some command) later = run_command command >> later

  -- `for _ in 0..n`.
  unfoldable pub process_commands : ℕ → Method (EventLoop U) (Unit {0})
  unfolding run_next
  process_commands zero l = done l
  process_commands (suc n) l =
      let (shared, command) = next_command l.shared in
      run_next command (process_commands n) (record l { shared = shared })

  unfoldable pub process_command : Method (EventLoop U) (Unit {0})
  process_command = process_commands max_async_task_one_time
