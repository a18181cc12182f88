-- ===== src/Engine.antt =====
-- src/engine.rs: the builder, and the handle by which the user's code reaches the event loops. What
-- the handler's `init` returns is an argument; the threads are not modelled.
pub mod Routing
mod Tests
use rnet.Prelude.{
  ℕ, zero, suc, Bool, true, false, List, [], ◌∷◌, Option, none, some, map, get_elem?, if◌then◌else◌,
}
use rnet.Io.{other, IoResult, ok, err, Run, ret, panic, unwrap, ◌>>=◌}
use rnet.Extern.Bytes.{BytesApi}
use rnet.Extern.Streams.{StreamApi}
use rnet.Extern.Channels.{ChannelApi}
use rnet.Extern.Polls.{WakerApi}
use rnet.Extern.Listeners.{ListenerApi}
use rnet.SocketAddr.{NetworkAddress}
use rnet.Options.{Options}
use rnet.Balancer
use rnet.Balancer.{Balancer}
use rnet.Command.{Command, priority}
use rnet.Gfd.{Gfd, event_loop_index}
use rnet.Handler.{Action, no_action, close_it, shut_down}
use rnet.Acceptor.{Acceptor, stop}
use rnet.EventLoop.Accepting.{set_nth}
use rnet.EventLoop.Handle.{Shared, trigger, request_shutdown}

pub record EngineBuilder : Type 0 where
  pub addrs : Option (List NetworkAddress)
  pub lb_policy : Option Balancer

unfoldable pub builder : EngineBuilder
builder = record { addrs = none; lb_policy = none }

unfoldable pub address : EngineBuilder → List NetworkAddress → EngineBuilder
address b addrs = record b { addrs = some addrs }

unfoldable pub load_balancer : EngineBuilder → Balancer → EngineBuilder
load_balancer b lb = record b { lb_policy = some lb }

pub record Engine (H : Type 0) : Type 0 where
  pub handler : Option H
  pub addresses : List NetworkAddress
  pub options : Options
  pub lb_policy : Option Balancer

-- With `reuse_port` the kernel balances.
abbrev pub policy : Options → Run (Option Balancer)
policy options =
    if options.reuse_port then ret none else (Balancer.new options.lb >>= λ lb. ret (some lb))

module _ {H : Type 0} where
  -- A builder without addresses panics.
  built : EngineBuilder → Options → H → Run (IoResult (Engine H))
  built b options handler = do
    lb_policy ← policy options
    addrs ← unwrap b.addrs
    ret (
        ok (record {
          handler = some handler;
          addresses = addrs;
          options = options;
          lb_policy = lb_policy;
        }))

  unfoldable pub build : EngineBuilder → Options → H × Action → Run (IoResult (Engine H))
  unfolding built
  build b options (handler, shut_down) = ret (err other)
  build b options (handler, no_action) = built b options handler
  build b options (handler, close_it) = built b options handler

-- `OnceLock::set`, whose refusal is dropped.
abbrev pub set_once {ℓ} : {A : Type ℓ} → Option A → A → Option A
set_once none a = some a
set_once (some b) a = some b

module _ ⦃bytes : BytesApi⦄ ⦃streams : StreamApi⦄ ⦃channels : ChannelApi Command⦄
    ⦃wakers : WakerApi⦄ ⦃listening : ListenerApi⦄ where
  pub record EngineHandler (U : Type 0) : Type 0 where
    pub acceptor : Option Acceptor
    pub eventloops : Option (List (Shared U))

  abbrev pub stopped : Option Acceptor → Option Acceptor
  stopped none = none
  stopped (some a) = some (stop a)

  module _ {U : Type 0} where
    unfoldable pub new : EngineHandler U
    new = record { acceptor = none; eventloops = none }

    unfoldable pub set_acceptor : EngineHandler U → Acceptor → EngineHandler U
    set_acceptor h a = record h { acceptor = set_once h.acceptor a }

    unfoldable pub set_workers : EngineHandler U → List (Shared U) → EngineHandler U
    set_workers h loops = record h { eventloops = set_once h.eventloops loops }

    -- The loop that the handle names, if there is one, gets the command.
    abbrev pub triggered : List (Shared U) → ℕ → Option (Shared U) → Command → List (Shared U)
    triggered loops idx none command = loops
    triggered loops idx (some l) command =
        set_nth loops idx (trigger l (priority command) command).0

    abbrev pub send_some : Option (List (Shared U)) → Gfd → Command → Option (List (Shared U))
    send_some none g command = none
    send_some (some loops) g command =
        let idx = event_loop_index g in some (triggered loops idx (get_elem? loops idx) command)

    unfoldable pub send_command : EngineHandler U → Gfd → Command → EngineHandler U
    send_command h g command = record h { eventloops = send_some h.eventloops g command }

    abbrev pub shut_all : Option (List (Shared U)) → Option (List (Shared U))
    shut_all none = none
    shut_all (some loops) = some (map request_shutdown loops)

    -- The acceptor first, then the loops.
    unfoldable pub shutdown : EngineHandler U → EngineHandler U
    shutdown h = record h { acceptor = stopped h.acceptor; eventloops = shut_all h.eventloops }
