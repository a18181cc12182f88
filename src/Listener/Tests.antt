-- ===== src/Listener/Tests.antt =====
-- A listener on a Unix path, with the options that the program starts from.
use rnet.Prelude.{ℕ, refl, true, List, [], ◌∷◌, some, none}
use rnet.Prelude.Int.{pos}
use rnet.Extern.Lists.{list_bytes}
use rnet.Extern.Script.{scripted_streams}
use rnet.Extern.Devices.{backlogs, recorded_calls}
use rnet.Extern.Sockets.{Call}
use rnet.Options.{default_options}
use rnet.SocketAddr.{unix}
use rnet.Listener
use rnet.Listener.{Listener}
use rnet.Listener.Binding.{
  bind, perform, configure_socket, unix_calls, create_mio_unix_listener, get_max_listen_backlog,
}
use rnet.Listener.Binding.Order.{OnSocket, Ready, bind_lem}

abbrev path : List ℕ
path = 47 ∷ 115 ∷ []

abbrev bound : Listener
bound = record {
  inner = Listener.unix (record { descriptor = pos 3; address = none; waiting = [] });
  addr = unix path;
  options = default_options;
}

bind_lem_example :
    (s : List Call) × OnSocket (unix path) bound.inner s
    × Ready default_options (get_max_listen_backlog (some (pos 4096))) (unix path) s
unfolding bind create_mio_unix_listener perform configure_socket unix_calls
bind_lem_example = bind_lem true (some (pos 4096)) (unix path) default_options bound refl
