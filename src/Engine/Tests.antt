-- ===== src/Engine/Tests.antt =====
-- An engine with two event loops.
use rnet.Prelude.{ℕ, ◌≡◌, refl, true, false, List, [], ◌∷◌, some, none, ◌+◌, ◌^◌, arith}
use rnet.Prelude.Int.{pos}
use rnet.Extern.Lists.{list_bytes}
use rnet.Extern.Script.{scripted_streams}
use rnet.Extern.Tables.{list_channel}
use rnet.Extern.Devices.{counting_waker, backlogs}
use rnet.Gfd
use rnet.Gfd.{Gfd}
use rnet.Command
use rnet.EventLoop.Handle.{Shared}
use rnet.Engine.{EngineHandler, send_command}
use rnet.Engine.Routing.{Reaches, send_command_lem}

abbrev idle : Shared ℕ
idle = record {
  user = 0;
  urgent = record { items = []; connected = true };
  common = record { items = []; connected = true };
  waker = record { waker = 0; awoken = false };
}

abbrev engine : EngineHandler ℕ
engine = record { acceptor = none; eventloops = some (idle ∷ idle ∷ []) }

-- What the second loop makes for its third slot.
abbrev second : Gfd
second = record { seq = 5; index_info = 2 ^ 24 + 2; fd = pos 7 }

send_command_lem_example :
    (loops' : List (Shared ℕ)) × ((send_command engine second Command.wake).eventloops
      ≡ some loops')
    × Reaches (idle ∷ idle ∷ []) loops' 1 Command.wake
unfolding Gfd.new Gfd.pack
send_command_lem_example =
    send_command_lem engine (idle ∷ idle ∷ []) idle false 5 (pos 7) 1 2 second 6 Command.wake refl
      refl (omega arith) refl
