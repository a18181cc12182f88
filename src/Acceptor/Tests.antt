-- ===== src/Acceptor/Tests.antt =====
-- Two connections wait at a listener, and two event loops serve them in turn.
use rnet.Prelude.{◌≡◌, ◌≢◌, refl, Bool, true, false, List, [], ◌∷◌, some, none, length, arith}
use rnet.Poller.{wake_token, listener_token_start, is_listener_token}
use rnet.Prelude.Int.{pos}
use rnet.Io.{IoResult, ok, err, ErrorKind, ret}
use rnet.Extern.Lists.{list_bytes}
use rnet.Extern.Script.{scripted_streams}
use rnet.Extern.Tables.{list_channel}
use rnet.Extern.Devices.{counting_waker, backlogs}
use rnet.Options.{default_options}
use rnet.SocketAddr.{NetworkAddress, v4}
use rnet.Socket.{Socket}
use rnet.Balancer.{rotating}
use rnet.Listener
use rnet.Listener.{Listener}
use rnet.Acceptor.{Worker, Acceptor, accept_all}
use rnet.Acceptor.Running.{Round, run_rounds}
use rnet.Acceptor.Running.Events.{of_listener, of_other, no_token}
use rnet.Acceptor.Running.Ending.{AllKnown, reported, failed, no_round, Answers, run_rounds_lem}
use rnet.Acceptor.Spread.{Accepts, SpreadOver, accept_all_lem}

abbrev here : NetworkAddress
here = NetworkAddress.tcp (record { ip = v4 0; port = 9000 })

abbrev door : Listener
door = record {
  inner = Listener.tcp (record {
    descriptor = pos 3;
    address = record { ip = v4 0; port = 9000 };
    waiting =
        (
          record { descriptor = pos 9; accepted = []; answers = []; arriving = [] },
          record { ip = v4 1; port = 4000 },
        )
        ∷ (
          record { descriptor = pos 10; accepted = []; answers = []; arriving = [] },
          record { ip = v4 2; port = 4000 },
        )
        ∷ [];
  });
  addr = here;
  options = default_options;
}

-- The second loop has gone.
abbrev two : List Worker
two =
    record {
      urgent_sender = record { items = []; connected = true };
      waker = record { waker = 0; awoken = false };
      conn_count = 4;
    }
    ∷ record {
      urgent_sender = record { items = []; connected = false };
      waker = record { waker = 0; awoken = true };
      conn_count = 5;
    }
    ∷ []

abbrev acceptor : Acceptor
acceptor = record {
  listeners = door ∷ [];
  workers = two;
  balancer = rotating 0;
  waker = record { waker = 0; awoken = false };
  is_running = true;
}

two-ne-nil : two ≢ []
two-ne-nil e = ground arith

accept_all_lem_example :
    (a' : Acceptor) × (x' : Listener) × (peers : List (Socket × NetworkAddress)) × (accept_all 3
        here acceptor door
      ≡ ret (a', x'))
    × Accepts door peers x'
    × SpreadOver here peers two a'.workers
accept_all_lem_example = accept_all_lem 3 here acceptor door two-ne-nil (omega arith)

-- The poll is interrupted, then reports the listener; while the acceptor waits for the third time it
-- is stopped.
abbrev three_rounds : List Round
three_rounds =
    record { stopped_before = false; stopped_meanwhile = false; polled = err ErrorKind.interrupted }
    ∷ record {
      stopped_before = false;
      stopped_meanwhile = false;
      polled = ok (listener_token_start ∷ []);
    }
    ∷ record { stopped_before = false; stopped_meanwhile = true; polled = ok (wake_token ∷ []) }
    ∷ []

first_token : is_listener_token listener_token_start ≡ some 0
unfolding is_listener_token
first_token = refl

no_listener : is_listener_token wake_token ≡ none
unfolding is_listener_token
no_listener = refl

three_rounds-AllKnown : AllKnown 1 three_rounds
three_rounds-AllKnown = failed ErrorKind.interrupted refl (
    reported (listener_token_start ∷ []) refl (of_listener first_token (omega arith) no_token)
      (reported (wake_token ∷ []) refl (of_other no_listener no_token) no_round))

run_rounds_lem_example :
    (a' : Acceptor) × (res : IoResult Bool) × (run_rounds three_rounds acceptor ≡ ret (a', res))
    × Answers true three_rounds res
    × (length a'.listeners ≡ 1)
    × (a'.workers ≢ [])
run_rounds_lem_example = run_rounds_lem three_rounds acceptor two-ne-nil three_rounds-AllKnown
