-- ===== src/Extern/Devices.antt =====
-- Concrete polls, wakers, listeners and sockets, for the tests: the laws of Extern/Polls, Listeners
-- and Sockets can be met.
use rnet.Prelude.{
  ltb, length, ℕ, suc, ◌<◌, ◌≡◌, refl, Bool, List, [], ◌∷◌, ◌++◌, Option, none, some, length,
  if◌then◌else◌, arith,
}
use rnet.Prelude.Int.{ℤ, pos, eq_ℤ}
use rnet.Io.{invalid_input, would_block, os_error, IoResult, ok, err}
use rnet.SocketAddr.{SocketAddr, v4}
use rnet.Extern.Streams.{StreamApi}
use rnet.Extern.Polls.{PollApi, WakerApi}
use rnet.Extern.Listeners.{ListenerApi}
use rnet.Extern.Sockets.{Call, SocketApi}

-- What is watched is a function of the descriptor. Nothing is watched twice, and what is not watched
-- is neither changed nor let go of.
abbrev pub Watched : Type 0
Watched = ℤ → Option (ℕ × Bool)

abbrev pub watching : Watched → ℤ → Option (ℕ × Bool) → Watched
watching p fd o = λ other. if eq_ℤ other fd then o else p other

abbrev enlist : Option (ℕ × Bool) → Watched → ℤ → ℕ → Bool → Watched × IoResult (Unit {0})
enlist none p fd token writable = (watching p fd (some (token, writable)), ok tt)
enlist (some w) p fd token writable = (p, err (os_error 17))

pub enlist-ok :
    (p : Watched) (fd other : ℤ) (token : ℕ) (writable : Bool)
    → (enlist (p fd) p fd token writable).1 ≡ ok tt
    → (enlist (p fd) p fd token writable).0 other
      ≡ (if eq_ℤ other fd then some (token, writable) else p other)
enlist-ok p fd other token writable h = ground arith

abbrev alter : Option (ℕ × Bool) → Watched → ℤ → Option (ℕ × Bool) → Watched × IoResult (Unit {0})
alter none p fd o = (p, err (os_error 2))
alter (some w) p fd o = (watching p fd o, ok tt)

pub alter-ok :
    (p : Watched) (fd other : ℤ) (o : Option (ℕ × Bool))
    → (alter (p fd) p fd o).1 ≡ ok tt
    → (alter (p fd) p fd o).0 other ≡ (if eq_ℤ other fd then o else p other)
alter-ok p fd other o h = ground arith

instance abbrev pub watched_table : PollApi
watched_table = record {
  Poll = Watched;
  watched = λ p. p;
  register = λ p fd token writable. enlist (p fd) p fd token writable;
  reregister = λ p fd token writable. alter (p fd) p fd (some (token, writable));
  deregister = λ p fd. alter (p fd) p fd none;
  register-ok = enlist-ok;
  reregister-ok = λ p fd other token writable h. alter-ok p fd other (some (token, writable)) h;
  deregister-ok = λ p fd other h. alter-ok p fd other none h;
}

-- A waker that counts how often it is used.
instance abbrev pub counting_waker : WakerApi
counting_waker = record { MioWaker = ℕ; inner_wake = λ n. (suc n, ok tt) }

-- A listener at which so many connections wait.
pub record Backlog (S : Type 0) (P : Type 0) : Type 0 where
  pub descriptor : ℤ
  pub address : P
  pub waiting : List (S × P)

module _ {S : Type 0} {P : Type 0} where
  abbrev take_one : List (S × P) → Backlog S P → Backlog S P × IoResult (S × P)
  take_one [] b = (b, err would_block)
  take_one (w ∷ rest) b = (record b { waiting = rest }, ok w)

  pub take_one-fewer :
      (b : Backlog S P) (s : S) (p : P)
      → (take_one b.waiting b).1 ≡ ok (s, p)
      → length (take_one b.waiting b).0.waiting < length b.waiting
  take_one-fewer b s p h = ground arith

instance abbrev pub backlogs : ⦃streams : StreamApi⦄ → ListenerApi
backlogs ⦃streams⦄ = record {
  TcpListener = Backlog streams.Stream SocketAddr;
  UnixListener = Backlog streams.Stream (Option (List ℕ));
  tcp_fd = λ b. b.descriptor;
  unix_fd = λ b. b.descriptor;
  tcp_local_addr = λ b. ok b.address;
  unix_local_addr = λ b. ok b.address;
  tcp_accept = λ b. take_one b.waiting b;
  unix_accept = λ b. take_one b.waiting b;
  tcp_pending = λ b. length b.waiting;
  unix_pending = λ b. length b.waiting;
  tcp_accept-pending = take_one-fewer;
  unix_accept-pending = take_one-fewer;
}

pub fresh : (s : List Call) → ◌≡◌ {A = IoResult (List Call)} (ok []) (ok s) → s ≡ []
fresh [] e = refl
fresh (c ∷ s) e = ground arith

-- A socket that keeps the calls on it; each succeeds.
instance abbrev pub recorded_calls : ⦃streams : StreamApi⦄ → SocketApi
recorded_calls ⦃streams⦄ = record {
  OsSocket = List Call;
  calls = λ s. s;
  new = λ d. ok [];
  unix_addr = λ path. if ltb (length path) 108 then ok tt else err invalid_input;
  call = λ s c. (s ++ (c ∷ []), ok tt);
  remove_file = λ s path. s;
  into_tcp =
      λ s. record { descriptor = pos 3; address = record { ip = v4 0; port = 9000 }; waiting = [] };
  into_unix = λ s. record { descriptor = pos 3; address = none; waiting = [] };
  calls-new = λ d s e. fresh s e;
  call-ok = λ s c h. refl;
  calls-remove_file = λ s path. refl;
}
