-- ===== src/Acceptor/Running.antt =====
-- `run` of src/acceptor.rs, over what the poll answers and when another thread stops the acceptor.
pub mod Events
pub mod Ending
use rnet.Prelude.{ℕ, suc, Bool, true, false, ◌==◌, List, [], ◌∷◌, Option, none, some, if◌then◌else◌}
use rnet.Io.{IoResult, ok, err, Run, ret, and_then, is_interrupted}
use rnet.Extern.Bytes.{BytesApi}
use rnet.Extern.Streams.{StreamApi}
use rnet.Extern.Channels.{ChannelApi}
use rnet.Extern.Polls.{PollApi, WakerApi}
use rnet.Extern.Listeners.{ListenerApi}
use rnet.Command.{Command}
use rnet.Poller
use rnet.Poller.{wake_token, is_listener_token, listener_token}
use rnet.Listener
use rnet.Listener.{Listener}
use rnet.Acceptor.{Acceptor, stop, accept_loop}

-- One round: whether the acceptor is stopped before it looks, or while it waits, and the tokens that
-- the poll reports.
pub record Round : Type 0 where
  pub stopped_before : Bool
  pub stopped_meanwhile : Bool
  pub polled : IoResult (List ℕ)

module _ ⦃streams : StreamApi⦄ ⦃polls : PollApi⦄ ⦃listening : ListenerApi⦄ where
  next_listener :
      (polls.Poll → Run (polls.Poll × IoResult (Unit {0})))
      → polls.Poll × IoResult (Unit {0})
      → Run (polls.Poll × IoResult (Unit {0}))
  next_listener later (p, err e) = ret (p, err e)
  next_listener later (p, ok u) = later p

  -- Each listener is watched under the token of its place.
  unfoldable pub register_listeners :
      Bool → ℕ → List Listener → polls.Poll → Run (polls.Poll × IoResult (Unit {0}))
  unfolding next_listener
  register_listeners overflow_checks idx [] p = ret (p, ok tt)
  register_listeners overflow_checks idx (x ∷ xs) p =
      let later = register_listeners overflow_checks (suc idx) xs in
      and_then (listener_token overflow_checks idx)
        (λ token. next_listener later (polls.register p (Listener.fd x.inner) token false))

module _ ⦃bytes : BytesApi⦄ ⦃streams : StreamApi⦄ ⦃channels : ChannelApi Command⦄
    ⦃wakers : WakerApi⦄ ⦃listening : ListenerApi⦄ where
  abbrev pub stop_if : Bool → Acceptor → Acceptor
  stop_if true a = stop a
  stop_if false a = a

  -- Of no interest, or the number of a listener.
  abbrev pub accept_some : Option ℕ → Acceptor → Run (Acceptor × Bool)
  accept_some none a = ret (a, false)
  accept_some (some idx) a = and_then (accept_loop idx a) (λ a'. ret (a', false))

  abbrev pub woken : Acceptor → Acceptor × Bool
  woken a =
      if a.is_running
      then (record a { waker = Poller.reset wakers.inner_wake a.waker }, false)
      else (a, true)

  -- One event; with `true` the acceptor returns.
  unfoldable pub on_token : ℕ → Acceptor → Run (Acceptor × Bool)
  on_token token a =
      if token == wake_token then ret (woken a) else accept_some (is_listener_token token) a

  on_rest : (Acceptor → Run (Acceptor × Bool)) → Acceptor × Bool → Run (Acceptor × Bool)
  on_rest later (a, true) = ret (a, true)
  on_rest later (a, false) = later a

  unfoldable pub on_tokens : List ℕ → Acceptor → Run (Acceptor × Bool)
  unfolding on_rest
  on_tokens [] a = ret (a, false)
  on_tokens (token ∷ tokens) a = and_then (on_token token a) (on_rest (on_tokens tokens))

  -- What comes behind the events of a round.
  next_round :
      (Acceptor → Run (Acceptor × IoResult Bool)) → Acceptor × Bool → Run (Acceptor × IoResult Bool)
  next_round later (a, true) = ret (a, ok true)
  next_round later (a, false) = later a

  after_wait :
      (Acceptor → Run (Acceptor × IoResult Bool))
      → IoResult (List ℕ)
      → Acceptor
      → Run (Acceptor × IoResult Bool)
  after_wait later (err e) a = if is_interrupted e then later a else ret (a, err e)
  after_wait later (ok tokens) a = and_then (on_tokens tokens a) (next_round later)

  -- The loop; `true` means that it has returned, `false` that it would go on behind the list.
  unfoldable pub run_rounds : List Round → Acceptor → Run (Acceptor × IoResult Bool)
  unfolding after_wait next_round
  run_rounds [] a = ret (a, ok false)
  run_rounds (r ∷ rs) a =
      let seen = stop_if r.stopped_before a in
      if seen.is_running
      then after_wait (run_rounds rs) r.polled (stop_if r.stopped_meanwhile seen)
      else ret (seen, ok true)

module _ ⦃bytes : BytesApi⦄ ⦃streams : StreamApi⦄ ⦃channels : ChannelApi Command⦄
    ⦃wakers : WakerApi⦄ ⦃polls : PollApi⦄ ⦃listening : ListenerApi⦄ where
  registered :
      (Acceptor → Run (Acceptor × IoResult Bool))
      → Acceptor
      → polls.Poll × IoResult (Unit {0})
      → Run (Acceptor × IoResult Bool)
  registered later a (p, err e) = ret (a, err e)
  registered later a (p, ok u) = later a

  unfoldable pub run : Bool → polls.Poll → List Round → Acceptor → Run (Acceptor × IoResult Bool)
  unfolding registered
  run overflow_checks p rs a =
      and_then (register_listeners overflow_checks 0 a.listeners p) (registered (run_rounds rs) a)
