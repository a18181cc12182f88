-- ===== src/Acceptor/Running/Events.antt =====
-- What the events of one round do to an acceptor: src/acceptor.rs, in `run`.
use rnet.Prelude.{
  ℕ, zero, suc, ◌<◌, ◌≡◌, ◌≢◌, refl, ap, sym, ◌∙◌, Bool, true, false, List, [], ◌∷◌, Option, none,
  some, length, ◌==◌, if◌then◌else◌, arith,
}
use rnet.Io.{IoResult, ok, err, Run, ret, and_then}
use rnet.Extern.Bytes.{BytesApi}
use rnet.Extern.Streams.{StreamApi}
use rnet.Extern.Channels.{ChannelApi}
use rnet.Extern.Polls.{WakerApi}
use rnet.Extern.Listeners.{ListenerApi}
use rnet.SocketAddr.{NetworkAddress}
use rnet.Socket.{Socket}
use rnet.Command.{Command}
use rnet.Poller
use rnet.Poller.{wake_token, is_listener_token}
use rnet.Listener
use rnet.Listener.{Listener, pending}
use rnet.EventLoop.Accepting.{set_nth}
use rnet.EventLoop.Accepting.Effect.{length-set_nth}
use rnet.Acceptor.{
  Worker, Acceptor, assign, after_accept, accept_all, accept_from, accept_indexed, accept_loop,
}
use rnet.Acceptor.Spread.{
  SpreadOver, nothing_left, one_given, nonempty-set_nth, get_elem?-within, accept_all_lem,
}
use rnet.Acceptor.Running.{accept_some, woken, on_token, on_rest, on_tokens}

-- Each token of a listener is that of one of the `n` listeners.
pub data Known (n : ℕ) : List ℕ → Type 0 where
  no_token : Known n []
  of_listener :
      {t i : ℕ} {ts : List ℕ} → is_listener_token t ≡ some i → i < n → Known n ts → Known n (t ∷ ts)
  of_other : {t : ℕ} {ts : List ℕ} → is_listener_token t ≡ none → Known n ts → Known n (t ∷ ts)

module _ ⦃bytes : BytesApi⦄ ⦃streams : StreamApi⦄ ⦃channels : ChannelApi Command⦄
    ⦃wakers : WakerApi⦄ ⦃listening : ListenerApi⦄ where
  -- The number of listeners, some workers, and whether it runs.
  abbrev pub Keeps : ℕ → Bool → Acceptor → Type 0
  Keeps n running a = (length a.listeners ≡ n) × (a.workers ≢ []) × (a.is_running ≡ running)

  SpreadOver-nonempty :
      {addr : NetworkAddress} {peers : List (Socket × NetworkAddress)} {ws ws' : List Worker}
      → SpreadOver addr peers ws ws'
      → ws ≢ []
      → ws' ≢ []
  SpreadOver-nonempty nothing_left h = h
  SpreadOver-nonempty {ws = ws} (one_given idx w w' at g later) h =
      SpreadOver-nonempty later (nonempty-set_nth ws idx w' h)

  abbrev Same : Acceptor → Run (Acceptor × Listener) → Type 0
  Same a out =
      (a' : Acceptor) (x' : Listener)
      → out ≡ ret (a', x')
      → (a'.listeners ≡ a.listeners) × (a'.is_running ≡ a.is_running)

  accept_all-Same :
      (fuel : ℕ) (addr : NetworkAddress) (a : Acceptor) (x : Listener)
      → Same a (accept_all fuel addr a x)
  unfolding accept_all after_accept assign
  accept_all-Same zero addr a x = λ a' x' e. ground arith
  accept_all-Same (suc fuel) addr a x = go (Listener.accept x).1 (accept_all-Same fuel addr)
    where
      go :
          (res : IoResult (Socket × NetworkAddress))
          → ((b : Acceptor) (y : Listener) → Same b (accept_all fuel addr b y))
          → Same a (after_accept (accept_all fuel addr) addr a (Listener.accept x).0 res)
      go (err k) later a' x' e = (cc, cc)
      go (ok (s, peer_addr)) later a' x' e =
          later (assign a (Command.register s addr peer_addr)) (Listener.accept x).0 a' x' e

  accept_loop-Keeps :
      {n : ℕ} {running : Bool} (i : ℕ) (a : Acceptor)
      → i < n
      → Keeps n running a
      → (a' : Acceptor) × (accept_loop i a ≡ ret a') × Keeps n running a'
  unfolding accept_loop accept_indexed accept_from
  accept_loop-Keeps {n} {running} i a h (len, some_there, runs) =
      let (x, at) = get_elem?-within a.listeners i (omega arith) in
      let (a', same, kept) = go x (Listener.local_addr x) in
      (a', ap (accept_indexed i a) at ∙ same, kept)
    where
      go :
          (x : Listener) (r : IoResult NetworkAddress)
          → (a' : Acceptor) × (accept_from i x a r ≡ ret a') × Keeps n running a'
      go x (err e) = (a, refl, (len, some_there, runs))
      go x (ok addr) =
          let (a', x', peers, out, accepts, spread) =
            accept_all_lem (suc (pending x.inner)) addr a x some_there (omega arith) in
          let (ls, run') = accept_all-Same (suc (pending x.inner)) addr a x a' x' out in
          (
            record a' { listeners = set_nth a'.listeners i x' },
            ap
                (λ (o : Run (Acceptor × Listener)).
                  and_then o (λ (b, y). ret (record b { listeners = set_nth b.listeners i y })))
                out,
            (
              length-set_nth a'.listeners i x' ∙ ap length ls ∙ len,
              SpreadOver-nonempty spread some_there,
              run' ∙ runs,
            ),
          )

  -- What one event, or the events of a round, do.
  abbrev pub Handles : ℕ → Bool → Run (Acceptor × Bool) → Type 0
  Handles n running out =
      (a' : Acceptor) × (b : Bool) × (out ≡ ret (a', b))
      × Keeps n running a'
      × (b ≡ true → running ≡ false)

  on_token-Handles-other :
      {n : ℕ} {running : Bool} (t : ℕ) (a : Acceptor)
      → is_listener_token t ≡ none
      → Keeps n running a
      → Handles n running (on_token t a)
  unfolding on_token woken
  on_token-Handles-other {n} {running} t a other (len, some_there, runs) =
      go (t == wake_token) a.is_running refl
    where
      waking :
          (r : Bool)
          → a.is_running ≡ r
          → Handles n running (
              ret (
                if r
                then (record a { waker = Poller.reset wakers.inner_wake a.waker }, false)
                else (a, true)))
      waking true e = (
        record a { waker = Poller.reset wakers.inner_wake a.waker },
        false,
        refl,
        (len, some_there, runs),
        (λ e. ground arith),
      )
      waking false e = (a, true, refl, (len, some_there, runs), (λ u. sym runs ∙ e))

      go :
          (b : Bool) (r : Bool)
          → a.is_running ≡ r
          → Handles n running (if b then ret (woken a) else accept_some (is_listener_token t) a)
      go true r e = waking a.is_running refl
      go false r e = (
        a,
        false,
        ap (λ (o : Option ℕ). accept_some o a) other,
        (len, some_there, runs),
        (λ e. ground arith),
      )

  on_token-Handles-listener :
      {n i : ℕ} {running : Bool} (t : ℕ) (a : Acceptor)
      → is_listener_token t ≡ some i
      → i < n
      → Keeps n running a
      → Handles n running (on_token t a)
  unfolding on_token is_listener_token
  on_token-Handles-listener {n} {i} t a this h kept =
      let (a', out, kept') = accept_loop-Keeps i a h kept in
      let no_wake : (t == wake_token) ≡ false = ground arith in
      (
        a',
        false,
        ap (λ (b : Bool). if b then ret (woken a) else accept_some (is_listener_token t) a) no_wake
            ∙ ap (λ (o : Option ℕ). accept_some o a) this
            ∙ ap (λ (o : Run Acceptor). and_then o (λ b. ret (b, false))) out,
        kept',
        (λ e. ground arith),
      )

  rest-Handles :
      {n : ℕ} {running : Bool} {out : Run (Acceptor × Bool)}
      (later : Acceptor → Run (Acceptor × Bool))
      → ((b : Acceptor) → Keeps n running b → Handles n running (later b))
      → Handles n running out
      → Handles n running (and_then out (on_rest later))
  unfolding on_rest
  rest-Handles later each (a, true, e, kept, why) =
      (a, true, ap (λ (o : Run (Acceptor × Bool)). and_then o (on_rest later)) e, kept, why)
  rest-Handles later each (a, false, e, kept, why) =
      let (a', b, out, kept', why') = each a kept in
      (a', b, ap (λ (o : Run (Acceptor × Bool)). and_then o (on_rest later)) e ∙ out, kept', why')

  pub on_tokens-Handles :
      {n : ℕ} {running : Bool} (ts : List ℕ) (a : Acceptor)
      → Known n ts
      → Keeps n running a
      → Handles n running (on_tokens ts a)
  unfolding on_tokens on_rest
  on_tokens-Handles [] a known kept = (a, false, refl, kept, (λ e. ground arith))
  on_tokens-Handles {n} {running} (t ∷ ts) a (of_listener this h known) kept =
      rest-Handles (on_tokens ts) (λ b k. on_tokens-Handles ts b known k)
        (on_token-Handles-listener t a this h kept)
  on_tokens-Handles (t ∷ ts) a (of_other other known) kept =
      rest-Handles (on_tokens ts) (λ b k. on_tokens-Handles ts b known k)
        (on_token-Handles-other t a other kept)
