-- ===== src/Listener/Binding/Order.antt =====
-- What a socket has gone through when `bind` of src/listener.rs returns a listener.
use rnet.Prelude.{
  ℕ, ◌≡◌, refl, ap, sym, ◌∙◌, subst, Bool, true, false, List, [], ◌∷◌, ◌++◌, append_assoc,
  append-nil, Option, if◌then◌else◌,
}
use rnet.Prelude.Int.{ℤ}
use rnet.Io.{IoResult, ok, err}
use rnet.SocketAddr.{NetworkAddress, SocketAddr}
use rnet.Options.{Options}
use rnet.Extern.Streams.{StreamApi}
use rnet.Extern.Listeners.{ListenerApi}
use rnet.Extern.Sockets
use rnet.Extern.Sockets.{Call, Domain, SocketApi}
use rnet.Listener
use rnet.Listener.{Listener, ListenerInner}
use rnet.Listener.Binding.{
  get_max_listen_backlog, if_set, configure_socket, domain_of, keepalive_calls, is_no_delay,
  tcp_calls, unix_calls, perform, then_do, create_mio_tcp_listener, create_mio_unix_listener, bind,
}
use rnet.Listener.Binding.Asked.{
  Configures, Finishes, configure_socket-Configures, is_no_delay-OnlyIf, keepalive_calls-KeepsAlive,
}

module _ ⦃streams : StreamApi⦄ ⦃listening : ListenerApi⦄ ⦃sockets : SocketApi⦄ where
  open sockets use {OsSocket, calls}

  -- What holds of a result, if there is one.
  abbrev Succeeds {ℓ} : {A : Type ℓ} → (A → Type 0) → IoResult A → Type 0
  Succeeds P (ok a) = P a
  Succeeds P (err e) = Unit {0}

  then_do-Succeeds :
      {A : Type 0} {B : Type 0} (P : A → Type 0) (Q : B → Type 0) (m : IoResult A)
      (f : A → IoResult B)
      → Succeeds P m
      → ((a : A) → P a → Succeeds Q (f a))
      → Succeeds Q (then_do m f)
  then_do-Succeeds P Q (ok a) f h next = next a h
  then_do-Succeeds P Q (err e) f h next = tt

  weaken-Succeeds :
      {A : Type 0} (P Q : A → Type 0) (m : IoResult A)
      → ((a : A) → P a → Q a)
      → Succeeds P m
      → Succeeds Q m
  weaken-Succeeds P Q (ok a) imp h = imp a h
  weaken-Succeeds P Q (err e) imp h = tt

  any-Succeeds : {A : Type 0} (m : IoResult A) → Succeeds (λ a. Unit {0}) m
  any-Succeeds (ok a) = tt
  any-Succeeds (err e) = tt

  calls-if :
      (exists : Bool) (path : List ℕ) (s : OsSocket)
      → calls (if exists then sockets.remove_file s path else s) ≡ calls s
  calls-if true path s = sockets.calls-remove_file s path
  calls-if false path s = refl

  perform-calls :
      (cs : List Call) (s : OsSocket) → Succeeds (λ t. calls t ≡ calls s ++ cs) (perform cs s)
  unfolding perform
  perform-calls [] s = sym (append-nil (calls s))
  perform-calls (c ∷ cs) s =
      go (sockets.call s c).1 refl (perform cs (sockets.call s c).0)
        (perform-calls cs (sockets.call s c).0)
    where
      go :
          (res : IoResult (Unit {0}))
          → (sockets.call s c).1 ≡ res
          → (out : IoResult OsSocket)
          → Succeeds (λ t. calls t ≡ calls (sockets.call s c).0 ++ cs) out
          → Succeeds
              (λ t. calls t ≡ calls s ++ (c ∷ cs))
              (elim res as (λ r. IoResult OsSocket) [ ok u ↦ out | err k ↦ err k ])
      go (ok u) at (ok t) later =
          later
          ∙ ap (λ (xs : List Call). xs ++ cs) (sockets.call-ok s c at)
          ∙ append_assoc (calls s) (c ∷ []) cs
      go (ok u) at (err k) later = tt
      go (err k) at out later = tt

  new-calls : (d : Domain) → Succeeds (λ s. calls s ≡ []) (sockets.new d)
  new-calls d = go (sockets.new d) refl
    where
      go : (out : IoResult OsSocket) → sockets.new d ≡ out → Succeeds (λ s. calls s ≡ []) out
      go (ok s) at = sockets.calls-new d s at
      go (err e) at = tt

  -- All calls that a listener's socket has gone through.
  abbrev pub Ready : Options → ℤ → NetworkAddress → OsSocket → Type 0
  Ready options backlog addr s =
      (first : List Call) × (last : List Call) × (calls s
        ≡ first
          ++ (Sockets.bind addr ∷ Sockets.listen backlog ∷ Sockets.set_nonblocking true ∷ last))
      × Configures options first
      × Finishes options addr last

  tcp-Ready :
      (a : SocketAddr) (options : Options) (backlog : ℤ)
      → Succeeds
          (Ready options backlog (NetworkAddress.tcp a))
          (create_mio_tcp_listener a options backlog)
  unfolding create_mio_tcp_listener tcp_calls
  tcp-Ready a options backlog =
      then_do-Succeeds (λ s. calls s ≡ []) _ (sockets.new (domain_of a.ip))
        (perform (tcp_calls options a backlog)) (new-calls (domain_of a.ip))
        (λ s fresh.
          weaken-Succeeds _ _ (perform (tcp_calls options a backlog) s)
            (λ t e. (
              configure_socket options,
              if_set (is_no_delay options.tcp_no_delay) (Sockets.set_tcp_nodelay true)
                  ++ keepalive_calls options.tcp_keepalive options,
              e ∙ ap (λ (xs : List Call). xs ++ tcp_calls options a backlog) fresh,
              configure_socket-Configures options,
              (
                if_set (is_no_delay options.tcp_no_delay) (Sockets.set_tcp_nodelay true),
                keepalive_calls options.tcp_keepalive options,
                refl,
                is_no_delay-OnlyIf options.tcp_no_delay (Sockets.set_tcp_nodelay true),
                keepalive_calls-KeepsAlive options.tcp_keepalive options,
              ),
            ))
            (perform-calls (tcp_calls options a backlog) s))

  unix-Ready :
      (exists : Bool) (path : List ℕ) (options : Options) (backlog : ℤ)
      → Succeeds
          (Ready options backlog (NetworkAddress.unix path))
          (create_mio_unix_listener exists path options backlog)
  unfolding create_mio_unix_listener unix_calls
  unix-Ready exists path options backlog =
      then_do-Succeeds (λ s. calls s ≡ []) _ (sockets.new Sockets.unix) _ (new-calls Sockets.unix)
        (λ s fresh.
          then_do-Succeeds (λ t. calls t ≡ configure_socket options) _
            (perform (configure_socket options) s) _
            (weaken-Succeeds _ _ (perform (configure_socket options) s)
              (λ t e. e ∙ ap (λ (xs : List Call). xs ++ configure_socket options) fresh)
              (perform-calls (configure_socket options) s))
            (λ t configured.
              let u = if exists then sockets.remove_file t path else t in
              then_do-Succeeds (λ x. Unit {0}) _ (sockets.unix_addr path) _
                (any-Succeeds (sockets.unix_addr path))
                (λ x unit.
                  weaken-Succeeds _ _ (perform (unix_calls path backlog) u)
                    (λ w e. (
                      configure_socket options,
                      [],
                      e
                          ∙ ap (λ (xs : List Call). xs ++ unix_calls path backlog)
                              (calls-if exists path t ∙ configured),
                      configure_socket-Configures options,
                      refl,
                    ))
                    (perform-calls (unix_calls path backlog) u))))

  -- The listener stands on that socket.
  abbrev pub OnSocket : NetworkAddress → ListenerInner → OsSocket → Type 0
  OnSocket (NetworkAddress.tcp a) inner s = inner ≡ Listener.tcp (sockets.into_tcp s)
  OnSocket (NetworkAddress.unix path) inner s = inner ≡ Listener.unix (sockets.into_unix s)

  bind-Succeeds :
      (exists : Bool) (somaxconn : Option ℤ) (addr : NetworkAddress) (options : Options)
      → Succeeds
          (λ l.
            (s : OsSocket) × OnSocket addr l.inner s
            × Ready options (get_max_listen_backlog somaxconn) addr s)
          (bind exists somaxconn addr options)
  unfolding bind
  bind-Succeeds exists somaxconn (NetworkAddress.tcp a) options =
      let backlog = get_max_listen_backlog somaxconn in
      then_do-Succeeds (Ready options backlog (NetworkAddress.tcp a)) _
        (create_mio_tcp_listener a options backlog) _ (tcp-Ready a options backlog)
        (λ s ready. go s ready (listening.tcp_local_addr (sockets.into_tcp s)))
    where
      go :
          (s : OsSocket)
          → Ready options (get_max_listen_backlog somaxconn) (NetworkAddress.tcp a) s
          → (got : IoResult SocketAddr)
          → Succeeds
              (λ l.
                (t : OsSocket) × OnSocket (NetworkAddress.tcp a) (Listener.inner l) t
                × Ready options (get_max_listen_backlog somaxconn) (NetworkAddress.tcp a) t)
              (then_do got (λ local_addr. ok (record {
                inner = Listener.tcp (sockets.into_tcp s);
                addr = NetworkAddress.tcp local_addr;
                options = options;
              })))
      go s ready (ok local_addr) = (s, refl, ready)
      go s ready (err e) = tt
  bind-Succeeds exists somaxconn (NetworkAddress.unix path) options =
      let backlog = get_max_listen_backlog somaxconn in
      then_do-Succeeds (Ready options backlog (NetworkAddress.unix path)) _
        (create_mio_unix_listener exists path options backlog) _
        (unix-Ready exists path options backlog) (λ s ready. (s, refl, ready))

  -- A listener that `bind` returns stands on a socket on which exactly these calls have succeeded, in
  -- this order: the options that were asked for and no others, the bind to the address, listening with
  -- the backlog, the change to non-blocking; and for TCP, if they were asked for, the end of Nagle's
  -- algorithm, and keeping connections alive, with an interval of a fifth of the time and five
  -- attempts unless others were asked for.
  pub bind_lem :
      (exists : Bool) (somaxconn : Option ℤ) (addr : NetworkAddress) (options : Options)
      (l : Listener)
      → bind exists somaxconn addr options ≡ ok l
      → (s : OsSocket) × OnSocket addr l.inner s
        × Ready options (get_max_listen_backlog somaxconn) addr s
  bind_lem exists somaxconn addr options l e =
      subst
        (Succeeds λ (m : Listener).
          (s : OsSocket) × OnSocket addr m.inner s
          × Ready options (get_max_listen_backlog somaxconn) addr s)
        e (bind-Succeeds exists somaxconn addr options)
