-- ===== src/Acceptor/Spread.antt =====
-- `accept_loop` of src/acceptor.rs gives each accepted connection to one event loop.
use rnet.Prelude.{
  ℕ, zero, suc, ◌%◌, ◌<◌, ◌≡◌, ◌≢◌, ◌⊎◌, inl, inr, refl, ap, sym, ◌∙◌, subst, Bool, true, false,
  List, [], ◌∷◌, ◌++◌, Option, some, map, length, get_elem?, arith,
}
use rnet.Io.{ErrorKind, IoResult, ok, err, Run, ret}
use rnet.Extern.Bytes.{BytesApi}
use rnet.Extern.Streams.{StreamApi}
use rnet.Extern.Channels.{ChannelApi}
use rnet.Extern.Polls.{WakerApi}
use rnet.Extern.Listeners.{ListenerApi}
use rnet.SocketAddr.{NetworkAddress}
use rnet.Socket.{Socket}
use rnet.Command.{Command}
use rnet.Balancer.{Balancer, rotating, least, select}
use rnet.Balancer.Least.{select_least_lem}
use rnet.Listener
use rnet.Listener.{Listener, pending}
use rnet.Listener.Waiting.{pending-accept}
use rnet.EventLoop.Accepting.{set_nth}
use rnet.Acceptor.{Worker, Acceptor, after_sent, give, given, assign, after_accept, accept_all}

pub get_elem?-within :
    {A : Type 0} (xs : List A) (i : ℕ) → i < length xs → (x : A) × (get_elem? xs i ≡ some x)
get_elem?-within [] i h = absurd (omega arith)
get_elem?-within (x ∷ xs) zero h = (x, refl)
get_elem?-within (x ∷ xs) (suc i) h = get_elem?-within xs i (omega arith)

get_elem?-map :
    {A B : Type 0} (f : A → B) (xs : List A) (i : ℕ) {y : B}
    → get_elem? (map f xs) i ≡ some y
    → (x : A) × (get_elem? xs i ≡ some x)
get_elem?-map f [] i e = absurd (ground arith)
get_elem?-map f (x ∷ xs) zero e = (x, refl)
get_elem?-map f (x ∷ xs) (suc i) e = get_elem?-map f xs i e

-- Of workers that there are, one is selected.
select-Some :
    (b : Balancer) (n : ℕ) (ns : List ℕ)
    → (m : ℕ) × (get_elem? (n ∷ ns) (select b (n ∷ ns)).0 ≡ some m)
unfolding select
select-Some (rotating next) n ns = get_elem?-within (n ∷ ns) (next % length (n ∷ ns)) (omega arith)
select-Some least n ns = let (m, first) = select_least_lem n ns in (m, first.0)

module _ ⦃bytes : BytesApi⦄ ⦃streams : StreamApi⦄ ⦃channels : ChannelApi Command⦄
    ⦃wakers : WakerApi⦄ ⦃listening : ListenerApi⦄ where
  open channels use {queue}

  -- The worker has the command at the end of its queue, or its channel did not take it.
  abbrev pub Given : Command → Worker → Worker → Type 0
  Given command w w' =
      (queue w'.urgent_sender ≡ queue w.urgent_sender ++ (command ∷ []))
      ⊎ (((channels.send w.urgent_sender command).1 ≡ false)
          × (queue w'.urgent_sender ≡ queue w.urgent_sender))

  -- A run of `accept` that brought those connections, in order, and then an error.
  pub data Accepts : Listener → List (Socket × NetworkAddress) → Listener → Type 0 where
    no_more :
        {x : Listener} {e : ErrorKind}
        → (Listener.accept x).1 ≡ err e
        → Accepts x [] (Listener.accept x).0
    one_more :
        {x x' : Listener} {s : Socket} {peer_addr : NetworkAddress}
        {later : List (Socket × NetworkAddress)}
        → (Listener.accept x).1 ≡ ok (s, peer_addr)
        → Accepts (Listener.accept x).0 later x'
        → Accepts x ((s, peer_addr) ∷ later) x'

  -- Each connection was given to one worker, in order, and no other worker changed meanwhile.
  pub data SpreadOver (local_addr : NetworkAddress)
      : List (Socket × NetworkAddress) → List Worker → List Worker → Type 0 where
    nothing_left : {ws : List Worker} → SpreadOver local_addr [] ws ws
    one_given :
        {ws ws' : List Worker} {s : Socket} {peer_addr : NetworkAddress}
        {later : List (Socket × NetworkAddress)} (idx : ℕ) (w w' : Worker)
        → get_elem? ws idx ≡ some w
        → Given (Command.register s local_addr peer_addr) w w'
        → SpreadOver local_addr later (set_nth ws idx w') ws'
        → SpreadOver local_addr ((s, peer_addr) ∷ later) ws ws'

  give-Given : (w : Worker) (command : Command) → Given command w (give w command)
  unfolding give
  give-Given w command = go (channels.send w.urgent_sender command) refl
    where
      go :
          (out : channels.Channel × Bool)
          → channels.send w.urgent_sender command ≡ out
          → Given command w (after_sent w out)
      go (c, true) e = inl (
          sym (ap (λ (p : channels.Channel × Bool). queue p.0) e)
          ∙ channels.send-ok w.urgent_sender command (ap (λ (p : channels.Channel × Bool). p.1) e))
      go (c, false) e =
          let lost = ap (λ (p : channels.Channel × Bool). p.1) e in
          inr (
            lost,
            sym (ap (λ (p : channels.Channel × Bool). queue p.0) e)
                ∙ channels.send-err w.urgent_sender command lost,
          )

  pub nonempty-set_nth : (ws : List Worker) (n : ℕ) (w : Worker) → ws ≢ [] → set_nth ws n w ≢ []
  unfolding set_nth
  nonempty-set_nth [] n w some_there e = absurd (some_there refl)
  nonempty-set_nth (v ∷ ws) zero w some_there e = ground arith
  nonempty-set_nth (v ∷ ws) (suc n) w some_there e = ground arith

  -- One assignment.
  assign-given :
      (a : Acceptor) (command : Command)
      → a.workers ≢ []
      → (idx : ℕ) × (w : Worker) × (get_elem? a.workers idx ≡ some w)
        × ((assign a command).workers ≡ set_nth a.workers idx (give w command))
  unfolding assign
  assign-given a command some_there =
      let counts = map (λ (w : Worker). w.conn_count) a.workers in
      let idx = (select a.balancer counts).0 in
      let (w, at) = found a.workers some_there in
      (idx, w, at, ap (λ (o : Option Worker). given a.workers idx o command) at)
    where
      found :
          (ws : List Worker)
          → ws ≢ []
          → (w : Worker) × (get_elem? ws
                (select a.balancer (map (λ (v : Worker). v.conn_count) ws)).0
              ≡ some w)
      found [] there = absurd (there refl)
      found (v ∷ vs) there =
          let (m, at) =
            select-Some a.balancer v.conn_count (map (λ (u : Worker). u.conn_count) vs) in
          get_elem?-map (λ (u : Worker). u.conn_count) (v ∷ vs)
            (select a.balancer (map (λ (u : Worker). u.conn_count) (v ∷ vs))).0 at

  -- How the loop ends.
  abbrev Ends : NetworkAddress → Acceptor → Listener → Run (Acceptor × Listener) → Type 0
  Ends local_addr a x out =
      (a' : Acceptor) × (x' : Listener) × (peers : List (Socket × NetworkAddress)) × (out
        ≡ ret (a', x'))
      × Accepts x peers x'
      × SpreadOver local_addr peers a.workers a'.workers

  -- The loop of the acceptor over `accept`, with at least one worker and more rounds than there are
  -- connections to come, ends without a panic. The connections that were accepted until the first
  -- error were each given to one worker, in order: the command to register it is the last of that
  -- worker's urgent queue, if the channel took it, and no other worker's queue changed.
  pub accept_all_lem :
      (fuel : ℕ) (local_addr : NetworkAddress) (a : Acceptor) (x : Listener)
      → a.workers ≢ []
      → pending x.inner < fuel
      → (a' : Acceptor) × (x' : Listener) × (peers : List (Socket × NetworkAddress)) × (accept_all
            fuel local_addr a x
          ≡ ret (a', x'))
        × Accepts x peers x'
        × SpreadOver local_addr peers a.workers a'.workers
  unfolding accept_all after_accept
  accept_all_lem zero local_addr a x some_there enough = absurd (omega arith)
  accept_all_lem (suc fuel) local_addr a x some_there enough =
      go (Listener.accept x).1 refl (accept_all_lem fuel local_addr)
    where
      go :
          (res : IoResult (Socket × NetworkAddress))
          → (Listener.accept x).1 ≡ res
          → ((b : Acceptor) (y : Listener)
              → b.workers ≢ []
              → pending y.inner < fuel
              → Ends local_addr b y (accept_all fuel local_addr b y))
          → Ends local_addr a x
              (after_accept (accept_all fuel local_addr) local_addr a (Listener.accept x).0 res)
      go (err e) at later = (a, (Listener.accept x).0, [], refl, no_more at, nothing_left)
      go (ok (s, peer_addr)) at later =
          let less = pending-accept x s peer_addr at in
          let command = Command.register s local_addr peer_addr in
          let (idx, w, there, same) = assign-given a command some_there in
          let filled : (assign a command).workers ≢ [] =
            subst (λ (ws : List Worker). ws ≢ []) (sym same)
              (nonempty-set_nth a.workers idx (give w command) some_there) in
          let (a', x', peers, out, accepts, spread) =
            later (assign a command) (Listener.accept x).0 filled (omega arith) in
          (
            a',
            x',
            (s, peer_addr) ∷ peers,
            out,
            one_more at accepts,
            one_given idx w (give w command) there (give-Given w command) (
                subst (λ (ws : List Worker). SpreadOver local_addr peers ws a'.workers) same
                  spread),
          )
