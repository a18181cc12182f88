-- ===== src/Handler.antt =====
-- src/handler.rs: what the user's code is asked. A callback has a state of its own and returns the
-- connection that it was lent. Of the user's code this is assumed: it leaves the handle alone and a
-- socket where there is one, so it does not call `Connection::reset`, which is public, on a connection
-- that it is lent, nor swap two connections.
use rnet.Prelude.{ℕ, ◌≡◌, refl, Option, none, some, ◌∙◌}
use rnet.Extern.Bytes.{BytesApi}
use rnet.Extern.Streams.{StreamApi}
use rnet.Extern.Slabs.{SlabApi}
use rnet.Codec.{CodecApi}
use rnet.Socket.{Socket}
use rnet.Connection.{Connection}

pub data Action : Type 0 where
  no_action close_it shut_down : Action

module _ ⦃bytes : BytesApi⦄ ⦃streams : StreamApi⦄ ⦃codecs : CodecApi⦄ where
  -- What a callback leaves alone: the handle, and that there is a socket. The fields are private to the
  -- crate, but `Connection::reset` and a swap of two connections would change them.
  pub record Keeps (c c' : Connection) : Type 0 where
    pub same_gfd : c'.gfd ≡ c.gfd
    pub open_still : (s : Socket) → c.socket ≡ some s → (s' : Socket) × (c'.socket ≡ some s')

  pub Keeps-refl : (c : Connection) → Keeps c c
  Keeps-refl c = record { same_gfd = refl; open_still = λ s e. (s, e) }

  pub Keeps-trans : (c c' c'' : Connection) → Keeps c c' → Keeps c' c'' → Keeps c c''
  Keeps-trans c c' c'' k l = record {
    same_gfd = l.same_gfd ∙ k.same_gfd;
    open_still = λ s e. let (s', e') = k.open_still s e in l.open_still s' e';
  }

  -- A field of a connection was changed that is not among those.
  pub Keeps-eq : (c c' : Connection) → c'.gfd ≡ c.gfd → c'.socket ≡ c.socket → Keeps c c'
  Keeps-eq c c' same_gfd same = record { same_gfd = same_gfd; open_still = λ s e. (s, same ∙ e) }

  -- A connection that a slab may have under a key, before and after.
  abbrev pub KeepsOption : Option Connection → Option Connection → Type 0
  KeepsOption none none = Unit {0}
  KeepsOption (some c) (some c') = Keeps c c'
  KeepsOption _ _ = ⊥

  pub KeepsOption-refl : (o : Option Connection) → KeepsOption o o
  KeepsOption-refl none = tt
  KeepsOption-refl (some c) = Keeps-refl c

  -- `EventHandler`, without `init`. `on_tick` is lent all connections, and returns the delay until
  -- the next tick, in nanoseconds. The laws are the assumption above.
  pub record EventHandler (S : Type 0) ⦃slabs : SlabApi Connection⦄ : Type 0 where
    pub on_open : S → Connection → S × Connection × Action
    pub on_traffic : S → Connection → S × Connection × Action
    pub on_close : S → Connection → S × Connection × Action
    pub on_tick : S → slabs.Slab → S × slabs.Slab × ℕ × Action
    pub on_open-Keeps : (s : S) (c : Connection) → Keeps c (on_open s c).1
    pub on_traffic-Keeps : (s : S) (c : Connection) → Keeps c (on_traffic s c).1
    pub on_close-Keeps : (s : S) (c : Connection) → Keeps c (on_close s c).1
    pub on_tick-Keeps :
        (s : S) (cs : slabs.Slab) (k : ℕ)
        → KeepsOption (slabs.get cs k) (slabs.get (on_tick s cs).1 k)
    pub len-on_tick : (s : S) (cs : slabs.Slab) → slabs.len (on_tick s cs).1 ≡ slabs.len cs

  module _ {S : Type 0} ⦃slabs : SlabApi Connection⦄ where
    -- The bodies that the trait provides.
    unfoldable pub default_callback : S → Connection → S × Connection × Action
    default_callback s c = (s, c, no_action)

    unfoldable pub default_tick : S → slabs.Slab → S × slabs.Slab × ℕ × Action
    default_tick s cs = (s, cs, 0, no_action)
