-- ===== src/EventLoop/Closing/Drain.antt =====
-- `shutdown` of src/event_loop.rs: it goes through every connection.
use rnet.Prelude.{
  ℕ, ◌≡◌, ◌≢◌, ◌⊎◌, inl, inr, refl, ap, sym, ◌∙◌, subst, List, [], ◌∷◌, Option, none, some, ◌==◌,
  ==_iff, arith, Bool-cases, Option-cases, true,
}
use rnet.Io.{ErrorKind, interrupted, IoResult, ok, err, ok-ne-err}
use rnet.Socket
use rnet.Socket.{Socket}
use rnet.Listener.{Listener}
use rnet.Connection.{Connection}
use rnet.EventLoop.Method.{◌>>◌, fails, continue-Ensures, Ensures, ignore-Ensures, weaken-Ensures}
use rnet.EventLoop.Closing.{close_connection, close_all, drop_listeners, shutdown}
use rnet.EventLoop.Closing.Effect.{Closed, absent, gone, stuck, close_connection_lem}
use rnet.EventLoop.Invariant.{found-ne-none}
use rnet.EventLoop.Preserving.{IsValid}
use rnet.Extern.Bytes.{BytesApi}
use rnet.Extern.Streams.{StreamApi}
use rnet.Extern.Channels.{ChannelApi}
use rnet.Extern.Polls.{PollApi, WakerApi}
use rnet.Extern.Slabs.{SlabApi, Member}
use rnet.Extern.Listeners.{ListenerApi}
use rnet.Codec.{CodecApi}
use rnet.Command.{Command}
use rnet.Handler.{EventHandler}
use rnet.EventLoop.Handle.{Shared}
use rnet.EventLoop.State.{EventLoop}

module _ ⦃bytes : BytesApi⦄ ⦃streams : StreamApi⦄ ⦃codecs : CodecApi⦄
    ⦃channels : ChannelApi Command⦄ ⦃wakers : WakerApi⦄ ⦃polls : PollApi⦄
    ⦃slabs : SlabApi Connection⦄ ⦃listening : ListenerApi⦄ where
  -- No entry is under the key, or else the poll, when it was asked, has refused to let go of its socket.
  abbrev pub Released : slabs.Slab → ℕ → Type 0
  Released cs key =
      (slabs.get cs key ≡ none)
      ⊎ ((c : Connection) × (s : Socket) × (p : polls.Poll) × (e : ErrorKind) × (slabs.get cs key
            ≡ some c)
          × (c.socket ≡ some s)
          × ((polls.deregister p (Socket.fd s)).1 ≡ err e))

  Released-same :
      (cs cs' : slabs.Slab) (key : ℕ)
      → slabs.get cs' key ≡ slabs.get cs key
      → Released cs key
      → Released cs' key
  Released-same cs cs' key same (inl empty) = inl (same ∙ empty)
  Released-same cs cs' key same (inr (c, s, p, e, found, at_s, refused)) =
      inr (c, s, p, e, same ∙ found, at_s, refused)

  module _ {U : Type 0} ⦃handler : EventHandler (Shared U)⦄ where
    -- An entry that was to be closed, and any other.
    both-Released :
        (key : ℕ) (l l' : EventLoop U)
        → Released l'.connections key
        → ((j : ℕ) → key ≢ j → slabs.get l'.connections j ≡ slabs.get l.connections j)
        → (j : ℕ) → (key ≢ j → Released l.connections j)
        → Released l'.connections j
    both-Released key l l' here others j before = elim (Bool-cases (key == j)) [
      | inl same ↦ subst (Released l'.connections) ((==_iff key j).0 same) here
      | inr differ ↦
          let other : key ≢ j = ground arith in
          Released-same l.connections l'.connections j (others j other) (before other)
    ]

    Closed-Released :
        {key : ℕ} {l l' : EventLoop U} {r : IoResult (Unit {0})}
        → Closed key l l' r
        → (j : ℕ) → (key ≢ j → Released l.connections j)
        → Released l'.connections j
    Closed-Released {key} {l} {l'} (absent empty same fine) j before =
        both-Released key l l'
          (inl (ap (λ (m : EventLoop U). slabs.get m.connections key) same ∙ empty))
          (λ i other. ap (λ (m : EventLoop U). slabs.get m.connections i) same) j before
    Closed-Released {key} {l} {l'} (gone c told lets fine none_left pool others) j before =
        both-Released key l l' (inl none_left) others j before
    Closed-Released {key} {l} {l'} (stuck c told (s, at_s, refused, poll) fails left others) j
          before =
        both-Released key l l' (inr (c, s, l.poll, _, left, at_s, refused)) others j before

    close_all-Released :
        (keys : List ℕ) (l : EventLoop U)
        → IsValid l
        → Ensures
            (λ l' r.
              IsValid l'
              × (r ≡ ok tt)
              × (l'.listeners ≡ l.listeners)
              × ((j : ℕ) → Member j keys ⊎ Released l.connections j → Released l'.connections j))
            (close_all keys l)
    unfolding close_all
    close_all-Released [] l v = (v, refl, refl, λ j h. elim h [ inl i ↦ absurd i | inr e ↦ e ])
    close_all-Released (key ∷ keys) l v =
        ignore-Ensures
          (λ l'.
            IsValid l'
            × (l'.listeners ≡ l.listeners)
            × ((j : ℕ) → (key ≢ j → Released l.connections j) → Released l'.connections j))
          _ (close_all keys) (close_connection key true l)
          (weaken-Ensures _ _ (close_connection key true l)
            (λ l' r h. (h.0, h.1, λ j before. Closed-Released h.2 j before))
            (close_connection_lem key true l v))
          (λ l' h.
            weaken-Ensures _ _ (close_all keys l')
              (λ l'' r g. (
                g.0,
                g.1,
                g.2 ∙ h.1,
                λ j i. g.3 j (elim i [
                  | inl m ↦ elim m [
                    | inl same ↦ inr (h.2 j (λ other. absurd (other (sym same))))
                    | inr listed ↦ inl listed
                  ]
                  | inr released ↦ inr (h.2 j (λ other. released))
                ]),
              ))
              (close_all-Released keys l' h.0))

    drop_listeners-frame :
        (o : Option (List Listener)) (l : EventLoop U)
        → l.listeners ≡ o
        → ((drop_listeners o l).listeners ≡ none)
          × ((drop_listeners o l).connections ≡ l.connections)
          × (IsValid l → IsValid (drop_listeners o l))
    unfolding drop_listeners
    drop_listeners-frame none l e = (e, refl, λ v. v)
    drop_listeners-frame (some xs) l e = (refl, refl, λ v. v)

    pub shutdown_lem :
        (l : EventLoop U)
        → IsValid l
        → Ensures
            (λ l' r.
              IsValid l'
              × (r ≡ ok tt)
              × (l'.listeners ≡ none)
              × ((key : ℕ) → Released l'.connections key))
            (shutdown l)
    unfolding shutdown
    shutdown_lem l v =
        let m = drop_listeners l.listeners l in
        let (dropped, same, valid) = drop_listeners-frame l.listeners l refl in
        weaken-Ensures _ _ (close_all (slabs.keys m.connections) m)
          (λ l' r h. (
            h.0,
            h.1,
            h.2 ∙ dropped,
            λ key. h.3 key (elim (Option-cases (slabs.get m.connections key)) [
              | inl empty ↦ inr (inl empty)
              | inr found ↦ inl (
                  slabs.get-keys m.connections key
                    (found-ne-none (slabs.get m.connections key) found.1))
            ]),
          ))
          (close_all-Released (slabs.keys m.connections) m (valid v))

    pub shutdown-IsValid :
        (l : EventLoop U) → IsValid l → Ensures (λ l' r. IsValid l' × (r ≡ ok tt)) (shutdown l)
    shutdown-IsValid l v = weaken-Ensures _ _ (shutdown l) (λ l' r h. (h.0, h.1)) (shutdown_lem l v)

    -- The end of a loop that was asked to shut down.
    pub ending-IsValid :
        (l : EventLoop U)
        → IsValid l
        → Ensures (λ l' r. IsValid l' × (r ≡ err interrupted)) ((shutdown >> fails interrupted) l)
    ending-IsValid l v =
        continue-Ensures (λ l' r. IsValid l' × (r ≡ ok tt)) _ _ (shutdown l) (λ l' a h. (h.0, refl))
          (λ l' e h. absurd (ok-ne-err (err e) h.1 refl)) (shutdown-IsValid l v)
