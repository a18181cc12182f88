-- ===== src/EventLoop/Commands/Addressing.antt =====
-- An `AsyncWrite` of src/event_loop.rs reaches the connection that its handle names, and no other.
use rnet.Prelude.{
  ℕ, ◌≡◌, ◌≢◌, inl, inr, refl, ap, sym, ◌∙◌, subst, Bool, false, not, ◌==◌, ==_iff, Option, none,
  some, arith, Bool-cases, if◌then◌else◌,
}
use rnet.Io.{IoResult, ok, err, Run, and_then}
use rnet.Gfd
use rnet.Gfd.{Gfd, event_loop_index, slab_index}
use rnet.Gfd.Packing.{eq_iff}
use rnet.Connection.{Connection}
use rnet.Connection.Output
use rnet.Connection.Output.Keeping.{write-open}
use rnet.Handler.{Keeps}
use rnet.EventLoop.Method.{done, Ensures, if-Ensures, weaken-Ensures}
use rnet.EventLoop.Closing.{reregister, close_connection}
use rnet.EventLoop.Closing.Effect.{Closed, absent, gone, stuck, close_connection_lem}
use rnet.EventLoop.Closing.Watching.{reregister-connections}
use rnet.EventLoop.Commands.{answered, write_to, async_write}
use rnet.EventLoop.Invariant.{Entry-at, put-Valid, found-ne-none}
use rnet.EventLoop.Preserving.{IsValid}
use rnet.Extern.Bytes.{BytesApi}
use rnet.Extern.Streams.{StreamApi}
use rnet.Extern.Channels.{ChannelApi}
use rnet.Extern.Polls.{PollApi, WakerApi}
use rnet.Extern.Slabs.{SlabApi, get-put_other}
use rnet.Extern.Listeners.{ListenerApi}
use rnet.Codec.{CodecApi}
use rnet.Command.{Command}
use rnet.Handler.{EventHandler}
use rnet.EventLoop.Handle.{Shared}
use rnet.EventLoop.State.{EventLoop}

module _ ⦃bytes : BytesApi⦄ ⦃streams : StreamApi⦄ ⦃codecs : CodecApi⦄
    ⦃channels : ChannelApi Command⦄ ⦃wakers : WakerApi⦄ ⦃polls : PollApi⦄
    ⦃slabs : SlabApi Connection⦄ ⦃listening : ListenerApi⦄ {U : Type 0}
    ⦃handler : EventHandler (Shared U)⦄ where
  open bytes use {Bytes, chunk}

  -- No connection but that of the handle is touched.
  abbrev pub Spares : Gfd → EventLoop U → EventLoop U → Type 0
  Spares g l l' =
      (key : ℕ)
      → ((c : Connection) → slabs.get l.connections key ≡ some c → c.gfd ≢ g)
      → slabs.get l'.connections key ≡ slabs.get l.connections key

  abbrev SparesOthers : ℕ → EventLoop U → EventLoop U → Type 0
  SparesOthers key l l' = (j : ℕ) → key ≢ j → slabs.get l'.connections j ≡ slabs.get l.connections j

  answered-SparesOthers :
      (key : ℕ) (res : IoResult ℕ) (l : EventLoop U)
      → IsValid l
      → Ensures (λ l' r. SparesOthers key l l') (answered key res l)
  unfolding answered
  answered-SparesOthers key (ok n) l v =
      weaken-Ensures _ _ (reregister key l)
        (λ l' r h j other. ap (λ (cs : slabs.Slab). slabs.get cs j) h)
        (reregister-connections key l v)
  answered-SparesOthers key (err e) l v =
      weaken-Ensures _ _ (close_connection key false l) (λ l' r h. closed l' r h.2)
        (close_connection_lem key false l v)
    where
      closed :
          (l' : EventLoop U) (r : IoResult (Unit {0})) → Closed key l l' r → SparesOthers key l l'
      closed l' r (absent empty same fine) =
          λ j other. ap (λ (m : EventLoop U). slabs.get m.connections j) same
      closed l' r (gone c told lets fine left pool others) = others
      closed l' r (stuck c told lets fails left others) = others

  write_to-Spares :
      (g : Gfd) (d : Bytes) (found : Option Connection) (l : EventLoop U)
      → IsValid l
      → slabs.get l.connections (slab_index g) ≡ found
      → Ensures (λ l' r. Spares g l l') (write_to g d found l)
  unfolding write_to
  write_to-Spares g d none l v at = λ key other. refl
  write_to-Spares g d (some c) l v at =
      let key = slab_index g in
      let ((s, at_s), here, there) =
        Entry-at l.loop_id key (slabs.get l.connections key) at (v.entries key) in
      let (c', res, e, same_gfd, still) = write-open c s (chunk d) at_s in
      let k : Keeps c c' = record { same_gfd = same_gfd; open_still = λ t at_t. still } in
      let full = found-ne-none (slabs.get l.connections key) at in
      let next : Connection × IoResult ℕ → Run (EventLoop U × IoResult (Unit {0})) =
        λ w. answered key w.1 (record l { connections = slabs.put l.connections key w.0 }) in
      let l1 = record l { connections = slabs.put l.connections key c' } in
      let v1 = put-Valid l.loop_id l.debug_assertions l.conn_count l.connections key c c' v at k in
      let rest : Bool → Run (EventLoop U × IoResult (Unit {0})) =
        λ named. if not named then done l else and_then (Output.write c (chunk d)) next in
      elim (Bool-cases (Gfd.eq c.gfd g)) [
        | inr differ ↦
            subst (λ (named : Bool). Ensures (λ l' r. Spares g l l') (rest named)) (sym differ)
              (λ j other. refl)
        | inl same ↦
            subst (λ (named : Bool). Ensures (λ l' r. Spares g l l') (rest named)) (sym same)
              (subst
                (λ (m : Run (Connection × IoResult ℕ)).
                  Ensures (λ l' r. Spares g l l') (and_then m next))
                (sym e)
                (weaken-Ensures (λ l' r. SparesOthers key l1 l') (λ l' r. Spares g l l')
                  (answered key res l1)
                  (λ l' r spared j unnamed. elim (Bool-cases (key == j)) [
                    | inl here_too ↦
                        let at_j =
                          ap (slabs.get l.connections) (sym ((==_iff key j).0 here_too)) ∙ at in
                        absurd (unnamed c at_j ((eq_iff c.gfd g).0 same))
                    | inr differ ↦
                        let other : key ≢ j = ground arith in
                        spared j other ∙ get-put_other l.connections key c' full j other
                  ])
                  (answered-SparesOthers key res l1 v1)))
      ]

  -- An asynchronous write that reaches a loop whose invariant holds changes no connection but one
  -- that has exactly its handle: not one of another loop, nor a later one under the same key.
  pub async_write_lem :
      (g : Gfd) (d : Bytes) (l : EventLoop U)
      → IsValid l
      → Ensures (λ l' r. Spares g l l') (async_write g d l)
  unfolding async_write
  async_write_lem g d l v =
      if-Ensures _ _ _ (not (event_loop_index g == l.loop_id)) (λ key other. refl)
        (write_to-Spares g d (slabs.get l.connections (slab_index g)) l v refl)
