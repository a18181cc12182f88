-- ===== src/EventLoop/Accepting/Effect.antt =====
-- `accept_process` of src/event_loop.rs, whatever comes in and whatever the user's code does.
use rnet.Prelude.{
  ℕ, zero, suc, ◌<◌, ◌≡◌, refl, ap, sym, subst, List, [], ◌∷◌, Option, none, some, length,
  get_elem?, arith,
}
use rnet.Io.{IoResult, ok, err, Run, ret, panic}
use rnet.SocketAddr.{NetworkAddress}
use rnet.Socket.{Socket}
use rnet.Listener
use rnet.Listener.{Listener, pending}
use rnet.Listener.Waiting.{pending-accept}
use rnet.EventLoop.Method.{Ensures, continue-Ensures}
use rnet.EventLoop.Opening.{register}
use rnet.EventLoop.Opening.Effect.{register-IsValid}
use rnet.EventLoop.Accepting.{
  set_nth, carry, admit_from, after_accept, accept_loop, put_listeners, accept_at, accept_taken,
  accept_process,
}
use rnet.EventLoop.Preserving.{IsValid}
use rnet.Connection.{Connection}
use rnet.Extern.Bytes.{BytesApi}
use rnet.Extern.Streams.{StreamApi}
use rnet.Extern.Channels.{ChannelApi}
use rnet.Extern.Polls.{PollApi, WakerApi}
use rnet.Extern.Slabs.{SlabApi}
use rnet.Extern.Listeners.{ListenerApi}
use rnet.Codec.{CodecApi}
use rnet.Command.{Command}
use rnet.Handler.{EventHandler}
use rnet.EventLoop.Handle.{Shared}
use rnet.EventLoop.State.{EventLoop}

pub length-set_nth :
    {A : Type 0} (xs : List A) (n : ℕ) (y : A) → length (set_nth xs n y) ≡ length xs
unfolding set_nth
length-set_nth [] n y = refl
length-set_nth (x ∷ xs) zero y = refl
length-set_nth (x ∷ xs) (suc n) y = ap suc (length-set_nth xs n y)

module _ ⦃streams : StreamApi⦄ ⦃listening : ListenerApi⦄ where
  -- There are listeners afterwards exactly if there were, and as many.
  abbrev pub AsMany : Option (List Listener) → Option (List Listener) → Type 0
  AsMany none none = Unit {0}
  AsMany (some xs) (some ys) = length xs ≡ length ys
  AsMany _ _ = ⊥

module _ ⦃bytes : BytesApi⦄ ⦃streams : StreamApi⦄ ⦃codecs : CodecApi⦄
    ⦃channels : ChannelApi Command⦄ ⦃wakers : WakerApi⦄ ⦃polls : PollApi⦄
    ⦃slabs : SlabApi Connection⦄ ⦃listening : ListenerApi⦄ {U : Type 0}
    ⦃handler : EventHandler (Shared U)⦄ where
  carry-Ensures :
      (x : Listener) (out : Run (EventLoop U × IoResult (Unit {0})))
      → Ensures (λ l r. IsValid l) out
      → Ensures (λ s r. IsValid s.0 × (s.1 ≡ x)) (carry x out)
  carry-Ensures x (ret (l, r)) h = (h, refl)
  carry-Ensures x panic h = h

  admit_from-Ensures :
      (local_addr : IoResult NetworkAddress) (s : Socket) (peer_addr : NetworkAddress)
      (l : EventLoop U) (x : Listener)
      → IsValid l
      → Ensures (λ t r. IsValid t.0 × (t.1 ≡ x)) (admit_from local_addr s peer_addr (l, x))
  unfolding admit_from
  admit_from-Ensures (err e) s peer_addr l x v = (v, refl)
  admit_from-Ensures (ok local_addr) s peer_addr l x v =
      carry-Ensures x (register s local_addr peer_addr l)
        (register-IsValid s local_addr peer_addr l v)

  accept_loop-Ensures :
      (fuel : ℕ) (l : EventLoop U) (x : Listener)
      → IsValid l
      → pending x.inner < fuel
      → Ensures (λ s r. IsValid s.0) (accept_loop fuel (l, x))
  unfolding accept_loop after_accept
  accept_loop-Ensures zero l x v enough = absurd (omega arith)
  accept_loop-Ensures (suc fuel) l x v enough =
      go (Listener.accept x).1 refl (λ m y. accept_loop-Ensures fuel m y)
    where
      go :
          (res : IoResult (Socket × NetworkAddress))
          → (Listener.accept x).1 ≡ res
          → ((m : EventLoop U) (y : Listener)
              → IsValid m
              → pending y.inner < fuel
              → Ensures (λ s r. IsValid s.0) (accept_loop fuel (m, y)))
          → Ensures
              (λ s r. IsValid s.0)
              (after_accept (accept_loop fuel) res (l, (Listener.accept x).0))
      go (err e) at later = v
      go (ok (s, peer_addr)) at later =
          let less = pending-accept x s peer_addr at in
          let x' = (Listener.accept x).0 in
          let fits : pending x'.inner < fuel = omega arith in
          continue-Ensures _ _ (λ u. accept_loop fuel)
            (admit_from (Listener.local_addr x') s peer_addr (l, x'))
            (λ t u h.
              later t.0 t.1 h.0 (subst (λ (y : Listener). pending y.inner < fuel) (sym h.1) fits))
            (λ t e h. h.0) (admit_from-Ensures (Listener.local_addr x') s peer_addr l x' v)

  put_listeners-Ensures :
      (xs : List Listener) (idx : ℕ) (out : Run ((EventLoop U × Listener) × IoResult (Unit {0})))
      → Ensures (λ s r. IsValid s.0) out
      → Ensures (λ l' r. IsValid l' × AsMany (some xs) l'.listeners) (put_listeners xs idx out)
  unfolding put_listeners
  put_listeners-Ensures xs idx (ret ((l, x), r)) h = (h, sym (length-set_nth xs idx x))
  put_listeners-Ensures xs idx panic h = h

  accept_taken-Ensures :
      (o : Option (List Listener)) (idx : ℕ) (l : EventLoop U)
      → IsValid l
      → l.listeners ≡ none
      → Ensures (λ l' r. IsValid l' × AsMany o l'.listeners) (accept_taken o idx l)
  unfolding accept_taken accept_at
  accept_taken-Ensures none idx l v taken = (v, subst (AsMany none) (sym taken) tt)
  accept_taken-Ensures (some xs) idx l v taken = go (get_elem? xs idx)
    where
      go :
          (found : Option Listener)
          → Ensures (λ l' r. IsValid l' × AsMany (some xs) l'.listeners) (accept_at xs idx found l)
      go none = (v, refl)
      go (some x) =
          put_listeners-Ensures xs idx (accept_loop (suc (pending x.inner)) (l, x))
            (accept_loop-Ensures (suc (pending x.inner)) l x v (omega arith))

  -- `accept_process` in a loop whose invariant holds, in a release build, with a handler that leaves
  -- handle and socket to the connections that it is lent, and listeners of which each has a bounded
  -- number of connections to give: it ends, does not panic and keeps the loop's invariant, also where a listener of that number does not exist,
  -- fails, or a registration fails. The loop has as many listeners afterwards as before.
  pub accept_process_lem :
      (idx : ℕ) (l : EventLoop U)
      → IsValid l
      → Ensures (λ l' r. IsValid l' × AsMany l.listeners l'.listeners) (accept_process idx l)
  unfolding accept_process
  accept_process_lem idx l v =
      accept_taken-Ensures l.listeners idx (record l { listeners = none }) v refl
