-- ===== src/Connection/Output/Wire.antt =====
-- What a connection of src/connection.rs has sent or queued, and how a write adds to it.
use rnet.Prelude.{
  ℕ, ◌≤◌, ◌≡◌, ◌≢◌, ◌⊎◌, inl, inr, refl, ap, ap₂, sym, ◌∙◌, true, false, List, [], ◌∷◌, ◌++◌,
  Option, none, some, length, take, drop, arith, append-nil, append_assoc, take-append-drop,
  take_ge,
}
use rnet.Io.{ErrorKind, would_block, interrupted, IoResult, ok, err}
use rnet.Extern.Bytes.{BytesApi}
use rnet.Extern.Streams.{StreamApi}
use rnet.Codec.{CodecApi}
use rnet.Socket.{Socket, sent}
use rnet.Connection.{Connection, chunks, queued, unsent}
use rnet.Connection.Output.{put_off, nonempty, push_all}
use rnet.Connection.Output.Chunks.{queued-append}

module _ ⦃bytes : BytesApi⦄ ⦃streams : StreamApi⦄ ⦃codecs : CodecApi⦄ where
  open bytes use {Bytes, chunk, copy_from_slice, slice_from}

  abbrev pub sent_by : Option Socket → List ℕ
  sent_by (some s) = sent s
  sent_by none = []

  -- What the socket has accepted, and behind it what is still to be sent.
  abbrev pub wire : Connection → List ℕ
  wire c = sent_by c.socket ++ unsent c

  -- A call that was given the bytes `d` either succeeds for all of them, and they stand behind all
  -- earlier ones; or nothing waited, it fails by the error that the socket answers, which is neither
  -- `WouldBlock` nor `Interrupted`, and adds nothing. The socket is asked unless something waits already or there are
  -- no bytes. Nothing but the socket and the queue changes.
  pub record Delivers (answer : Socket × IoResult ℕ) (c : Connection) (d : List ℕ) (c' : Connection)
      (r : IoResult ℕ) : Type 0 where
    pub outcome :
        ((r ≡ ok (length d)) × (wire c' ≡ wire c ++ d))
        ⊎ ((e : ErrorKind) × (r ≡ err e)
            × (unsent c ≡ [])
            × (answer.1 ≡ err e)
            × ((e ≢ would_block) × (e ≢ interrupted))
            × (wire c' ≡ wire c))
    pub asked :
        (c'.socket ≡ some answer.0)
        ⊎ ((c'.socket ≡ c.socket) × ((chunks c.out_buffer ≢ []) ⊎ (d ≡ [])))
    pub frame : record c' { socket = c.socket; out_buffer = c.out_buffer } ≡ c

  pub not_put_off : (e : ErrorKind) → put_off e ≡ false → (e ≢ would_block) × (e ≢ interrupted)
  not_put_off e h = (λ same. ground arith, λ same. ground arith)

  pub wire-push_all :
      (c : Connection) (bs : List Bytes) → wire (push_all c bs) ≡ wire c ++ queued bs
  wire-push_all c bs =
      ap (◌++◌ (sent_by c.socket)) (queued-append (chunks c.out_buffer) bs)
      ∙ sym (append_assoc (sent_by c.socket) (unsent c) (queued bs))

  -- The socket has accepted the first `n` bytes while nothing was queued, and the others are
  -- queued now.
  pub settle_part :
      (c : Connection) (s s' : Socket) (d : List ℕ) (n : ℕ) (bs : List Bytes)
      → c.socket ≡ some s
      → unsent c ≡ []
      → sent s' ≡ sent s ++ take n d
      → queued bs ≡ drop n d
      → wire (push_all (record c { socket = some s' }) bs) ≡ wire c ++ d
  settle_part c s s' d n bs at_s idle took left =
      wire-push_all (record c { socket = some s' }) bs
      ∙ ap₂ ◌++◌ (ap₂ ◌++◌ took idle ∙ append-nil (sent s ++ take n d)) left
      ∙ append_assoc (sent s) (take n d) (drop n d)
      ∙ ap (◌++◌ (sent s)) (take-append-drop n d)
      ∙ ap (λ (x : List ℕ). x ++ d) (sym (ap₂ ◌++◌ (ap sent_by at_s) idle ∙ append-nil (sent s)))

  pub settle_all :
      (c : Connection) (s s' : Socket) (d : List ℕ) (n : ℕ)
      → c.socket ≡ some s
      → unsent c ≡ []
      → sent s' ≡ sent s ++ take n d
      → length d ≤ n
      → wire (record c { socket = some s' }) ≡ wire c ++ d
  settle_all c s s' d n at_s idle took all =
      ap₂ ◌++◌ took idle
      ∙ append-nil (sent s ++ take n d)
      ∙ ap (◌++◌ (sent s)) (take_ge n d all)
      ∙ ap (λ (x : List ℕ). x ++ d) (sym (ap₂ ◌++◌ (ap sent_by at_s) idle ∙ append-nil (sent s)))

  pub settle_none :
      (c : Connection) (s s' : Socket)
      → c.socket ≡ some s
      → sent s' ≡ sent s
      → wire (record c { socket = some s' }) ≡ wire c
  settle_none c s s' at_s same = ap (λ (x : List ℕ). x ++ unsent c) (same ∙ sym (ap sent_by at_s))

  pub settle_later :
      (c : Connection) (s s' : Socket) (d : List ℕ) (bs : List Bytes)
      → c.socket ≡ some s
      → sent s' ≡ sent s
      → queued bs ≡ d
      → wire (push_all (record c { socket = some s' }) bs) ≡ wire c ++ d
  settle_later c s s' d bs at_s same all =
      wire-push_all (record c { socket = some s' }) bs ∙ ap₂ ◌++◌ (settle_none c s s' at_s same) all

  pub queued_one : (b : Bytes) → queued (b ∷ []) ≡ chunk b
  queued_one b = append-nil (chunk b)

  pub idle-unsent : (q : Option (List Bytes)) → nonempty (chunks q) ≡ false → queued (chunks q) ≡ []
  idle-unsent none h = refl
  idle-unsent (some []) h = refl
  idle-unsent (some (b ∷ q)) h = ground arith

  -- Behind a queue that is not empty everything waits.
  busy-chunks : (q : Option (List Bytes)) → nonempty (chunks q) ≡ true → chunks q ≢ []
  busy-chunks none h e = ground arith
  busy-chunks (some []) h e = ground arith
  busy-chunks (some (b ∷ q)) h e = ground arith

  pub busy-Delivers :
      (answer : Socket × IoResult ℕ) (c : Connection) (d : List ℕ) (bs : List Bytes)
      → nonempty (chunks c.out_buffer) ≡ true
      → queued bs ≡ d
      → Delivers answer c d (push_all c bs) (ok (length d))
  busy-Delivers answer c d bs busy all = record {
    outcome = inl (refl, wire-push_all c bs ∙ ap (◌++◌ (wire c)) all);
    asked = inr (refl, inl (busy-chunks c.out_buffer busy));
    frame = refl;
  }
