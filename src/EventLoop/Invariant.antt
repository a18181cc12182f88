-- ===== src/EventLoop/Invariant.antt =====
-- The invariant of an event loop of src/event_loop.rs: the count of connections is that of the slab's
-- entries, and each entry has a socket and a handle that leads back to it.
use rnet.Prelude.{
  ℕ, ◌%◌, ◌^◌, ◌<◌, ◌≡◌, ◌≢◌, inl, inr, ap, sym, ◌∙◌, subst, Bool, false, Option, none, some, ◌==◌,
  ==_iff, arith, Bool-cases, if◌then◌else◌,
}
use rnet.Gfd.{event_loop_index, slab_index}
use rnet.Socket.{Socket}
use rnet.Connection.{Connection}
use rnet.Handler.{Keeps, KeepsOption}
use rnet.EventLoop.Closing.{count_up, count_down}
use rnet.Extern.Bytes.{BytesApi}
use rnet.Extern.Streams.{StreamApi}
use rnet.Extern.Slabs.{SlabApi}
use rnet.Codec.{CodecApi}

module _ ⦃bytes : BytesApi⦄ ⦃streams : StreamApi⦄ ⦃codecs : CodecApi⦄
    ⦃slabs : SlabApi Connection⦄ where
  -- A connection that may stand under the key in the loop of that number.
  abbrev pub Stands : ℕ → ℕ → Connection → Type 0
  Stands loop_id key c =
      ((s : Socket) × (c.socket ≡ some s))
      × (event_loop_index c.gfd ≡ loop_id)
      × (slab_index c.gfd ≡ key % 2 ^ 24)

  abbrev pub Entry : ℕ → ℕ → Option Connection → Type 0
  Entry loop_id key none = Unit {0}
  Entry loop_id key (some c) = Stands loop_id key c

  -- `debug` is off: a build with debug assertions panics at a slab of 2^24 entries.
  pub record Valid (loop_id : ℕ) (debug : Bool) (conn_count : ℕ) (cs : slabs.Slab) : Type 0 where
    pub counted : conn_count ≡ slabs.len cs % 2 ^ 64
    pub entries : (key : ℕ) → Entry loop_id key (slabs.get cs key)
    pub small : loop_id < 256
    pub release : debug ≡ false

  pub Entry-at :
      (loop_id key : ℕ) (o : Option Connection) {c : Connection}
      → o ≡ some c
      → Entry loop_id key o
      → Stands loop_id key c
  Entry-at loop_id key o e h = subst (Entry loop_id key) e h

  Stands-Keeps :
      (loop_id key : ℕ) (c c' : Connection)
      → Keeps c c'
      → Stands loop_id key c
      → Stands loop_id key c'
  Stands-Keeps loop_id key c c' k ((s, at_s), here, there) =
      (k.open_still s at_s, ap event_loop_index k.same_gfd ∙ here, ap slab_index k.same_gfd ∙ there)

  pub found-ne-none : (o : Option Connection) {c : Connection} → o ≡ some c → o ≢ none
  found-ne-none o e n = ground arith

  Entry-if :
      (loop_id key j : ℕ) (o p : Option Connection)
      → (key ≡ j → Entry loop_id key o)
      → Entry loop_id key p
      → Entry loop_id key (if key == j then o else p)
  Entry-if loop_id key j o p new old = elim (Bool-cases (key == j)) [
    | inl same ↦ rw same (new ((==_iff key j).0 same))
    | inr other ↦ rw other old
  ]

  pub put-Valid :
      (loop_id : ℕ) (debug : Bool) (n : ℕ) (cs : slabs.Slab) (key : ℕ) (c c' : Connection)
      → Valid loop_id debug n cs
      → slabs.get cs key ≡ some c
      → Keeps c c'
      → Valid loop_id debug n (slabs.put cs key c')
  put-Valid loop_id debug n cs key c c' v found k =
      let full = found-ne-none (slabs.get cs key) found in
      record {
        counted = v.counted ∙ ap (λ (m : ℕ). m % 2 ^ 64) (sym (slabs.len-put cs key c' full));
        entries = λ j. subst (Entry loop_id j) (sym (slabs.get-put cs key j c' full)) (
            Entry-if loop_id j key (some c') (slabs.get cs j)
              (λ same.
                subst (λ (i : ℕ). Stands loop_id i c') (sym same)
                  (Stands-Keeps loop_id key c c' k
                    (Entry-at loop_id key (slabs.get cs key) found (v.entries key))))
              (v.entries j));
        small = v.small;
        release = v.release;
      }

  pub remove-Valid :
      (loop_id : ℕ) (debug : Bool) (n : ℕ) (cs : slabs.Slab) (key : ℕ)
      → Valid loop_id debug n cs
      → slabs.get cs key ≢ none
      → Valid loop_id debug (count_down n) (slabs.remove cs key)
  remove-Valid loop_id debug n cs key v full =
      let fewer = slabs.len-remove cs key full in
      let counted = v.counted in
      record {
        counted = omega arith;
        entries = λ j.
            subst (Entry loop_id j) (sym (slabs.get-remove cs key j full))
              (Entry-if loop_id j key none (slabs.get cs j) (λ same. tt) (v.entries j));
        small = v.small;
        release = v.release;
      }

  pub insert-Valid :
      (loop_id : ℕ) (debug : Bool) (n : ℕ) (cs : slabs.Slab) (c : Connection)
      → Valid loop_id debug n cs
      → Stands loop_id (slabs.vacant_key cs) c
      → Valid loop_id debug (count_up n) (slabs.insert cs c)
  insert-Valid loop_id debug n cs c v stands =
      let more = slabs.len-insert cs c in
      let counted = v.counted in
      record {
        counted = omega arith;
        entries = λ j. subst (Entry loop_id j) (sym (slabs.get-insert cs c j)) (
            Entry-if loop_id j (slabs.vacant_key cs) (some c) (slabs.get cs j)
              (λ same. subst (λ (i : ℕ). Stands loop_id i c) (sym same) stands) (v.entries j));
        small = v.small;
        release = v.release;
      }

  Entry-KeepsOption :
      (loop_id key : ℕ) (o p : Option Connection)
      → KeepsOption o p
      → Entry loop_id key o
      → Entry loop_id key p
  Entry-KeepsOption loop_id key none none k h = tt
  Entry-KeepsOption loop_id key none (some c) k h = absurd k
  Entry-KeepsOption loop_id key (some c) none k h = absurd k
  Entry-KeepsOption loop_id key (some c) (some c') k h = Stands-Keeps loop_id key c c' k h

  -- All connections were lent out and came back.
  pub lent-Valid :
      (loop_id : ℕ) (debug : Bool) (n : ℕ) (cs cs' : slabs.Slab)
      → Valid loop_id debug n cs
      → slabs.len cs' ≡ slabs.len cs
      → ((key : ℕ) → KeepsOption (slabs.get cs key) (slabs.get cs' key))
      → Valid loop_id debug n cs'
  lent-Valid loop_id debug n cs cs' v same k = record {
    counted = v.counted ∙ ap (λ (m : ℕ). m % 2 ^ 64) (sym same);
    entries = λ key.
        Entry-KeepsOption loop_id key (slabs.get cs key) (slabs.get cs' key) (k key)
          (v.entries key);
    small = v.small;
    release = v.release;
  }
