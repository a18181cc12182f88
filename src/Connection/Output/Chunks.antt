-- ===== src/Connection/Output/Chunks.antt =====
-- The bytes of a chunk queue of src/connection.rs: what the loops push and pop.
use rnet.Prelude.{
  ℕ, zero, suc, ◌-◌, ◌≤◌, ◌≡◌, refl, ap, ap₂, sym, ◌∙◌, List, [], ◌∷◌, ◌++◌, map, ltb, leb, length,
  drop, arith, Bool-cases, inl, inr, map-append, leb→le, drop-append_le, drop-append_ge,
}
use rnet.Io.{concat, concat-append}
use rnet.Extern.Bytes.{BytesApi}
use rnet.Extern.Streams.{StreamApi}
use rnet.Codec.{CodecApi}
use rnet.Connection.{queued}
use rnet.Connection.Output.{left_of_slices, left_of_bytes, consume}

module _ ⦃bytes : BytesApi⦄ ⦃streams : StreamApi⦄ ⦃codecs : CodecApi⦄ where
  open bytes use {Bytes, chunk, copy_from_slice, slice_from, advance_chunk}

  pub queued-append : (q r : List Bytes) → queued (q ++ r) ≡ queued q ++ queued r
  queued-append q r = ap concat (map-append chunk q r) ∙ concat-append (map chunk q) (map chunk r)

  pub queued-copies : (bufs : List (List ℕ)) → queued (map copy_from_slice bufs) ≡ concat bufs
  queued-copies [] = refl
  queued-copies (buf ∷ bufs) = ap₂ ◌++◌ (bytes.chunk-copy_from_slice buf) (queued-copies bufs)

  -- What a partial vectored write leaves to be queued is what was not written.
  pub queued-left_of_slices :
      (written : ℕ) (bufs : List (List ℕ))
      → queued (left_of_slices written bufs) ≡ drop written (concat bufs)
  unfolding left_of_slices
  queued-left_of_slices zero [] = refl
  queued-left_of_slices (suc written) [] = refl
  queued-left_of_slices written (buf ∷ bufs) = elim (Bool-cases (leb (length buf) written)) [
    | inl past ↦ rw past (
        queued-left_of_slices (written - length buf) bufs
        ∙ sym (drop-append_ge written buf (concat bufs) (leb→le (length buf) written past)))
    | inr within ↦
        let inside : written ≤ length buf = ground arith in
        rw within (
          ap₂ ◌++◌ (bytes.chunk-copy_from_slice (drop written buf)) (queued-left_of_slices 0 bufs)
          ∙ sym (drop-append_le written buf (concat bufs) inside))
  ]

  pub queued-left_of_bytes :
      (written : ℕ) (bufs : List Bytes)
      → queued (left_of_bytes written bufs) ≡ drop written (queued bufs)
  unfolding left_of_bytes
  queued-left_of_bytes zero [] = refl
  queued-left_of_bytes (suc written) [] = refl
  queued-left_of_bytes written (buf ∷ bufs) = elim (Bool-cases (leb (length (chunk buf)) written)) [
    | inl past ↦ rw past (
        queued-left_of_bytes (written - length (chunk buf)) bufs
        ∙ sym (
            drop-append_ge written (chunk buf) (queued bufs)
              (leb→le (length (chunk buf)) written past)))
    | inr within ↦
        let inside : written ≤ length (chunk buf) = ground arith in
        elim (Bool-cases (ltb 0 written)) [
          | inl part ↦
              rw (within, part)
                (ap₂ ◌++◌ (bytes.chunk-slice_from buf written inside) (queued-left_of_bytes 0 bufs)
                  ∙ sym (drop-append_le written (chunk buf) (queued bufs) inside))
          | inr none_written ↦
              let nothing : written ≡ 0 = ground arith in
              rw (within, none_written)
                (ap (◌++◌ (chunk buf)) (
                    queued-left_of_bytes written bufs
                    ∙ ap (λ (k : ℕ). drop k (queued bufs)) nothing)
                  ∙ ap (λ (k : ℕ). drop k (chunk buf ++ queued bufs)) (sym nothing))
        ]
  ]

  -- Consuming so many bytes drops them from the front.
  pub queued-consume : (n : ℕ) (q : List Bytes) → queued (consume n q) ≡ drop n (queued q)
  unfolding consume
  queued-consume zero q = refl
  queued-consume (suc n) [] = refl
  queued-consume (suc n) (front ∷ q) = elim (Bool-cases (leb (length (chunk front)) (suc n))) [
    | inl past ↦ rw past (
        queued-consume (suc n - length (chunk front)) q
        ∙ sym (
            drop-append_ge (suc n) (chunk front) (queued q)
              (leb→le (length (chunk front)) (suc n) past)))
    | inr within ↦
        let inside : suc n ≤ length (chunk front) = ground arith in
        rw within (
          ap (λ (s : List ℕ). s ++ queued q) (bytes.chunk-advance_chunk front (suc n) inside)
          ∙ sym (drop-append_le (suc n) (chunk front) (queued q) inside))
  ]
