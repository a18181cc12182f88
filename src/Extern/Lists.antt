-- ===== src/Extern/Lists.antt =====
-- Both buffer types as plain lists of bytes: the laws of Extern/Bytes can be met.
use rnet.Prelude.{ℕ, refl, List, [], ◌++◌, take, drop}
use rnet.Extern.Bytes.{BytesApi}

instance abbrev pub list_bytes : BytesApi
list_bytes = record {
  BytesMut = List ℕ;
  Bytes = List ℕ;
  contents = λ b. b;
  chunk = λ b. b;
  new = [];
  extend_from_slice = λ b s. b ++ s;
  split_to = λ b n. (take n b, drop n b);
  advance = λ b n. drop n b;
  clear = λ b. [];
  freeze = λ b. b;
  copy_from_slice = λ s. s;
  slice_from = λ b n. drop n b;
  advance_chunk = λ b n. drop n b;
  contents-new = refl;
  contents-extend_from_slice = λ b s. refl;
  contents-split_to_front = λ b n h. refl;
  contents-split_to_back = λ b n h. refl;
  contents-advance = λ b n h. refl;
  contents-clear = λ b. refl;
  chunk-freeze = λ b. refl;
  chunk-copy_from_slice = λ s. refl;
  chunk-slice_from = λ b n h. refl;
  chunk-advance_chunk = λ b n h. refl;
}
