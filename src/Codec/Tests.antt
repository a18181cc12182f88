-- ===== src/Codec/Tests.antt =====
-- The raw codec on concrete bytes.
use rnet.Prelude.{◌≡◌, refl, [], ◌∷◌}
use rnet.Io.{ret, err, invalid_input}
use rnet.Extern.Lists.{list_bytes}
use rnet.Codec.{raw, foreign, encode}

encode_run : encode raw (foreign 0) (1 ∷ []) ≡ ret (raw, 1 ∷ [], err invalid_input)
unfolding encode
encode_run = refl
