-- ===== src/Poller/Tokens.antt =====
-- The tokens of src/poller.rs.
use rnet.Prelude.{ℕ, ◌^◌, ◌<◌, ◌≡◌, ◌↔◌, Bool, true, false, some, arith}
use rnet.Io.{ret}
use rnet.Poller.{listener_token, is_listener_token}

-- A token is read as listener `i` exactly if `i` is below 1024 and the token is the one made for
-- listener `i`, which overflows in no build; `i` is a `usize`.
pub is_listener_token_iff :
    (overflow_checks : Bool) (i token : ℕ)
    → i < 2 ^ 64
    → (is_listener_token token ≡ some i)
      ↔ ((i < 1024) × (listener_token overflow_checks i ≡ ret token))
unfolding is_listener_token listener_token
is_listener_token_iff true i token h = (λ e. ground arith, λ e. ground arith)
is_listener_token_iff false i token h = (λ e. ground arith, λ e. ground arith)
