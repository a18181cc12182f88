-- ===== src/Extern/Channels.antt =====
-- An unbounded channel of `crossbeam::channel`, at both its ends.
use rnet.Prelude.{ℕ, ◌≡◌, Bool, true, false, List, [], ◌∷◌, ◌++◌, length}

-- What `try_recv` returns.
pub data Received {ℓ} (A : Type ℓ) : Type ℓ where
  got : A → Received A
  is_empty is_disconnected : Received A

-- `queue` is what was sent and not received yet, oldest first; `send` tells whether it succeeded,
-- which it does not if the other end is gone.
pub record ChannelApi (A : Type 0) : Type 1 where
  pub Channel : Type 0
  pub queue : Channel → List A
  pub len : Channel → ℕ
  pub send : Channel → A → Channel × Bool
  pub try_recv : Channel → Channel × Received A
  pub len-queue : (c : Channel) → len c ≡ length (queue c)
  pub send-ok :
      (c : Channel) (a : A) → (send c a).1 ≡ true → queue (send c a).0 ≡ queue c ++ (a ∷ [])
  pub send-err : (c : Channel) (a : A) → (send c a).1 ≡ false → queue (send c a).0 ≡ queue c
  pub try_recv-got :
      (c : Channel) (a : A) → (try_recv c).1 ≡ got a → queue c ≡ a ∷ queue (try_recv c).0
  pub try_recv-is_empty :
      (c : Channel) → (try_recv c).1 ≡ is_empty → (queue c ≡ []) × (queue (try_recv c).0 ≡ [])
  pub try_recv-is_disconnected :
      (c : Channel)
      → (try_recv c).1 ≡ is_disconnected
      → (queue c ≡ []) × (queue (try_recv c).0 ≡ [])
