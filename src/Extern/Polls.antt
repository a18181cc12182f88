-- ===== src/Extern/Polls.antt =====
-- `mio::Poll`: which descriptors it watches, under which token, and for which events; and
-- `mio::Waker`.
use rnet.Prelude.{ℕ, ◌≡◌, Bool, Option, none, some, if◌then◌else◌}
use rnet.Prelude.Int.{ℤ, eq_ℤ}
use rnet.Io.{IoResult, ok}

-- Every source is watched for reading; the flag tells whether it is for writing too.
pub record PollApi : Type 1 where
  pub Poll : Type 0
  pub watched : Poll → ℤ → Option (ℕ × Bool)
  pub register : Poll → ℤ → (token : ℕ) → (writable : Bool) → Poll × IoResult (Unit {0})
  pub reregister : Poll → ℤ → (token : ℕ) → (writable : Bool) → Poll × IoResult (Unit {0})
  pub deregister : Poll → ℤ → Poll × IoResult (Unit {0})
  pub register-ok :
      (p : Poll) (fd other : ℤ) (token : ℕ) (writable : Bool)
      → (register p fd token writable).1 ≡ ok tt
      → watched (register p fd token writable).0 other
        ≡ (if eq_ℤ other fd then some (token, writable) else watched p other)
  pub reregister-ok :
      (p : Poll) (fd other : ℤ) (token : ℕ) (writable : Bool)
      → (reregister p fd token writable).1 ≡ ok tt
      → watched (reregister p fd token writable).0 other
        ≡ (if eq_ℤ other fd then some (token, writable) else watched p other)
  pub deregister-ok :
      (p : Poll) (fd other : ℤ)
      → (deregister p fd).1 ≡ ok tt
      → watched (deregister p fd).0 other ≡ (if eq_ℤ other fd then none else watched p other)

pub record WakerApi : Type 1 where
  pub MioWaker : Type 0
  pub inner_wake : MioWaker → MioWaker × IoResult (Unit {0})
