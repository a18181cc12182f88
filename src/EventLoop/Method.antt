-- ===== src/EventLoop/Method.antt =====
-- A method on `&mut self` of src/event_loop.rs that returns an `io::Result` and may panic. The state
-- comes back with an error too, since what was written stays written.
use rnet.Prelude.{Bool, true, false, if◌then◌else◌}
use rnet.Io.{ErrorKind, IoResult, ok, err, Run, ret, panic}

abbrev pub Method : Type 0 → Type 0 → Type 0
Method S A = S → Run (S × IoResult A)

module _ {S : Type 0} where
  abbrev pub done : Method S (Unit {0})
  done s = ret (s, ok tt)

  abbrev pub fails : ErrorKind → Method S (Unit {0})
  fails e s = ret (s, err e)

  -- How a call goes on: `?`.
  abbrev pub continue :
      {A B : Type 0} → (A → Method S B) → Run (S × IoResult A) → Run (S × IoResult B)
  continue f (ret (s, ok a)) = f a s
  continue f (ret (s, err e)) = ret (s, err e)
  continue f panic = panic

  infixl 5 ◌>>=◌ ◌>>◌
  abbrev pub ◌>>=◌ : {A B : Type 0} → Method S A → (A → Method S B) → Method S B
  ◌>>=◌ m f s = continue f (m s)

  abbrev pub ◌>>◌ : {B : Type 0} → Method S (Unit {0}) → Method S B → Method S B
  m >> k = m >>= λ _. k

  abbrev pub forget : {A : Type 0} → Run (S × IoResult A) → Run (S × IoResult (Unit {0}))
  forget (ret (s, r)) = ret (s, ok tt)
  forget panic = panic

  -- `let _ = m;`
  abbrev pub ignore : {A : Type 0} → Method S A → Method S (Unit {0})
  ignore m s = forget (m s)

  -- A call ends without a panic, in a state and with a result as stated.
  abbrev pub Ensures : {A : Type 0} → (S → IoResult A → Type 0) → Run (S × IoResult A) → Type 0
  Ensures P (ret (s, r)) = P s r
  Ensures P panic = ⊥

  -- The rule for a chain of calls.
  pub continue-Ensures :
      {A B : Type 0} (P : S → IoResult A → Type 0) (Q : S → IoResult B → Type 0)
      (f : A → Method S B) (m : Run (S × IoResult A))
      → ((s : S) (a : A) → P s (ok a) → Ensures Q (f a s))
      → ((s : S) (e : ErrorKind) → P s (err e) → Q s (err e))
      → Ensures P m
      → Ensures Q (continue f m)
  continue-Ensures P Q f (ret (s, ok a)) good bad h = good s a h
  continue-Ensures P Q f (ret (s, err e)) good bad h = bad s e h
  continue-Ensures P Q f panic good bad h = h

  pub if-Ensures :
      {A : Type 0} (P : S → IoResult A → Type 0) (m k : Run (S × IoResult A)) (b : Bool)
      → Ensures P m
      → Ensures P k
      → Ensures P (if b then m else k)
  if-Ensures P m k true first second = first
  if-Ensures P m k false first second = second

  pub forget-Ensures :
      {A : Type 0} (P : S → Type 0) (m : Run (S × IoResult A))
      → Ensures (λ s r. P s) m
      → Ensures (λ s r. P s) (forget m)
  forget-Ensures P (ret (s, r)) h = h
  forget-Ensures P panic h = h

  pub weaken-Ensures :
      {A : Type 0} (P Q : S → IoResult A → Type 0) (m : Run (S × IoResult A))
      → ((s : S) (r : IoResult A) → P s r → Q s r)
      → Ensures P m
      → Ensures Q m
  weaken-Ensures P Q (ret (s, r)) imp h = imp s r h
  weaken-Ensures P Q panic imp h = h

  -- The rule for a call whose result is dropped.
  pub ignore-Ensures :
      {A B : Type 0} (P : S → Type 0) (Q : S → IoResult B → Type 0) (k : Method S B)
      (m : Run (S × IoResult A))
      → Ensures (λ s r. P s) m
      → ((s : S) → P s → Ensures Q (k s))
      → Ensures Q (continue (λ u. k) (forget m))
  ignore-Ensures P Q k (ret (s, r)) h next = next s h
  ignore-Ensures P Q k panic h next = h
