-- ===== src/Extern/Script.antt =====
-- A stream that answers by a script, for the tests: the laws of Extern/Streams can be met.
use rnet.Prelude.{
  ℕ, zero, suc, ◌≤◌, ◌<◌, ◌≡◌, refl, List, [], ◌∷◌, ◌++◌, length, take, length-take, min, arith, ap,
}
use rnet.Prelude.Int.{ℤ}
use rnet.Io.{ErrorKind, would_block, interrupted, IoResult, ok, err, concat}
use rnet.Extern.Streams.{StreamApi}

-- What the operating system does with the next write: it takes at most so many bytes, or fails.
pub data Answer : Type 0 where
  takes : ℕ → Answer
  fails : ErrorKind → Answer

-- Without a script left every call would block.
pub record Scripted : Type 0 where
  pub descriptor : ℤ
  pub accepted : List ℕ
  pub answers : List Answer
  pub arriving : List (List ℕ)

abbrev pub interrupts : List Answer → ℕ
interrupts [] = 0
interrupts (takes n ∷ later) = interrupts later
interrupts (fails interrupted ∷ later) = suc (interrupts later)
interrupts (fails _ ∷ later) = interrupts later

abbrev put_answer : List Answer → Scripted → List ℕ → Scripted × IoResult ℕ
put_answer [] s bytes = (s, err would_block)
put_answer (takes n ∷ rest) s bytes =
    (record s { accepted = s.accepted ++ take n bytes; answers = rest }, ok (min n (length bytes)))
put_answer (fails e ∷ rest) s bytes = (record s { answers = rest }, err e)

abbrev pub put : Scripted → List ℕ → Scripted × IoResult ℕ
put s bytes = put_answer s.answers s bytes

abbrev get_answer : List (List ℕ) → Scripted → ℕ → Scripted × IoResult (List ℕ)
get_answer [] s n = (s, err would_block)
get_answer (b ∷ rest) s n = (record s { arriving = rest }, ok (take n b))

take-min : (n : ℕ) (bs : List ℕ) → take (min n (length bs)) bs ≡ take n bs
take-min zero bs = let e : min 0 (length bs) ≡ 0 = omega arith in rw e
take-min (suc n) [] = let e : min (suc n) 0 ≡ 0 = omega arith in rw e
take-min (suc n) (b ∷ bs) =
    let e : min (suc n) (suc (length bs)) ≡ suc (min n (length bs)) = omega arith in
    rw e (ap (◌∷◌ b) (take-min n bs))

pub put-ok :
    (s : Scripted) (bytes : List ℕ) (n : ℕ)
    → (put s bytes).1 ≡ ok n
    → (n ≤ length bytes) × ((put s bytes).0.accepted ≡ s.accepted ++ take n bytes)
put-ok s bytes n h = go s.answers h
  where
    go :
        (a : List Answer)
        → (put_answer a s bytes).1 ≡ ok n
        → (n ≤ length bytes) × ((put_answer a s bytes).0.accepted ≡ s.accepted ++ take n bytes)
    go [] h = ground arith
    go (takes m ∷ rest) h = ground (arith, take-min m bytes)
    go (fails e ∷ rest) h = ground arith

pub put-err :
    (s : Scripted) (bytes : List ℕ) (e : ErrorKind)
    → (put s bytes).1 ≡ err e
    → (put s bytes).0.accepted ≡ s.accepted
put-err s bytes e h = ground arith

pub put-interruptions :
    (s : Scripted) (bytes : List ℕ) → interrupts (put s bytes).0.answers ≤ interrupts s.answers
put-interruptions s bytes = ground arith

pub put-interrupted :
    (s : Scripted) (bytes : List ℕ)
    → (put s bytes).1 ≡ err interrupted
    → interrupts (put s bytes).0.answers < interrupts s.answers
put-interrupted s bytes h = ground arith

pub get-ok :
    (s : Scripted) (n : ℕ) (bs : List ℕ) → (get_answer s.arriving s n).1 ≡ ok bs → length bs ≤ n
get-ok s n bs h = go s.arriving h
  where
    go : (a : List (List ℕ)) → (get_answer a s n).1 ≡ ok bs → length bs ≤ n
    go [] h = ground arith
    go (b ∷ rest) h = ground (arith, length-take n b)

pub get-accepted : (s : Scripted) (n : ℕ) → (get_answer s.arriving s n).0.accepted ≡ s.accepted
get-accepted s n = ground arith

instance abbrev pub scripted_streams : StreamApi
scripted_streams = record {
  Stream = Scripted;
  fd = λ s. s.descriptor;
  sent = λ s. s.accepted;
  interruptions = λ s. interrupts s.answers;
  set_nodelay = λ s on. (s, ok tt);
  read = λ s n. get_answer s.arriving s n;
  write = put;
  write_vectored = λ s bufs. put s (concat bufs);
  flush = λ s. (s, ok tt);
  read-ok = get-ok;
  read-sent = get-accepted;
  write-ok = put-ok;
  write-err = put-err;
  write_vectored-ok = λ s bufs. put-ok s (concat bufs);
  write_vectored-err = λ s bufs. put-err s (concat bufs);
  write_vectored-interruptions = λ s bufs. put-interruptions s (concat bufs);
  write_vectored-interrupted = λ s bufs. put-interrupted s (concat bufs);
  flush-sent = λ s. refl;
}
