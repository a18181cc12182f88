-- ===== src/Acceptor/Running/Ending.antt =====
-- How the loop of `run` of src/acceptor.rs ends.
use rnet.Prelude.{
  ℕ, ◌≡◌, ◌≢◌, refl, ap, sym, ◌∙◌, subst, Bool, true, false, not, List, [], ◌∷◌, length,
  if◌then◌else◌, arith,
}
use rnet.Io.{ErrorKind, IoResult, ok, err, Run, ret, and_then, is_interrupted}
use rnet.Extern.Bytes.{BytesApi}
use rnet.Extern.Streams.{StreamApi}
use rnet.Extern.Channels.{ChannelApi}
use rnet.Extern.Polls.{WakerApi}
use rnet.Extern.Listeners.{ListenerApi}
use rnet.Command.{Command}
use rnet.Acceptor.{Acceptor, stop}
use rnet.Acceptor.Running.{Round, stop_if, next_round, after_wait, run_rounds}
use rnet.Acceptor.Running.Events.{Known, Keeps, Handles, on_tokens-Handles}

-- The poll reports only such tokens.
pub data AllKnown (n : ℕ) : List Round → Type 0 where
  no_round : AllKnown n []
  reported :
      {r : Round} {rs : List Round} (ts : List ℕ)
      → r.polled ≡ ok ts
      → Known n ts
      → AllKnown n rs
      → AllKnown n (r ∷ rs)
  failed :
      {r : Round} {rs : List Round} (e : ErrorKind)
      → r.polled ≡ err e
      → AllKnown n rs
      → AllKnown n (r ∷ rs)

-- What an acceptor that runs, or does not, should answer to the rounds: it returns when it looks and
-- was told to stop, or on an error of the poll that is no interruption, and goes on else.
pub data Answers : Bool → List Round → IoResult Bool → Type 0 where
  all_done : {running : Bool} → Answers running [] (ok false)
  is_stopped :
      {running : Bool} {r : Round} {rs : List Round}
      → running ≡ false
      → Answers running (r ∷ rs) (ok true)
  stopped_now :
      {running : Bool} {r : Round} {rs : List Round}
      → r.stopped_before ≡ true
      → Answers running (r ∷ rs) (ok true)
  stopped_waiting :
      {running : Bool} {r : Round} {rs : List Round} {ts : List ℕ}
      → r.stopped_meanwhile ≡ true
      → r.polled ≡ ok ts
      → Answers running (r ∷ rs) (ok true)
  poll_fails :
      {running : Bool} {r : Round} {rs : List Round} {e : ErrorKind}
      → running ≡ true
      → r.stopped_before ≡ false
      → r.polled ≡ err e
      → is_interrupted e ≡ false
      → Answers running (r ∷ rs) (err e)
  goes_on :
      {running : Bool} {r : Round} {rs : List Round} {out : IoResult Bool}
      → running ≡ true
      → r.stopped_before ≡ false
      → Answers (not r.stopped_meanwhile) rs out
      → Answers running (r ∷ rs) out

not-false : (b : Bool) → not b ≡ false → b ≡ true
not-false true e = refl
not-false false e = ground arith

module _ ⦃bytes : BytesApi⦄ ⦃streams : StreamApi⦄ ⦃channels : ChannelApi Command⦄
    ⦃wakers : WakerApi⦄ ⦃listening : ListenerApi⦄ where
  abbrev Fulfils : ℕ → Bool → List Round → Run (Acceptor × IoResult Bool) → Type 0
  Fulfils n running rs out =
      (a' : Acceptor) × (res : IoResult Bool) × (out ≡ ret (a', res))
      × Answers running rs res
      × (length a'.listeners ≡ n)
      × (a'.workers ≢ [])

  -- What follows the events of a round.
  next_round-Fulfils :
      {n : ℕ} {rs : List Round} (r : Round) {ts : List ℕ} {out : Run (Acceptor × Bool)}
      (later : Acceptor → Run (Acceptor × IoResult Bool))
      → r.stopped_before ≡ false
      → r.polled ≡ ok ts
      → ((b : Acceptor)
          → Keeps n (not r.stopped_meanwhile) b
          → Fulfils n (not r.stopped_meanwhile) rs (later b))
      → Handles n (not r.stopped_meanwhile) out
      → Fulfils n true (r ∷ rs) (and_then out (next_round later))
  unfolding next_round
  next_round-Fulfils r later looks polled each (a, true, e, (len, some_there, runs), why) = (
    a,
    ok true,
    ap (λ (o : Run (Acceptor × Bool)). and_then o (next_round later)) e,
    stopped_waiting (not-false r.stopped_meanwhile (why refl)) polled,
    len,
    some_there,
  )
  next_round-Fulfils r later looks polled each (a, false, e, kept, why) =
      let (a', res, out, answers, len', there') = each a kept in
      (
        a',
        res,
        ap (λ (o : Run (Acceptor × Bool)). and_then o (next_round later)) e ∙ out,
        goes_on refl looks answers,
        len',
        there',
      )

  stop_if-Keeps :
      {n : ℕ} (stops : Bool) (a : Acceptor) → Keeps n true a → Keeps n (not stops) (stop_if stops a)
  unfolding stop
  stop_if-Keeps true a (len, some_there, runs) = (len, some_there, refl)
  stop_if-Keeps false a kept = kept

  after_wait-Fulfils :
      {n : ℕ} {rs : List Round} (r : Round) (a : Acceptor)
      (later : Acceptor → Run (Acceptor × IoResult Bool))
      → r.stopped_before ≡ false
      → AllKnown n (r ∷ rs)
      → ((b : Acceptor)
          → Keeps n (not r.stopped_meanwhile) b
          → Fulfils n (not r.stopped_meanwhile) rs (later b))
      → Keeps n (not r.stopped_meanwhile) a
      → Fulfils n true (r ∷ rs) (after_wait later r.polled a)
  unfolding after_wait
  after_wait-Fulfils {n} {rs} r a later looks (reported ts polled known known') each kept =
      subst (λ (o : IoResult (List ℕ)). Fulfils n true (r ∷ rs) (after_wait later o a)) (sym polled)
        (next_round-Fulfils r later looks polled each (on_tokens-Handles ts a known kept))
  after_wait-Fulfils {n} {rs} r a later looks (failed e polled known') each
        (len, some_there, runs) =
      subst (λ (o : IoResult (List ℕ)). Fulfils n true (r ∷ rs) (after_wait later o a)) (sym polled)
        (go (is_interrupted e) refl)
    where
      go :
          (b : Bool)
          → is_interrupted e ≡ b
          → Fulfils n true (r ∷ rs) (if b then later a else ret (a, err e))
      go true u =
          let (a', res, out, answers, len', there') = each a (len, some_there, runs) in
          (a', res, out, goes_on refl looks answers, len', there')
      go false u = (a, err e, refl, poll_fails refl looks polled u, len, some_there)

  tail_known : {n : ℕ} {r : Round} {rs : List Round} → AllKnown n (r ∷ rs) → AllKnown n rs
  tail_known (reported ts polled known known') = known'
  tail_known (failed e polled known') = known'

  run_rounds-Fulfils :
      {n : ℕ} {running : Bool} (rs : List Round) (a : Acceptor)
      → AllKnown n rs
      → Keeps n running a
      → Fulfils n running rs (run_rounds rs a)
  unfolding run_rounds stop
  run_rounds-Fulfils [] a known (len, some_there, runs) =
      (a, ok false, refl, all_done, len, some_there)
  run_rounds-Fulfils {n} {running} (r ∷ rs) a known (len, some_there, runs) =
      looking r.stopped_before refl runs (λ b k. run_rounds-Fulfils rs b (tail_known known) k)
    where
      looking :
          (s : Bool)
          → r.stopped_before ≡ s
          → a.is_running ≡ running
          → ((b : Acceptor)
              → Keeps n (not r.stopped_meanwhile) b
              → Fulfils n (not r.stopped_meanwhile) rs (run_rounds rs b))
          → Fulfils n running (r ∷ rs) (
              if (stop_if s a).is_running
              then after_wait (run_rounds rs) r.polled (stop_if r.stopped_meanwhile (stop_if s a))
              else ret (stop_if s a, ok true))
      looking true e same each = (stop a, ok true, refl, stopped_now e, len, some_there)
      looking false e same each =
          subst
            (λ (b : Bool). Fulfils n running (r ∷ rs) (
              if b
              then after_wait (run_rounds rs) r.polled (stop_if r.stopped_meanwhile a)
              else ret (a, ok true)))
            (sym same) (seen running refl)
        where
          seen :
              (b : Bool)
              → running ≡ b
              → Fulfils n running (r ∷ rs) (
                  if b
                  then after_wait (run_rounds rs) r.polled (stop_if r.stopped_meanwhile a)
                  else ret (a, ok true))
          seen true u =
              subst
                (λ (b : Bool).
                  Fulfils n b (r ∷ rs)
                    (after_wait (run_rounds rs) r.polled (stop_if r.stopped_meanwhile a)))
                (sym u)
                (after_wait-Fulfils r (stop_if r.stopped_meanwhile a) (run_rounds rs) e known each
                  (stop_if-Keeps r.stopped_meanwhile a (len, some_there, same ∙ u)))
          seen false u = (a, ok true, refl, is_stopped u, len, some_there)

  -- If each token of a listener that the poll reports is that of one of the listeners, and there is
  -- at least one worker, then the loop of the acceptor never panics and loses no listener. It returns
  -- without an error only when it was told to stop, at its next look or wake-up, and with an error
  -- only on one of the poll that is no interruption; it waits again else.
  pub run_rounds_lem :
      (rs : List Round) (a : Acceptor)
      → a.workers ≢ []
      → AllKnown (length a.listeners) rs
      → (a' : Acceptor) × (res : IoResult Bool) × (run_rounds rs a ≡ ret (a', res))
        × Answers a.is_running rs res
        × (length a'.listeners ≡ length a.listeners)
        × (a'.workers ≢ [])
  run_rounds_lem rs a some_there known = run_rounds-Fulfils rs a known (refl, some_there, refl)
