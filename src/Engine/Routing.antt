-- ===== src/Engine/Routing.antt =====
-- `send_command` of src/engine.rs brings a command to the loop that made the handle.
use rnet.Prelude.{
  ℕ, zero, suc, ◌<◌, ◌≡◌, ◌≢◌, refl, ap, ◌∙◌, Bool, List, [], ◌∷◌, Option, some, get_elem?, arith,
}
use rnet.Prelude.Int.{ℤ}
use rnet.Extern.Bytes.{BytesApi}
use rnet.Extern.Streams.{StreamApi}
use rnet.Extern.Channels.{ChannelApi}
use rnet.Extern.Polls.{WakerApi}
use rnet.Extern.Listeners.{ListenerApi}
use rnet.Command.{Command, priority}
use rnet.Gfd
use rnet.Gfd.{Gfd, event_loop_index}
use rnet.Gfd.Packing.{new_fields}
use rnet.EventLoop.Accepting.{set_nth}
use rnet.EventLoop.Handle.{Shared, trigger}
use rnet.EventLoop.Handle.Queues.{Queued, trigger_lem}
use rnet.Engine.{EngineHandler, triggered, send_some, send_command}

get_elem?-set_nth :
    {A : Type 0} (xs : List A) (i : ℕ) (y : A) {x : A}
    → get_elem? xs i ≡ some x
    → get_elem? (set_nth xs i y) i ≡ some y
unfolding set_nth
get_elem?-set_nth [] i y e = absurd (ground arith)
get_elem?-set_nth (x ∷ xs) zero y e = refl
get_elem?-set_nth (x ∷ xs) (suc i) y e = get_elem?-set_nth xs i y e

get_elem?-set_nth_other :
    {A : Type 0} (xs : List A) (i j : ℕ) (y : A)
    → i ≢ j
    → get_elem? (set_nth xs i y) j ≡ get_elem? xs j
unfolding set_nth
get_elem?-set_nth_other [] i j y other = refl
get_elem?-set_nth_other (x ∷ xs) zero zero y other = absurd (other refl)
get_elem?-set_nth_other (x ∷ xs) zero (suc j) y other = refl
get_elem?-set_nth_other (x ∷ xs) (suc i) zero y other = refl
get_elem?-set_nth_other (x ∷ xs) (suc i) (suc j) y other =
    get_elem?-set_nth_other xs i j y (λ e. other (ap suc e))

module _ ⦃bytes : BytesApi⦄ ⦃streams : StreamApi⦄ ⦃channels : ChannelApi Command⦄
    ⦃wakers : WakerApi⦄ ⦃listening : ListenerApi⦄ {U : Type 0} where
  -- What the command does to the loops: that of the number has it in a queue and is woken, or its
  -- channel refused it, and no other loop changes.
  pub record Reaches (loops loops' : List (Shared U)) (loop_id : ℕ) (command : Command)
      : Type 0 where
    pub before : Shared U
    pub after : Shared U
    pub sent : Bool
    pub was : get_elem? loops loop_id ≡ some before
    pub now : get_elem? loops' loop_id ≡ some after
    pub queued : Queued before (priority command) command after sent
    pub others : (j : ℕ) → loop_id ≢ j → get_elem? loops' j ≡ get_elem? loops j

  -- A command that is sent by a handle which the loop of that number made is put behind a queue of
  -- that loop, which is woken, or the channel of that queue refuses it; no other loop changes. The
  -- engine has a loop of that number, and the number fits `u8`.
  pub send_command_lem :
      (h : EngineHandler U) (loops : List (Shared U)) (l : Shared U) (debug : Bool) (mono_seq : ℕ)
      (fd : ℤ) (loop_id token : ℕ) (g : Gfd) (next : ℕ) (command : Command)
      → h.eventloops ≡ some loops
      → get_elem? loops loop_id ≡ some l
      → loop_id < 256
      → Gfd.new debug mono_seq fd loop_id token ≡ some (g, next)
      → (loops' : List (Shared U)) × ((send_command h g command).eventloops ≡ some loops')
        × Reaches loops loops' loop_id command
  unfolding send_command
  send_command_lem h loops l debug mono_seq fd loop_id token g next command running there small
        made =
      let (here, slot, same_fd, seq, next_seq, fits, debugged) =
        new_fields debug mono_seq fd loop_id token small made in
      let (user, (b, answer, queued)) = trigger_lem l (priority command) command in
      let l' = (trigger l (priority command) command).0 in
      (
        set_nth loops loop_id l',
        ap (λ (o : Option (List (Shared U))). send_some o g command) running
            ∙ ap (λ (i : ℕ). some (triggered loops i (get_elem? loops i) command)) here
            ∙ ap (λ (o : Option (Shared U)). some (triggered loops loop_id o command)) there,
        record {
          before = l;
          after = l';
          sent = b;
          was = there;
          now = get_elem?-set_nth loops loop_id l' there;
          queued = queued;
          others = λ j other. get_elem?-set_nth_other loops loop_id j l' other;
        },
      )
