-- ===== src/Echo/Navigation/Queue.antt =====
-- echo/server.go: the captures that are finished, and the calls of `Await` that take them.
use tls_forge.Base.{
  ℕ, List, [], ◌∷◌, ◌++◌, append_assoc, append-nil, Option, none, some, ◌≡◌, refl, ap, sym, ◌∙◌,
}
use tls_forge.Echo.Navigation.{Server, complete, taken, await}

-- What happens to the queue: a capture is finished, or `Await` looks for one.
pub data Event : Type 0 where
  finished : (session : ℕ) → Event
  asked : Event

abbrev cons_given : Option (ℕ × Server) → (Server → List ℕ × Server) → Server → List ℕ × Server
cons_given none go v = go v
cons_given (some (s, w)) go v = (s ∷ (go w).0, (go w).1)

-- What is given to those that ask, and the server after it. One that finds nothing goes on to
-- wait, which is to ask again later.
unfoldable pub run : List Event → Server → List ℕ × Server
run [] v = ([], v)
run (finished s ∷ events) v = run events (complete v s)
run (asked ∷ events) v = cons_given (await v) (run events) v

abbrev pub finished_in : List Event → List ℕ
finished_in [] = []
finished_in (finished s ∷ events) = s ∷ finished_in events
finished_in (asked ∷ events) = finished_in events

taken-run :
    (events : List Event) (v : Server) (waiting : List ℕ)
    → v.completed ≡ waiting
    → ((w : Server)
        → (run events w).0 ++ ((run events w).1).completed ≡ w.completed ++ finished_in events)
    → (cons_given (taken v waiting) (run events) v).0
        ++ ((cons_given (taken v waiting) (run events) v).1).completed
      ≡ v.completed ++ finished_in events
taken-run events v [] e h = h v
taken-run events v (s ∷ waiting) e h =
    ap (◌∷◌ s) (h (record v { completed = waiting })) ∙ ap (λ l. l ++ finished_in events) (sym e)

-- Every capture that is finished is given out once, in the order in which they were finished, or
-- is waiting still: the captures given out, and behind them those that wait, are those that
-- waited at first, and behind them those that were finished.
pub completed-run :
    (events : List Event) (v : Server)
    → (run events v).0 ++ ((run events v).1).completed ≡ v.completed ++ finished_in events
unfolding run await complete
completed-run [] v = sym (append-nil v.completed)
completed-run (finished s ∷ events) v =
    completed-run events (complete v s) ∙ append_assoc v.completed (s ∷ []) (finished_in events)
completed-run (asked ∷ events) v = taken-run events v v.completed refl (completed-run events)

abbrev pub asks : List ℕ → List Event
asks [] = []
asks (s ∷ waiting) = asked ∷ asks waiting

given-run :
    (waiting : List ℕ) (v : Server) → v.completed ≡ waiting → (run (asks waiting) v).0 ≡ waiting
unfolding run await
given-run [] v e = refl
given-run (s ∷ waiting) v e =
    rw e (ap (◌∷◌ s) (given-run waiting (record v { completed = waiting }) refl))

-- Asking as often as captures wait is enough to be given each of them.
pub run-asks : (v : Server) → (run (asks v.completed) v).0 ≡ v.completed
run-asks v = given-run v.completed v refl
