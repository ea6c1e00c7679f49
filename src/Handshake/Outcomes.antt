-- ===== src/Handshake/Outcomes.antt =====
-- Every order of callbacks, any number of times: what the handler is told.
use chat_hub.Prelude.{
  ◌≡◌, refl, List, [], ◌∷◌, Bool, true, false, not, ◌||◌, Option, none, some, if◌then◌else◌,
}
use chat_hub.Handshake.{
  HandshakeStatus, ok, timeout, error, Shared, started, call_handler, close, on_timer, on_handshake,
}

-- A callback that asio runs, with its error code set or not.
pub data Callback : Type 0 where
  timer_ends : Bool → Callback
  handshake_ends : Bool → Callback

module _ {ℓ} {A : Type ℓ} where
  unfoldable pub deliver : Callback → Shared A → Option (Shared A)
  deliver (timer_ends ec) state = on_timer ec state
  deliver (handshake_ends ec) state = on_handshake ec state

  continue_with : (Shared A → Option (Shared A)) → Option (Shared A) → Option (Shared A)
  continue_with rest none = none
  continue_with rest (some state) = rest state

  -- The state behind a sequence of callbacks.
  unfoldable pub run_callbacks : List Callback → Shared A → Option (Shared A)
  unfolding continue_with deliver
  run_callbacks [] state = some state
  run_callbacks (c ∷ cs) state = continue_with (run_callbacks cs) (deliver c state)

-- How the handshake went, read off the callbacks: the first end of the handshake decides, and it is
-- a timeout if the timer has run out before.
abbrev pub verdict : Bool → List Callback → Option HandshakeStatus
verdict late [] = none
verdict late (timer_ends ec ∷ cs) = verdict (late || not ec) cs
verdict late (handshake_ends ec ∷ cs) =
    some (if late then HandshakeStatus.timeout else if ec then HandshakeStatus.error else ok)

module _ {ℓ} {A : Type ℓ} where
  -- What is told to a handler, if there is one.
  abbrev told : Bool → HandshakeStatus → Option A → List (HandshakeStatus × Option A)
  told handler status stream = if handler then (status, stream) ∷ [] else []

  -- The state of affairs behind a verdict: the handler has been called once, and only with success
  -- it got the stream, which the state then holds no more; otherwise the socket is closed.
  abbrev pub Settled : Bool → A → Option HandshakeStatus → Shared A → Type ℓ
  Settled handler stream none state = (state.calls ≡ []) × (state.completed ≡ false)
  Settled handler stream (some HandshakeStatus.ok) state =
      (state.calls ≡ told handler ok (some stream))
      × (state.stream ≡ none)
      × (state.closed ≡ false)
      × (state.cancelled ≡ true)
  Settled handler stream (some HandshakeStatus.timeout) state =
      (state.calls ≡ told handler timeout none)
      × (state.stream ≡ some stream)
      × (state.closed ≡ true)
      × (state.cancelled ≡ true)
  Settled handler stream (some HandshakeStatus.error) state =
      (state.calls ≡ told handler error none)
      × (state.stream ≡ some stream)
      × (state.closed ≡ true)
      × (state.cancelled ≡ true)

  -- While the handshake goes on: `late` says that the timer has run out.
  abbrev waiting : Bool → A → Bool → Shared A
  waiting handler stream late = record (started handler stream) {
    timeout_started = late;
    closed = late;
  }

  run_completed :
      (cs : List Callback) (state : Shared A)
      → state.completed ≡ true
      → run_callbacks cs state ≡ some state
  unfolding run_callbacks on_timer on_handshake
  run_completed [] state h = refl
  run_completed (timer_ends true ∷ cs) state h = run_completed cs state h
  run_completed (timer_ends false ∷ cs) state h = simp h (run_completed cs state h)
  run_completed (handshake_ends ec ∷ cs) state h = simp h (run_completed cs state h)

  settle :
      (handler late ec : Bool) (stream : A)
      → (state : Shared A) × (on_handshake ec (waiting handler stream late) ≡ some state)
        × (state.completed ≡ true)
        × Settled handler stream (verdict late (handshake_ends ec ∷ [])) state
  unfolding on_handshake close call_handler
  settle true true ec stream = (_, refl, refl, (refl, refl, refl, refl))
  settle true false true stream = (_, refl, refl, (refl, refl, refl, refl))
  settle true false false stream = (_, refl, refl, (refl, refl, refl, refl))
  settle false true ec stream = (_, refl, refl, (refl, refl, refl, refl))
  settle false false true stream = (_, refl, refl, (refl, refl, refl, refl))
  settle false false false stream = (_, refl, refl, (refl, refl, refl, refl))

  run_waiting :
      (cs : List Callback) (handler late : Bool) (stream : A)
      → (state : Shared A) × (run_callbacks cs (waiting handler stream late) ≡ some state)
        × Settled handler stream (verdict late cs) state
  unfolding run_callbacks on_timer close
  run_waiting [] handler late stream = (waiting handler stream late, refl, (refl, refl))
  run_waiting (timer_ends true ∷ cs) handler true stream = run_waiting cs handler true stream
  run_waiting (timer_ends true ∷ cs) handler false stream = run_waiting cs handler false stream
  run_waiting (timer_ends false ∷ cs) handler true stream = run_waiting cs handler true stream
  run_waiting (timer_ends false ∷ cs) handler false stream = run_waiting cs handler true stream
  run_waiting (handshake_ends ec ∷ cs) handler late stream =
      let (state, ended, completed, settled) = settle handler late ec stream in
      (state, rw ended (run_completed cs state completed), settled)

  -- Whatever callbacks run, in whatever order and however often, the code never follows the stream
  -- that it has given away; and the handler, if there is one, is called exactly once when the
  -- handshake has ended and not before. It is told a timeout if the timer ran out first, and else
  -- whether the handshake failed; it gets the stream exactly on success, and otherwise the socket is
  -- closed.
  pub run-Settled :
      (handler : Bool) (stream : A) (cs : List Callback)
      → (state : Shared A) × (run_callbacks cs (started handler stream) ≡ some state)
        × Settled handler stream (verdict false cs) state
  run-Settled handler stream cs = run_waiting cs handler false stream
