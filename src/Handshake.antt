-- ===== src/Handshake.antt =====
-- `asyncServerHandshake` of chat-server/src/tls_handshake.cpp: its `Shared` state and the two
-- callbacks, which run on one strand and so never at the same time. The TLS stream is asio's: its
-- type `A` is a parameter, and of a call to it the state keeps only that it was made.
pub mod Outcomes
use chat_hub.Prelude.{
  ℕ, List, [], ◌∷◌, ◌++◌, Bool, true, false, ◌||◌, Option, none, some, if◌then◌else◌,
}

-- `HandshakeStatus` of chat-server/include/chathub/server/transport/tls_handshake.hpp.
pub data HandshakeStatus : Type 0 where
  ok timeout error : HandshakeStatus

-- `Shared`. A null `stream` is `none`; `handler` says that there is one to call, and `calls` are its
-- calls. `closed` and `cancelled` are what was done to the socket and to the timer.
pub record Shared {ℓ} (A : Type ℓ) : Type ℓ where
  pub stream : Option A
  pub expires_after : ℕ
  pub handler : Bool
  pub completed : Bool
  pub timeout_started : Bool
  pub closed : Bool
  pub cancelled : Bool
  pub calls : List (HandshakeStatus × Option A)

module _ {ℓ} {A : Type ℓ} where
  -- The state when both operations have been started.
  abbrev pub started : Bool → A → Shared A
  started handler stream = record {
    stream = some stream;
    expires_after = 5;
    handler = handler;
    completed = false;
    timeout_started = false;
    closed = false;
    cancelled = false;
    calls = [];
  }

  -- `if (state->handler) state->handler(status, stream)`.
  unfoldable pub call_handler : Shared A → HandshakeStatus → Option A → Shared A
  call_handler state status stream =
      if state.handler
      then record state { calls = state.calls ++ ((status, stream) ∷ []) }
      else state

  close_socket : Option A → Shared A → Option (Shared A)
  close_socket none state = none
  close_socket (some stream) state = some (record state { closed = true })

  -- `state->stream->lowest_layer().close(close_ec)`; `none` where it would follow a null pointer.
  unfoldable pub close : Shared A → Option (Shared A)
  unfolding close_socket
  close state = close_socket state.stream state

  -- The callback of `async_wait`; `ec` says that an error was passed.
  unfoldable pub on_timer : Bool → Shared A → Option (Shared A)
  on_timer ec state =
      if ec || state.completed then some state else close (record state { timeout_started = true })

  -- `error` is reported once the socket has been closed.
  report_error : Option (Shared A) → Option (Shared A)
  report_error none = none
  report_error (some state) = some (call_handler state HandshakeStatus.error none)

  -- The callback of `async_handshake`.
  unfoldable pub on_handshake : Bool → Shared A → Option (Shared A)
  unfolding report_error
  on_handshake ec state =
      let finished = record state { completed = true; cancelled = true } in
      if state.completed
      then some state
      else if finished.timeout_started
      then some (call_handler finished HandshakeStatus.timeout none)
      else if ec
      then report_error (close finished)
      else some
          (call_handler (record finished { stream = none }) HandshakeStatus.ok finished.stream)
