-- ===== src/Service/Thread.antt =====
-- ServiceThread: what a thread of the service does with the ways in which poll() and run() end.
use kernel_udp_tcp.Prelude.{
  Bool, true, false, List, [], ◌∷◌, ◌++◌, ◌≡◌, refl, if◌then◌else◌, ap, arith, All,
}
use kernel_udp_tcp.Asio.{ErrorCode, not_connected}

-- How a call of poll() or run() ends: it returns, lets an asio::system_error through, or another
-- exception. `started` is what IsStarted() says at the end of the round.
pub data Ending : Type 0 where
  returns : Ending
  system_error : ErrorCode → Ending
  exception : Ending

pub record Round : Type 0 where
  pub ending : Ending
  pub started : Bool

-- What the thread calls: the virtual methods, or fatal(), which ends the process.
pub data Event : Type 0 where
  on_thread_initialize on_thread_cleanup on_idle : Event
  on_error : ErrorCode → Event
  fatal : Event

abbrev pub is_not_connected : ErrorCode → Bool
is_not_connected not_connected = true
is_not_connected _ = false

-- The do-while loop with its handlers, and what follows it, on the rounds that asio will make; at
-- the end of the list the thread is still inside poll() or run().
unfoldable pub loop : Bool → List Round → List Event
loop polling [] = []
loop polling (r ∷ rest) =
    let again = loop polling rest in
    elim (r.ending) [
      | returns ↦
          if polling
          then on_idle ∷ (if r.started then again else on_thread_cleanup ∷ [])
          else on_thread_cleanup ∷ []
      | system_error e ↦
          if is_not_connected e
          then (if r.started then again else on_thread_cleanup ∷ [])
          else on_error e ∷ on_thread_cleanup ∷ []
      | exception ↦ fatal ∷ []
    ]

unfoldable pub service_thread : Bool → List Round → List Event
unfolding loop
service_thread polling rounds = on_thread_initialize ∷ loop polling rounds

-- A round after which the thread goes on.
abbrev goes_on : Bool → Round → Bool
goes_on polling r = elim (r.ending) [
  | returns ↦ if polling then r.started else false
  | system_error e ↦ if is_not_connected e then r.started else false
  | exception ↦ false
]

-- What such rounds call.
unfoldable pub idles : List Round → List Event
idles [] = []
idles (r ∷ rest) = elim (r.ending) [
  | returns ↦ on_idle ∷ idles rest
  | system_error e ↦ idles rest
  | exception ↦ idles rest
]

-- A round that goes on, in front of others.
loop-goes_on :
    (polling : Bool) (ending : Ending) (started : Bool) (before rest : List Round)
    (tail : List Event)
    → goes_on polling (record { ending = ending; started = started }) ≡ true
    → loop polling rest ≡ idles before ++ tail
    → loop polling (record { ending = ending; started = started } ∷ rest)
      ≡ idles (record { ending = ending; started = started } ∷ before) ++ tail
unfolding loop idles
loop-goes_on true returns true before rest tail h ih = ap (◌∷◌ on_idle) ih
loop-goes_on true returns false before rest tail h ih = cc
loop-goes_on false returns started before rest tail h ih = cc
loop-goes_on polling exception started before rest tail h ih = cc
loop-goes_on polling (system_error e) started before rest tail h ih = ground arith

-- An error that ends the thread.
loop_ends :
    (polling started : Bool) (rest : List Round) (e : ErrorCode)
    → is_not_connected e ≡ false
    → loop polling (record { ending = system_error e; started = started } ∷ rest)
      ≡ on_error e ∷ on_thread_cleanup ∷ []
unfolding loop
loop_ends polling started rest e k = rw k refl

loop_survives :
    (polling : Bool) (before rest : List Round) (tail : List Event)
    → All (λ r. goes_on polling r ≡ true) before
    → loop polling rest ≡ tail
    → loop polling (before ++ rest) ≡ idles before ++ tail
unfolding idles
loop_survives polling [] rest tail h k = k
loop_survives polling (r ∷ before) rest tail h k =
    loop-goes_on polling r.ending r.started before (before ++ rest) tail h.0
      (loop_survives polling before rest tail h.1 k)

-- An error of asio other than not_connected, after rounds of poll() or run() that the thread
-- survived, ends a thread of the service: onError and onThreadCleanup are its last calls, whatever
-- asio would do in later rounds, and also while the service is started. Before it the thread has
-- called onThreadInitialize, and onIdle after each round that returned.
pub error_ends_thread :
    (polling started : Bool) (before after : List Round) (e : ErrorCode)
    → All (λ r. goes_on polling r ≡ true) before
    → is_not_connected e ≡ false
    → service_thread polling
        (before ++ (record { ending = system_error e; started = started } ∷ after))
      ≡ (on_thread_initialize ∷ idles before) ++ (on_error e ∷ on_thread_cleanup ∷ [])
unfolding service_thread
error_ends_thread polling started before after e h k =
    ap (◌∷◌ on_thread_initialize)
      (loop_survives polling before _ _ h (loop_ends polling started after e k))
