-- ===== src/Asio/Race.antt =====
-- The race of a timer against an operation on the socket, which the methods with a timeout share
-- (source/server/asio/udp_server.cpp, source/server/asio/udp_client.cpp). Which handler asio calls
-- first, with what error, how much was moved, and whether the cancel of the socket throws is an
-- argument.
use kernel_udp_tcp.Prelude.{
  ℕ, ◌+◌, Bool, true, false, not, ◌&&◌, ◌||◌, Option, none, some, ◌==◌, if◌then◌else◌,
}
use kernel_udp_tcp.Asio.{ErrorCode, timed_out}

-- What asio does: the handler that it calls first, the errors it calls them with, the bytes moved;
-- whether _socket.cancel() throws in the first handler, and whether the second is called even so,
-- with nothing that cancels it (asio calls it if the cancels went through); and whether the store to
-- `sent` or `received`, which comes after the notification and outside the mutex, is made before the
-- waiting thread wakes up and reads it. On a service with several threads it may be late whichever
-- handler is first.
pub record Schedule : Type 0 where
  pub timer_first : Bool
  pub timer_error : Option ErrorCode
  pub io_error : Option ErrorCode
  pub moved : ℕ
  pub cancel_throws : Bool
  pub called_even_so : Bool
  pub stored_in_time : Bool

-- The locals that the two handlers share with the waiting thread.
pub record Race : Type 0 where
  pub done : ℕ
  pub error : Option ErrorCode
  pub cancels : ℕ
  pub moved : ℕ

-- The first of the two handlers keeps its error, and cancels the socket and the timer. If the cancel
-- of the socket throws, the exception leaves the handler, which is the second component.
unfoldable async_done_handler : Bool → Option ErrorCode → Race → Race × Bool
async_done_handler throws ec r =
    if r.done == 0
    then (if throws
        then (record r { done = r.done + 1; error = ec }, true)
        else (record r { done = r.done + 1; error = ec; cancels = r.cancels + 1 }, false))
    else (record r { done = r.done + 1 }, false)

-- ec ? ec : asio::error::timed_out
unfoldable timer_handler : Bool → Option ErrorCode → Race → Race × Bool
unfolding async_done_handler
timer_handler throws none r = async_done_handler throws (some timed_out) r
timer_handler throws (some e) r = async_done_handler throws (some e) r

-- The store is not reached by an exception.
unfoldable io_handler : Bool → Option ErrorCode → ℕ → Race → Race × Bool
unfolding async_done_handler
io_handler throws ec n r =
    let (t, thrown) = async_done_handler throws ec r in
    if thrown then (t, true) else (record t { moved = n }, false)

abbrev begin : Race
begin = record { done = 0; error = none; cancels = 0; moved = 0 }

-- The locals when the first handler is over, and whether it threw.
unfoldable first_handler : Schedule → Race × Bool
unfolding timer_handler io_handler
first_handler c =
    let n = if c.stored_in_time then c.moved else 0 in
    if c.timer_first
    then timer_handler c.cancel_throws c.timer_error begin
    else io_handler c.cancel_throws c.io_error n begin

-- The locals when asio calls no handler any more.
unfoldable handlers : Schedule → Race
unfolding first_handler timer_handler io_handler
handlers c =
    let (r, thrown) = first_handler c in
    let n = if c.stored_in_time then c.moved else 0 in
    let t =
      if c.timer_first
      then io_handler c.cancel_throws c.io_error n r
      else timer_handler c.cancel_throws c.timer_error r in
    if thrown && not c.called_even_so then r else t.0

-- The wait for `done == 2`, with the locals as the waiting thread reads them; `none` means that it
-- waits for ever.
unfoldable pub race : Schedule → Option Race
unfolding handlers
race c = let r = handlers c in if r.done == 2 then some r else none

-- What the timer's handler reports when it comes first.
abbrev expiry : Option ErrorCode → ErrorCode
expiry none = timed_out
expiry (some e) = e

-- What the waiting thread reads at the end of its wait.
abbrev pub outcome : Schedule → Race
outcome c = record {
  done = 2;
  error = if c.timer_first then some (expiry c.timer_error) else c.io_error;
  cancels = if c.cancel_throws then 0 else 1;
  moved = if c.stored_in_time && (c.timer_first || not c.cancel_throws) then c.moved else 0;
}
