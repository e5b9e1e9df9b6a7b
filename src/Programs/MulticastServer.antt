-- ===== src/Programs/MulticastServer.antt =====
-- The program of server.cpp: MulticastServer, which overrides onError with output only, and the loop
-- of main over the lines that are typed.
use kernel_udp_tcp.Prelude.{
  Bool, false, ◌==◌, List, [], ◌∷◌, ◌++◌, Option, none, some, length, Text, bytes_of, if◌then◌else◌,
}
use kernel_udp_tcp.Asio.{Asio, Bytes}
use kernel_udp_tcp.Asio.Action.{Outcome, ok, throw, ◌>>=◌, skip}
use kernel_udp_tcp.UdpServer.{UdpServer, no_overrides}
use kernel_udp_tcp.UdpServer.Lifecycle.{restart, stop}
use kernel_udp_tcp.UdpServer.Send.{multicast}

-- What a line asks for: the end, a restart, or a message to the group.
pub data Command : Type 0 where
  quits restarts : Command
  broadcasts : Bytes → Command

abbrev pub is_mark : Text → Bool
is_mark [] = false
is_mark (c ∷ []) = c == 33
is_mark (c ∷ d ∷ rest) = false

abbrev pub message : Text → Bytes
message line = bytes_of "(udpmulticasttest) " ++ line

unfoldable pub command : Text → Command
command [] = quits
command (c ∷ rest) = if is_mark (c ∷ rest) then restarts else broadcasts (message (c ∷ rest))

-- A line, with what the other threads do to the server before it is read, and in each round in which
-- a restart waits.
pub record Input (Socket : Type 0) : Type 0 where
  pub line : Text
  pub meanwhile : UdpServer Socket → UdpServer Socket
  pub rounds : List (UdpServer Socket → UdpServer Socket)

module _ {Socket : Type 0} (asio : Asio Socket) where
  -- The loop of main, up to an empty line or the end of the input; `none` means that Restart still
  -- waits, and an exception ends the program.
  unfoldable pub broadcast_loop :
      List (Input Socket) → UdpServer Socket → Option (Outcome (UdpServer Socket) (Unit {0}))
  unfolding command restart multicast
  broadcast_loop [] s = some (ok tt s)
  broadcast_loop (i ∷ rest) s =
      let t = i.meanwhile s in
      elim (command i.line) [
        | quits ↦ some (ok tt t)
        | restarts ↦ elim (restart asio no_overrides i.rounds t) [
          | none ↦ none
          | some (ok done u) ↦ broadcast_loop rest u
          | some (throw e u) ↦ some (throw e u)
        ]
        | broadcasts bytes ↦ elim (multicast asio no_overrides (some bytes) (length bytes) t) [
          | ok sent u ↦ broadcast_loop rest u
          | throw e u ↦ some (throw e u)
        ]
      ]

  -- The loop, and the stop of the server after it.
  unfoldable pub serve :
      List (Input Socket) → UdpServer Socket → Option (Outcome (UdpServer Socket) (Unit {0}))
  unfolding broadcast_loop stop
  serve inputs s = elim (broadcast_loop inputs s) [
    | none ↦ none
    | some (ok done t) ↦ some ((stop asio no_overrides >>= λ _. skip) t)
    | some (throw e t) ↦ some (throw e t)
  ]
