-- ===== src/Errors/Signals.antt =====
-- ExceptionsHandler (include/server/errors/exceptions_handler.h,
-- source/server/errors/exceptions_handler.cpp).
use kernel_udp_tcp.Prelude.{
  ℕ, ◌+◌, ◌≡◌, ◌==◌, Bool, true, false, Option, none, some, List, [], ◌∷◌, ◌++◌, Text, bytes_of,
  if◌then◌else◌,
}

-- The signals that the source names, and any other by its number.
pub data Signal : Type 0 where
  sigabrt sigalrm sigbus sigfpe sighup sigill sigint sigpipe : Signal
  sigprof sigquit sigsegv sigsys sigterm sigxcpu sigxfsz : Signal
  unknown : ℕ → Signal

-- The array `signals`.
abbrev pub signals : List Signal
signals =
    sigabrt ∷ sigalrm ∷ sigbus ∷ sigfpe ∷ sighup ∷ sigill ∷ sigint ∷ sigpipe ∷ sigprof ∷ sigquit
    ∷ sigsegv ∷ sigsys ∷ sigterm ∷ sigxcpu ∷ sigxfsz ∷ []

-- To tell signals apart.
abbrev pub index : Signal → ℕ
index sigabrt = 0
index sigalrm = 1
index sigbus = 2
index sigfpe = 3
index sighup = 4
index sigill = 5
index sigint = 6
index sigpipe = 7
index sigprof = 8
index sigquit = 9
index sigsegv = 10
index sigsys = 11
index sigterm = 12
index sigxcpu = 13
index sigxfsz = 14
index (unknown n) = 15 + n

abbrev pub same : Signal → Signal → Bool
same a b = index a == index b

-- What the process does on a signal: SIG_DFL, SignalHandler, or what it was made to do elsewhere.
pub data Disposition : Type 0 where
  default_action signal_handler : Disposition
  foreign : ℕ → Disposition

abbrev pub Dispositions : Type 0
Dispositions = Signal → Disposition

-- sigaction(): `none` is a result other than 0, which changes nothing.
abbrev pub SigAction : Type 0
SigAction = Signal → Disposition → Dispositions → Option Dispositions

-- Its documented behaviour: the signal that it names, and no other, gets the disposition.
abbrev pub SigActionSets : SigAction → Type 0
SigActionSets sigaction =
    (s : Signal) (d : Disposition) (k k' : Dispositions) (other : Signal)
    → sigaction s d k ≡ some k'
    → k' other ≡ (if same s other then d else k other)

-- ExceptionsHandler::Impl, whose `_handler` is one of the functions H.
pub record Impl {ℓ} (H : Type ℓ) : Type ℓ where
  pub initialized : Bool
  pub handler : H

-- SetupHandler; an empty function is `none`.
unfoldable setup_handler {ℓ} : {H : Type ℓ} → Option H → Impl H → Impl H
setup_handler none i = i
setup_handler (some h) i = record i { handler = h }

-- The loop of SetupProcess: the signal whose sigaction() failed, which the exception names, and what
-- the process then does on signals.
unfoldable pub install : SigAction → List Signal → Dispositions → Option Signal × Dispositions
install sigaction [] k = (none, k)
install sigaction (s ∷ rest) k = elim (sigaction s signal_handler k) [
  | none ↦ (some s, k)
  | some k' ↦ install sigaction rest k'
]

abbrev pub is_none : Option Signal → Bool
is_none none = true
is_none (some s) = false

-- SetupProcess.
unfoldable pub setup_process {ℓ} :
    {H : Type ℓ} → SigAction → Impl H → Dispositions → Option Signal × Impl H × Dispositions
unfolding install
setup_process sigaction i k =
    if i.initialized
    then (none, i, k)
    else let (failed, k') = install sigaction signals k in
      (failed, if is_none failed then record i { initialized = true } else i, k')

-- The message of the exception that SignalHandler passes on; fmt's text of a number is a parameter.
unfoldable pub caught : (ℕ → Text) → Signal → Text
caught digits sigabrt = bytes_of "Caught abnormal program termination (SIGABRT) signal"
caught digits sigalrm = bytes_of "Caught alarm clock (SIGALRM) signal"
caught digits sigbus = bytes_of "Caught memory access error (SIGBUS) signal"
caught digits sigfpe = bytes_of "Caught floating point exception (SIGFPE) signal"
caught digits sighup = bytes_of "Caught hangup instruction (SIGHUP) signal"
caught digits sigill = bytes_of "Caught illegal instruction (SIGILL) signal"
caught digits sigint = bytes_of "Caught terminal interrupt (SIGINT) signal"
caught digits sigpipe = bytes_of "Caught pipe write error (SIGPIPE) signal"
caught digits sigprof = bytes_of "Caught profiling timer expired error (SIGPROF) signal"
caught digits sigquit = bytes_of "Caught terminal quit (SIGQUIT) signal"
caught digits sigsegv = bytes_of "Caught illegal storage access error (SIGSEGV) signal"
caught digits sigsys = bytes_of "Caught bad system call (SIGSYS) signal"
caught digits sigterm = bytes_of "Caught termination request (SIGTERM) signal"
caught digits sigxcpu = bytes_of "Caught CPU time limit exceeded (SIGXCPU) signal"
caught digits sigxfsz = bytes_of "Caught file size limit exceeded (SIGXFSZ) signal"
caught digits (unknown n) = bytes_of "Caught unknown signal - " ++ digits n

-- What SignalHandler does, in order: the function gets a SystemException with the message, and a
-- stack trace, which is left out here, and returns; the signal is raised again or the process is
-- killed.
pub data Act {ℓ} (H : Type ℓ) : Type ℓ where
  calls : H → Text → Act H
  raises : Signal → Act H
  kills : Act H

unfoldable pub handle_signal {ℓ} :
    {H : Type ℓ}
    → SigAction
    → (ℕ → Text)
    → Impl H
    → Signal
    → Dispositions
    → List (Act H) × Dispositions
unfolding caught
handle_signal sigaction digits i s k = elim (sigaction s default_action k) [
  | none ↦ (calls i.handler (caught digits s) ∷ kills ∷ [], k)
  | some k' ↦ (calls i.handler (caught digits s) ∷ raises s ∷ [], k')
]
