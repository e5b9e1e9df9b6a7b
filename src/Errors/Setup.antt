-- ===== src/Errors/Setup.antt =====
-- What SetupProcess and SignalHandler do to the process.
use kernel_udp_tcp.Prelude.{
  ℕ, ◌≡◌, refl, ap, sym, ◌∙◌, subst, ◌⊎◌, inl, inr, Bool, true, false, Option, none, some, List, [],
  ◌∷◌, ◌++◌, Text, bytes_of, contains, All, if◌then◌else◌, if-true, if-false, arith,
}
use kernel_udp_tcp.Errors.Signals.{
  Signal, sigabrt, sigalrm, sigbus, sigfpe, sighup, sigill, sigint, sigpipe, sigprof, sigquit,
  sigsegv, sigsys, sigterm, sigxcpu, sigxfsz, unknown, signals, same, default_action,
  signal_handler, Dispositions, SigAction, SigActionSets, Impl, install, is_none, setup_process,
  caught, Act, calls, raises, kills, handle_signal,
}

same_self : (s : Signal) → same s s ≡ true
same_self s = ground arith

-- SignalHandler is called on each signal of the list.
abbrev Handled : Dispositions → List Signal → Type 0
Handled k l = All (λ s. k s ≡ signal_handler) l

-- How the loop went: through the whole list, or up to the signal that sigaction() refused in the
-- state in which it left the process.
abbrev Installed : SigAction → List Signal → Option Signal × Dispositions → Type 0
Installed sigaction l (failed, k) =
    ((failed ≡ none) × Handled k l)
    ⊎ ((before : List Signal) × (s : Signal) × (after : List Signal) × (l ≡ before ++ s ∷ after)
        × (failed ≡ some s)
        × (sigaction s signal_handler k ≡ none)
        × Handled k before)

module _ (sigaction : SigAction) (sets : SigActionSets sigaction) where
  sigaction_keeps :
      (k k' : Dispositions) (s other : Signal)
      → sigaction s signal_handler k ≡ some k'
      → k other ≡ signal_handler
      → k' other ≡ signal_handler
  sigaction_keeps k k' s other e h = sets s signal_handler k k' other e ∙ go (same s other)
    where
      go : (b : Bool) → (if b then signal_handler else k other) ≡ signal_handler
      go true = refl
      go false = h

  install_keeps :
      (l : List Signal) (k : Dispositions) (other : Signal)
      → k other ≡ signal_handler
      → (install sigaction l k).1 other ≡ signal_handler
  unfolding install
  install_keeps [] k other h = h
  install_keeps (s ∷ rest) k other h =
      go (sigaction s signal_handler k) refl (λ k'. install_keeps rest k' other)
    where
      go :
          (o : Option Dispositions)
          → sigaction s signal_handler k ≡ o
          → ((k' : Dispositions)
              → k' other ≡ signal_handler
              → (install sigaction rest k').1 other ≡ signal_handler)
          → (let r : Option Signal × Dispositions = elim o [
            | none ↦ (some s, k)
            | some k' ↦ install sigaction rest k'
          ] in
              r.1 other ≡ signal_handler)
      go none e later = h
      go (some k') e later = later k' (sigaction_keeps k k' s other e h)

  -- One more signal in front.
  Installed-cons :
      (s : Signal) (rest : List Signal) (r : Option Signal × Dispositions)
      → r.1 s ≡ signal_handler
      → Installed sigaction rest r
      → Installed sigaction (s ∷ rest) r
  Installed-cons s rest r h (inl (e, all)) = inl (e, (h, all))
  Installed-cons s rest r h (inr (before, t, after, split, e, refused, all)) =
      inr (s ∷ before, t, after, ap (◌∷◌ s) split, e, refused, (h, all))

  install-Installed :
      (l : List Signal) (k : Dispositions) → Installed sigaction l (install sigaction l k)
  unfolding install
  install-Installed [] k = inl (refl, tt)
  install-Installed (s ∷ rest) k = go (sigaction s signal_handler k) refl (install-Installed rest)
    where
      go :
          (o : Option Dispositions)
          → sigaction s signal_handler k ≡ o
          → ((k' : Dispositions) → Installed sigaction rest (install sigaction rest k'))
          → Installed sigaction
              (s ∷ rest)
              (elim o [ none ↦ (some s, k) | some k' ↦ install sigaction rest k' ])
      go none e later = inr ([], s, rest, refl, refl, e, tt)
      go (some k') e later =
          Installed-cons s rest (install sigaction rest k')
            (install_keeps rest k' s (sets s signal_handler k k' s e ∙ if-true _ _ (same_self s)))
            (later k')

-- What a call of SetupProcess returned, for a handler that was not set up.
abbrev pub SetUp {ℓ} :
    {H : Type ℓ} → SigAction → Impl H → Option Signal × Impl H × Dispositions → Type ℓ
SetUp sigaction i (failed, j, k) =
    ((failed ≡ none) × Handled k signals × (setup_process sigaction j k ≡ (none, j, k)))
    ⊎ ((before : List Signal) × (s : Signal) × (after : List Signal) × (signals
          ≡ before ++ s ∷ after)
        × (failed ≡ some s)
        × (sigaction s signal_handler k ≡ none)
        × Handled k before
        × (j ≡ i))

SetUp-Installed {ℓ} :
    {H : Type ℓ} (sigaction : SigAction) (i : Impl H) (failed : Option Signal) (k : Dispositions)
    → Installed sigaction signals (failed, k)
    → SetUp sigaction i (failed, if is_none failed then record i { initialized = true } else i, k)
unfolding setup_process
SetUp-Installed sigaction i none k (inl (e, all)) = inl (refl, all, refl)
SetUp-Installed sigaction i (some s) k (inl (e, all)) = absurd (cc e)
SetUp-Installed sigaction i none k (inr (before, t, after, split, e, refused, all)) = absurd (cc e)
SetUp-Installed sigaction i (some s) k (inr (before, t, after, split, e, refused, all)) =
    inr (before, t, after, split, e, refused, all, refl)

-- SetupProcess of a handler that is not set up installs SignalHandler for each of the fifteen signals
-- and is set up then; or it throws for the signal that sigaction() has refused, with SignalHandler
-- installed for those before it in the list and the handler as it was, so that a later call tries
-- again. A call after a success does nothing. sigaction() does what it documents.
pub setup_process_lem {ℓ} :
    {H : Type ℓ} (sigaction : SigAction) (i : Impl H) (k : Dispositions)
    → SigActionSets sigaction
    → i.initialized ≡ false
    → SetUp sigaction i (setup_process sigaction i k)
unfolding setup_process
setup_process_lem sigaction i k sets off = subst (SetUp sigaction i) (sym (if-false _ _ off)) (
    SetUp-Installed sigaction i (install sigaction signals k).0 (install sigaction signals k).1
      (install-Installed sigaction sets signals k))

-- The name of a signal that the source knows.
abbrev name_of : Signal → Text
name_of sigabrt = bytes_of "SIGABRT"
name_of sigalrm = bytes_of "SIGALRM"
name_of sigbus = bytes_of "SIGBUS"
name_of sigfpe = bytes_of "SIGFPE"
name_of sighup = bytes_of "SIGHUP"
name_of sigill = bytes_of "SIGILL"
name_of sigint = bytes_of "SIGINT"
name_of sigpipe = bytes_of "SIGPIPE"
name_of sigprof = bytes_of "SIGPROF"
name_of sigquit = bytes_of "SIGQUIT"
name_of sigsegv = bytes_of "SIGSEGV"
name_of sigsys = bytes_of "SIGSYS"
name_of sigterm = bytes_of "SIGTERM"
name_of sigxcpu = bytes_of "SIGXCPU"
name_of sigxfsz = bytes_of "SIGXFSZ"
name_of (unknown n) = []

caught-name_of : (digits : ℕ → Text) (s : Signal) → contains (name_of s) (caught digits s) ≡ true
unfolding caught
caught-name_of digits sigabrt = refl
caught-name_of digits sigalrm = refl
caught-name_of digits sigbus = refl
caught-name_of digits sigfpe = refl
caught-name_of digits sighup = refl
caught-name_of digits sigill = refl
caught-name_of digits sigint = refl
caught-name_of digits sigpipe = refl
caught-name_of digits sigprof = refl
caught-name_of digits sigquit = refl
caught-name_of digits sigsegv = refl
caught-name_of digits sigsys = refl
caught-name_of digits sigterm = refl
caught-name_of digits sigxcpu = refl
caught-name_of digits sigxfsz = refl
caught-name_of digits (unknown n) = refl

-- What SignalHandler did with signal s, and what the process does on signals after it.
abbrev pub Ended {ℓ} :
    {H : Type ℓ} → SigAction → Impl H → Signal → Dispositions → List (Act H) × Dispositions → Type ℓ
Ended {H = H} sigaction i s k (acts, k') =
    (message : Text) × (last : Act H) × (acts ≡ calls i.handler message ∷ last ∷ [])
    × (contains (name_of s) message ≡ true)
    × (((last ≡ raises s)
          × (sigaction s default_action k ≡ some k')
          × (k' s ≡ default_action)
          × ((other : Signal) → same s other ≡ false → k' other ≡ k other))
        ⊎ ((last ≡ kills) × (sigaction s default_action k ≡ none) × (k' ≡ k)))

-- SignalHandler first passes a message to the function of the handler, which names the signal if it
-- is one of the fifteen, and does one thing after it: if sigaction() has reset the signal, it raises
-- it, and its disposition is the default action by then, with those of other signals unchanged; if
-- sigaction() has failed, it kills the process, without a change. sigaction() does what it documents.
pub handle_signal_lem {ℓ} :
    {H : Type ℓ} (sigaction : SigAction) (digits : ℕ → Text) (i : Impl H) (s : Signal)
    (k : Dispositions)
    → SigActionSets sigaction
    → Ended sigaction i s k (handle_signal sigaction digits i s k)
unfolding handle_signal
handle_signal_lem sigaction digits i s k sets = go (sigaction s default_action k) refl
  where
    go :
        (o : Option Dispositions)
        → sigaction s default_action k ≡ o
        → Ended sigaction i s k (elim o [
          | none ↦ (calls i.handler (caught digits s) ∷ kills ∷ [], k)
          | some k' ↦ (calls i.handler (caught digits s) ∷ raises s ∷ [], k')
        ])
    go none e = (caught digits s, kills, refl, caught-name_of digits s, inr (refl, e, refl))
    go (some k') e = (
      caught digits s,
      raises s,
      refl,
      caught-name_of digits s,
      inl (
        refl,
        e,
        sets s default_action k k' s e ∙ if-true _ _ (same_self s),
        λ other d. sets s default_action k k' other e ∙ if-false _ _ d,
      ),
    )
