-- ===== src/Programs/Turns.antt =====
-- The service of a program with its one thread, which also runs the handlers of the program's server
-- or client: what becomes of the thread when one of them lets an exception of asio through, and the
-- stop at the end of main.
use kernel_udp_tcp.Prelude.{
  ◌≡◌, refl, ap, sym, subst, ◌∙◌, true, false, ◌&&◌, Option, none, some, List, [], ◌∷◌,
  if◌then◌else◌, if-true, if-false, Bool-cases, inl, inr,
}
use kernel_udp_tcp.Asio.{ErrorCode}
use kernel_udp_tcp.Asio.Action.{Outcome, ok, throw}
use kernel_udp_tcp.Service.{Service}
use kernel_udp_tcp.Service.Thread.{is_not_connected}
use kernel_udp_tcp.Service.Lifecycle
use kernel_udp_tcp.Service.Lifecycle.{Move, dies, act, is_running}
use kernel_udp_tcp.Service.Single.{Single, act-Single, get_or-set, over_hangs}

-- The two objects of a program.
pub record World (Object : Type 0) : Type 0 where
  pub object : Object
  pub service : Service

module _ {Object : Type 0} where
  -- The catch clauses of ServiceThread around a handler: not_connected lets a started service go on,
  -- any other error ends its thread.
  unfoldable pub settled : Outcome Object (Unit {0}) → Service → World Object
  unfolding act
  settled (ok done s) service = record { object = s; service = service }
  settled (throw e s) service = record {
    object = s;
    service = if is_not_connected e && service.started then service else act (dies 0) service;
  }

  unfoldable pub taken : Option (Outcome Object (Unit {0})) → World Object → World Object
  unfolding settled
  taken none w = w
  taken (some o) w = settled o w.service

-- The oldest handler of an object is run with what asio tells it; `none` if there is none.
module _ {Completion Object : Type 0}
    (oldest : Completion → Object → Option (Outcome Object (Unit {0}))) where
  -- A turn of the service's thread at the object's handlers.
  unfoldable pub turn : Completion → World Object → World Object
  unfolding taken
  turn c w = if is_running 0 w.service then taken (oldest c w.object) w else w

  unfoldable pub turns : List Completion → World Object → World Object
  unfolding turn
  turns [] w = w
  turns (c ∷ cs) w = turns cs (turn c w)

  -- From where the work of main is done: service->Stop() posts its handler behind those of the
  -- object, so that the thread has turns at these before it.
  unfoldable pub finish :
      List Completion
      → List Move
      → Service
      → Option (Outcome Object (Unit {0}))
      → Option (Outcome (World Object) (Unit {0}))
  unfolding turns
  finish cs moves service none = none
  finish cs moves service (some (throw e s)) =
      some (throw e (record { object = s; service = service }))
  finish cs moves service (some (ok done s)) =
      let w = turns cs (record { object = s; service = service }) in
      elim (Lifecycle.stop moves w.service) [
        | none ↦ none
        | some (done, t, rest) ↦ some (ok tt (record { object = w.object; service = t }))
      ]

  -- A thread that has ended takes no turn.
  pub turns_over :
      (cs : List Completion) (w : World Object) → is_running 0 w.service ≡ false → turns cs w ≡ w
  unfolding turns turn
  turns_over [] w over = refl
  turns_over (c ∷ cs) w over = ap (turns cs) (if-false _ _ over) ∙ turns_over cs w over

-- The thread of a started service has ended, and the object is as stated.
pub record Over {Object : Type 0} (P : Object → Type 0) (w : World Object) : Type 0 where
  pub left : P w.object
  pub single : Single w.service
  pub up : w.service.started ≡ true
  pub over : is_running 0 w.service ≡ false

module _ {Object : Type 0} (P : Object → Type 0) where
  settled-Over :
      (u : Object) (service : Service) (e : ErrorCode)
      → P u
      → is_not_connected e ≡ false
      → Single service
      → service.started ≡ true
      → Over P (settled (throw e u) service)
  unfolding settled act
  settled-Over u service e left other single up =
      subst (λ t. Over P (record { object = u; service = t }))
        (sym (if-false _ _ (ap (λ b. b && service.started) other)))
        (record {
          left = left;
          single = act-Single (dies 0) service single;
          up = up;
          over = get_or-set service.running 0;
        })

  module _ {Completion : Type 0}
      (oldest : Completion → Object → Option (Outcome Object (Unit {0}))) where
    turn-Over :
        (c : Completion) (s u : Object) (service : Service) (e : ErrorCode)
        → oldest c s ≡ some (throw e u)
        → P s
        → P u
        → is_not_connected e ≡ false
        → Single service
        → service.started ≡ true
        → Over P (turn oldest c (record { object = s; service = service }))
    unfolding turn taken
    turn-Over c s u service e fails before left other single up =
        elim (Bool-cases (is_running 0 service)) [
          | inl on ↦
              subst (Over P)
                (sym (
                  if-true _ _ on
                  ∙ ap (λ o. taken o (record { object = s; service = service })) fails))
                (settled-Over u service e left other single up)
          | inr over ↦
              subst (Over P) (sym (if-false _ _ over))
                (record { left = before; single = single; up = up; over = over })
        ]

    -- A handler that throws an error other than not_connected ends the thread, and no later handler
    -- is run, whether or not the thread was still there.
    pub turns-Over :
        (c : Completion) (cs : List Completion) (s u : Object) (service : Service) (e : ErrorCode)
        → oldest c s ≡ some (throw e u)
        → P s
        → P u
        → is_not_connected e ≡ false
        → Single service
        → service.started ≡ true
        → Over P (turns oldest (c ∷ cs) (record { object = s; service = service }))
    unfolding turns
    turns-Over c cs s u service e fails before left other single up =
        let h = turn-Over c s u service e fails before left other single up in
        subst (Over P) (sym (turns_over oldest cs _ h.over)) h

    -- Then main does not come back from service->Stop().
    pub finish-Over :
        (cs : List Completion) (moves : List Move) (w : World Object)
        → Over P w
        → finish oldest cs moves w.service (some (ok tt w.object)) ≡ none
    unfolding finish
    finish-Over cs moves w h =
        ap stops (turns_over oldest cs w h.over)
        ∙ ap
            (λ (o : Lifecycle.Outcome).
              elim o as (λ _. Option (Outcome (World Object) (Unit {0}))) [
                | none ↦ none
                | some (done, t, rest) ↦ some (ok tt (record { object = w.object; service = t }))
              ])
            (over_hangs moves w.service h.single h.up h.over)
      where
        stops : World Object → Option (Outcome (World Object) (Unit {0}))
        stops v = elim (Lifecycle.stop moves v.service) [
          | none ↦ none
          | some (done, t, rest) ↦ some (ok tt (record { object = v.object; service = t }))
        ]
