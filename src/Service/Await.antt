-- ===== src/Service/Await.antt =====
-- What a wait of Start or Stop does, whatever moves the threads make meanwhile.
use kernel_udp_tcp.Prelude.{
  ◌≡◌, refl, ap, sym, subst, ◌∙◌, Bool, true, false, not, Option, none, some, List, [], ◌∷◌,
  Bool-cases, inl, inr, if-true, if-false,
}
use kernel_udp_tcp.Service.{Service}
use kernel_udp_tcp.Service.Lifecycle.{Move, act, await, Outcome, succeeds, joined}

some_inj {ℓ} : {A : Type ℓ} {x y : A} → some x ≡ some y → x ≡ y
some_inj e = cc

-- The parts of what a method returned.
pub outcome_inj :
    {r q : Bool} {s t : Service} {ms ns : List Move}
    → ◌≡◌ {A = Outcome} (some (r, s, ms)) (some (q, t, ns))
    → (r ≡ q) × (s ≡ t)
outcome_inj e = let same = some_inj e in (ap (λ p. p.0) same, ap (λ p. p.1) same)

pub succeeds-some :
    (o : Option (Service × List Move)) (r : Bool) (u : Service) (rest : List Move)
    → succeeds o ≡ some (r, u, rest)
    → (o ≡ some (u, rest)) × (r ≡ true)
succeeds-some none r u rest e = absurd (cc e)
succeeds-some (some (s, ms)) r u rest e =
    let same = some_inj e in (ap (λ p. some (p.1, p.2)) same, sym (ap (λ p. p.0) same))

-- A wait that is over before any move.
pub await_now :
    (test : Service → Bool) (ms : List Move) (s : Service)
    → test s ≡ true
    → await test ms s ≡ some (s, ms)
unfolding await
await_now test [] s met = if-true _ _ met
await_now test (m ∷ ms) s met = if-true _ _ met

pub await_later :
    (test : Service → Bool) (m : Move) (ms : List Move) (s t : Service)
    → test s ≡ false
    → act m s ≡ t
    → await test (m ∷ ms) s ≡ await test ms t
unfolding await
await_later test m ms s t unmet e = if-false _ _ unmet ∙ ap (await test ms) e

-- A test that is false, and stays so, is waited for in vain.
pub await-none :
    (P : Service → Type 0) (test : Service → Bool)
    → ((s : Service) → P s → test s ≡ false)
    → ((m : Move) (s : Service) → P s → P (act m s))
    → (ms : List Move) (s : Service) → P s
    → await test ms s ≡ none
unfolding await
await-none P test unmet keeps [] s h = if-false _ _ (unmet s h)
await-none P test unmet keeps (m ∷ ms) s h =
    if-false _ _ (unmet s h) ∙ await-none P test unmet keeps ms (act m s) (keeps m s h)

module _ (P : Service → Type 0) (keeps : (m : Move) (s : Service) → P s → P (act m s)) where
  -- At the end of a wait its test is true, and what the moves keep still holds.
  pub await_keeps :
      (test : Service → Bool) (ms : List Move) (s u : Service) (rest : List Move)
      → P s
      → await test ms s ≡ some (u, rest)
      → P u × (test u ≡ true)
  unfolding await
  await_keeps test [] s u rest h e = elim (Bool-cases (test s)) [
    | inl met ↦
        subst (λ v. P v × (test v ≡ true)) (ap (λ r. r.0) (some_inj (sym (if-true _ _ met) ∙ e)))
          (h, met)
    | inr unmet ↦ absurd (cc (sym (if-false _ _ unmet) ∙ e))
  ]
  await_keeps test (m ∷ ms) s u rest h e = elim (Bool-cases (test s)) [
    | inl met ↦
        subst (λ v. P v × (test v ≡ true)) (ap (λ r. r.0) (some_inj (sym (if-true _ _ met) ∙ e)))
          (h, met)
    | inr unmet ↦ await_keeps test ms (act m s) u rest (keeps m s h) (sym (if-false _ _ unmet) ∙ e)
  ]

  -- So at the end of Stop.
  pub joined_keeps :
      ((s : Service) → P s → P (record s { polling = false }))
      → (o : Option (Service × List Move)) (u : Service) (r : Bool) (rest : List Move)
      → ((v : Service) (left : List Move) → o ≡ some (v, left) → P v)
      → joined o ≡ some (r, u, rest)
      → P u × (not u.started ≡ true) × (r ≡ true)
  joined_keeps unset none u r rest h e = absurd (cc e)
  joined_keeps unset (some (v, left)) u r rest h e =
      let waited = succeeds-some _ r u rest e in
      let met = await_keeps (λ w. not w.started) left _ u rest (unset v (h v left refl)) waited.0 in
      (met.0, met.1, waited.1)
