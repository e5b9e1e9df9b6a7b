-- ===== src/Asio/Action.antt =====
-- A method of an object: it changes the object's state and returns, or lets an exception of asio
-- through. The state at the `throw` is kept, as the source keeps it.
use kernel_udp_tcp.Prelude.{Bool, true, false, Option, none, some, ◌≡◌, refl, ap, if◌then◌else◌}
use kernel_udp_tcp.Asio.{ErrorCode}

pub data Outcome {ℓ κ} (S : Type ℓ) (A : Type κ) : Type (ℓ ⊔ κ) where
  ok : A → S → Outcome S A
  throw : ErrorCode → S → Outcome S A

abbrev pub Act {ℓ κ} : Type ℓ → Type κ → Type (ℓ ⊔ κ)
Act S A = S → Outcome S A

infixl 5 ◌>>=◌ ◌>>◌
abbrev pub ◌>>=◌ {ℓ κ μ} :
    {S : Type ℓ} {A : Type κ} {B : Type μ} → Act S A → (A → Act S B) → Act S B
◌>>=◌ m f s = elim (m s) [ ok a t ↦ f a t | throw e t ↦ throw e t ]

abbrev pub ◌>>◌ {ℓ κ} : {S : Type ℓ} {B : Type κ} → Act S (Unit {0}) → Act S B → Act S B
m >> k = m >>= λ _. k

abbrev pub pure {ℓ κ} : {S : Type ℓ} {A : Type κ} → A → Act S A
pure a s = ok a s

abbrev pub skip {ℓ} : {S : Type ℓ} → Act S (Unit {0})
skip s = ok tt s

abbrev pub modify {ℓ} : {S : Type ℓ} → (S → S) → Act S (Unit {0})
modify f s = ok tt (f s)

abbrev pub get {ℓ} : {S : Type ℓ} → Act S S
get s = ok s s

-- A call of asio without an error_code argument throws its error.
abbrev pub check {ℓ} : {S : Type ℓ} → Option ErrorCode → Act S (Unit {0})
check none s = ok tt s
check (some e) s = throw e s

abbrev pub when {ℓ} : {S : Type ℓ} → Bool → Act S (Unit {0}) → Act S (Unit {0})
when true m = m
when false m = skip

abbrev pub state {ℓ κ} : {S : Type ℓ} {A : Type κ} → Outcome S A → S
state (ok a s) = s
state (throw e s) = s

-- The rest of a method whose first step returned.
pub ok->>= {ℓ κ μ} :
    {S : Type ℓ} {A : Type κ} {B : Type μ} (m : Act S A) (f : A → Act S B) (s : S) {a : A} {t : S}
    → m s ≡ ok a t
    → (m >>= f) s ≡ f a t
ok->>= m f s e = ap (λ o. elim o [ ok a t ↦ f a t | throw x t ↦ throw x t ]) e

-- The whole of a method whose first step threw.
pub throw->>= {ℓ κ μ} :
    {S : Type ℓ} {A : Type κ} {B : Type μ} (m : Act S A) (f : A → Act S B) (s : S) {e : ErrorCode}
    {t : S}
    → m s ≡ throw e t
    → (m >>= f) s ≡ throw e t
throw->>= m f s h = ap (λ o. elim o [ ok a t ↦ f a t | throw x t ↦ throw x t ]) h

-- A property of the state that a step keeps and the rest keeps, the whole keeps, wherever it
-- throws.
pub state->>= {ℓ κ μ ν} :
    {S : Type ℓ} {A : Type κ} {B : Type μ} (P : S → Type ν) (m : Act S A) (f : A → Act S B) (s : S)
    → P (state (m s))
    → ((a : A) (t : S) → P t → P (state (f a t)))
    → P (state ((m >>= f) s))
state->>= {S = S} {A = A} P m f s p k = go (m s) p
  where
    go :
        (o : Outcome S A)
        → P (state o)
        → P (state (elim o [ ok a t ↦ f a t | throw e t ↦ throw e t ]))
    go (ok a t) p = k a t p
    go (throw e t) p = p

-- The same where the whole ends in another property, which an exception in the step also leaves.
pub state->>=_of {ℓ κ μ ν ξ} :
    {S : Type ℓ} {A : Type κ} {B : Type μ} (P : S → Type ν) (Q : S → Type ξ) (m : Act S A)
    (f : A → Act S B) (s : S)
    → ((t : S) → P t → Q t)
    → P (state (m s))
    → ((a : A) (t : S) → P t → Q (state (f a t)))
    → Q (state ((m >>= f) s))
state->>=_of {S = S} {A = A} P Q m f s weaken p k = go (m s) p
  where
    go :
        (o : Outcome S A)
        → P (state o)
        → Q (state (elim o [ ok a t ↦ f a t | throw e t ↦ throw e t ]))
    go (ok a t) p = k a t p
    go (throw e t) p = weaken t p

-- The result is dropped.
pub state-void {ℓ κ μ} :
    {S : Type ℓ} {A : Type κ} (P : S → Type μ) (m : Act S A) (s : S)
    → P (state (m s))
    → P (state ((m >>= λ _. skip) s))
state-void P m s p = state->>= P m (λ _. skip) s p (λ _ _ q. q)

-- A test before an action, or before its result.
pub state-if {ℓ κ μ} :
    {S : Type ℓ} {A : Type κ} (P : S → Type μ) (b : Bool) (x y : Outcome S A)
    → (b ≡ true → P (state x))
    → (b ≡ false → P (state y))
    → P (state (if b then x else y))
state-if P true x y p q = p refl
state-if P false x y p q = q refl
