-- ===== src/Errors/Frozen.antt =====
-- The text of an exception stays what it was first.
use kernel_udp_tcp.Prelude.{ℕ, ◌≡◌, refl, sym, subst, ◌∙◌, ap, List, [], ◌∷◌, Text}
use kernel_udp_tcp.Errors.Exceptions.{
  SourceLocation, Kind, plain, system, Exception, at, written, exception_string,
}

-- What a program does with an exception: string() or what(), and operator+ with a location.
pub data Use : Type 0 where
  reads : Use
  locates : SourceLocation → Use

abbrev pub used : (ℕ → Text) → List Use → Exception → Exception
used digits [] e = e
used digits (reads ∷ rest) e = used digits rest (exception_string digits e).1
used digits (locates l ∷ rest) e = used digits rest (at l e)

-- The cache holds a text, of at least one character.
record Filled (t : Text) (e : Exception) : Type 0 where
  first : ℕ
  rest : Text
  shape : t ≡ first ∷ rest
  holds : e.cache ≡ t

written-Filled :
    (digits : ℕ → Text) (e : Exception)
    → Filled (written digits e) (record e { cache = written digits e })
unfolding written
written-Filled digits e = go e.kind
  where
    go :
        (k : Kind)
        → Filled
            (written digits (record e { kind = k }))
            (record e { kind = k; cache = written digits (record e { kind = k }) })
    go plain = record { first = _; rest = _; shape = refl; holds = refl }
    go (system error message) = record { first = _; rest = _; shape = refl; holds = refl }

exception_string-Filled :
    (digits : ℕ → Text) (e : Exception)
    → Filled (exception_string digits e).0 (exception_string digits e).1
unfolding exception_string
exception_string-Filled digits e = go e.cache refl
  where
    go :
        (t : Text)
        → e.cache ≡ t
        → let r : Text × Exception = elim t [
          | [] ↦ (written digits e, record e { cache = written digits e })
          | c ∷ rest ↦ (c ∷ rest, e)
        ] in
          Filled r.0 r.1
    go [] h = written-Filled digits e
    go (c ∷ rest) h = record { first = c; rest = rest; shape = refl; holds = h }

exception_string_cached :
    (digits : ℕ → Text) (t : Text) (e : Exception) → Filled t e → exception_string digits e ≡ (t, e)
unfolding exception_string
exception_string_cached digits t e f =
    ap
      (λ s. elim s [
        | [] ↦ (written digits e, record e { cache = written digits e })
        | c ∷ rest ↦ (c ∷ rest, e)
      ])
      (f.holds ∙ f.shape)
    ∙ ap (λ s. (s, e)) (sym f.shape)

at-Filled : (l : SourceLocation) (t : Text) (e : Exception) → Filled t e → Filled t (at l e)
unfolding at
at-Filled l t e f = record { first = f.first; rest = f.rest; shape = f.shape; holds = f.holds }

used-Filled :
    (digits : ℕ → Text) (uses : List Use) (t : Text) (e : Exception)
    → Filled t e
    → Filled t (used digits uses e)
used-Filled digits [] t e f = f
used-Filled digits (reads ∷ rest) t e f =
    used-Filled digits rest t _
      (subst (λ r. Filled t r.1) (sym (exception_string_cached digits t e f)) f)
used-Filled digits (locates l ∷ rest) t e f = used-Filled digits rest t _ (at-Filled l t e f)

-- The text of an exception is the one that the first string() or what() wrote, whatever is done with
-- the exception afterwards: also when a location is added.
pub exception_string_frozen :
    (digits : ℕ → Text) (uses : List Use) (e : Exception)
    → (exception_string digits (used digits uses (exception_string digits e).1)).0
      ≡ (exception_string digits e).0
exception_string_frozen digits uses e =
    ap (λ r. r.0)
      (exception_string_cached digits _ _
        (used-Filled digits uses _ _ (exception_string-Filled digits e)))
