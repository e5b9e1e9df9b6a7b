-- ===== src/FilePath.antt =====
-- The class Path (include/server/filesystem/path.h): the methods that have a body in the repository
-- and stay inside the object. A path is its bytes; what type() says of the file is a parameter.
use Prim.Native.Nat.{compare, Ordering}
use kernel_udp_tcp.Prelude.{
  ◌≡◌, ◌↔◌, refl, sym, ap, ◌∙◌, Bool, true, false, not, ◌&&◌, ◌||◌, [], ◌∷◌, ◌++◌, Text, arith,
}

data FileType : Type 0 where
  missing regular directory symlink block character fifo socket unknown : FileType

record FilePath : Type 0 where
  pub path : Text

unfoldable is_empty_path : FilePath → Bool
is_empty_path p = elim (p.path) [ [] ↦ true | c ∷ rest ↦ false ]

-- std::string::compare: lexicographic, a prefix first.
unfoldable compare_texts : Text → Text → Ordering
compare_texts [] [] = Ordering.eq
compare_texts [] (d ∷ ds) = Ordering.lt
compare_texts (c ∷ cs) [] = Ordering.gt
compare_texts (c ∷ cs) (d ∷ ds) = elim (compare c d) [
  | Ordering.lt ↦ Ordering.lt
  | Ordering.eq ↦ compare_texts cs ds
  | Ordering.gt ↦ Ordering.gt
]

unfoldable equal_paths : FilePath → FilePath → Bool
unfolding compare_texts
equal_paths p q = elim (compare_texts p.path q.path) [ Ordering.eq ↦ true | _ ↦ false ]

unfoldable less_path : FilePath → FilePath → Bool
unfolding compare_texts
less_path p q = elim (compare_texts p.path q.path) [ Ordering.lt ↦ true | _ ↦ false ]

unfoldable less_equal_path : FilePath → FilePath → Bool
unfolding compare_texts
less_equal_path p q = elim (compare_texts p.path q.path) [ Ordering.gt ↦ false | _ ↦ true ]

unfoldable assign : FilePath → FilePath → FilePath
assign p q = record p { path = q.path }

unfoldable concat : FilePath → FilePath → FilePath
concat p q = record p { path = p.path ++ q.path }

unfoldable clear : FilePath → FilePath
clear p = record p { path = [] }

unfoldable is_exists : FileType → Bool
is_exists missing = false
is_exists _ = true

unfoldable is_regular_file : FileType → Bool
is_regular_file regular = true
is_regular_file _ = false

unfoldable is_directory : FileType → Bool
is_directory directory = true
is_directory _ = false

unfoldable is_symlink : FileType → Bool
is_symlink symlink = true
is_symlink _ = false

-- IsOther
unfoldable is_other : FileType → Bool
unfolding is_exists is_regular_file is_directory is_symlink
is_other t =
    is_exists t && (not (is_regular_file t) && (not (is_directory t) && not (is_symlink t)))

compare_texts-append :
    (p q : Text)
    → (elim (compare_texts p (p ++ q)) as (λ x. Bool) [ Ordering.gt ↦ false | _ ↦ true ]) ≡ true
unfolding compare_texts
compare_texts-append [] [] = refl
compare_texts-append [] (d ∷ ds) = refl
compare_texts-append (c ∷ cs) q = ground (arith, compare_texts-append cs q)

compare_texts-eq : (p q : Text) → compare_texts p q ≡ Ordering.eq → p ≡ q
unfolding compare_texts
compare_texts-eq [] [] e = refl
compare_texts-eq [] (d ∷ ds) e = absurd (cc e)
compare_texts-eq (c ∷ cs) [] e = absurd (cc e)
compare_texts-eq (c ∷ cs) (d ∷ ds) e = ground (arith, compare_texts-eq cs ds)

compare_texts_self : (t : Text) → compare_texts t t ≡ Ordering.eq
unfolding compare_texts
compare_texts_self [] = refl
compare_texts_self (c ∷ cs) = ground (arith, compare_texts_self cs)

equal_paths_iff : (p q : FilePath) → (equal_paths p q ≡ true) ↔ (p.path ≡ q.path)
unfolding equal_paths
equal_paths_iff p q = (
  λ e. compare_texts-eq p.path q.path (is_eq (compare_texts p.path q.path) e),
  λ same.
      ap (λ o. elim o as (λ x. Bool) [ Ordering.eq ↦ true | _ ↦ false ])
        (ap (compare_texts p.path) (sym same) ∙ compare_texts_self p.path),
)
  where
    is_eq :
        (o : Ordering)
        → (elim o as (λ x. Bool) [ Ordering.eq ↦ true | _ ↦ false ]) ≡ true
        → o ≡ Ordering.eq
    is_eq Ordering.lt e = absurd (cc e)
    is_eq Ordering.eq e = refl
    is_eq Ordering.gt e = absurd (cc e)

-- The comparisons of two paths agree: <= is < or ==, never both, == holds exactly of the same text,
-- and a path is at most what it becomes when another is appended.
comparisons_lem :
    (p q : FilePath)
    → (less_equal_path p q ≡ (less_path p q || equal_paths p q))
      × ((less_path p q && equal_paths p q) ≡ false)
      × ((equal_paths p q ≡ true) ↔ (p.path ≡ q.path))
      × (less_equal_path p (concat p q) ≡ true)
unfolding less_equal_path less_path equal_paths concat
comparisons_lem p q = (
  either (compare_texts p.path q.path),
  apart (compare_texts p.path q.path),
  equal_paths_iff p q,
  compare_texts-append p.path q.path,
)
  where
    either :
        (o : Ordering)
        → (elim o as (λ x. Bool) [ Ordering.gt ↦ false | _ ↦ true ]) ≡ (
            (elim o as (λ x. Bool) [ Ordering.lt ↦ true | _ ↦ false ])
            || (elim o as (λ x. Bool) [ Ordering.eq ↦ true | _ ↦ false ]))
    either Ordering.lt = refl
    either Ordering.eq = refl
    either Ordering.gt = refl

    apart :
        (o : Ordering)
        → ((elim o as (λ x. Bool) [ Ordering.lt ↦ true | _ ↦ false ])
            && (elim o as (λ x. Bool) [ Ordering.eq ↦ true | _ ↦ false ]))
          ≡ false
    apart Ordering.lt = refl
    apart Ordering.eq = refl
    apart Ordering.gt = refl
