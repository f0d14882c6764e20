-- ===== src/Base/Missing.antt =====
-- INSERT ... ON CONFLICT DO NOTHING for a list of rows, one after the other. `same e o` tells whether
-- the row `o` has the key of the row `e`.
use mathlib.Core.Path.{◌≡◌, refl, sym, subst}
use mathlib.Core.Logic.{inl, inr}
use mathlib.Core.Bool.{Bool, true, false}
use mathlib.Core.List.{List, [], ◌∷◌, ◌++◌}
use native.Mathlib.Omega.{arith}
use ledgercore.Base.Tests.{if◌then◌else◌, Bool-cases}
use ledgercore.Base.Lists.{All, any}

module _ {ℓ} {A : Type ℓ} (same : A → A → Bool) where
  unfoldable pub insert_missing : List A → List A → List A
  insert_missing [] rows = rows
  insert_missing (e ∷ es) rows =
      insert_missing es (if any (same e) rows then rows else rows ++ (e ∷ []))

  -- The keys of all of some rows are there.
  abbrev pub AllThere : List A → List A → Type 0
  AllThere es rows = All (λ e. any (same e) rows ≡ true) es

  insert_old :
      (e : A) (es rows : List A)
      → any (same e) rows ≡ true
      → insert_missing (e ∷ es) rows ≡ insert_missing es rows
  unfolding insert_missing
  insert_old e es rows there = rw there refl

  insert_new :
      (e : A) (es rows : List A)
      → any (same e) rows ≡ false
      → insert_missing (e ∷ es) rows ≡ insert_missing es (rows ++ (e ∷ []))
  unfolding insert_missing
  insert_new e es rows new = rw new refl

  pub insert_there : (es rows : List A) → AllThere es rows → insert_missing es rows ≡ rows
  unfolding insert_missing
  insert_there [] rows h = refl
  insert_there (e ∷ es) rows h = rw h.0 (insert_there es rows h.1)

module _ {ℓ} {A : Type ℓ} where
  pub any-append : (p : A → Bool) (xs ys : List A) → any p xs ≡ true → any p (xs ++ ys) ≡ true
  any-append p [] ys h = cc
  any-append p (x ∷ xs) ys h = ground (arith, any-append p xs ys)

  pub any-last : (p : A → Bool) (x : A) (xs : List A) → p x ≡ true → any p (xs ++ (x ∷ [])) ≡ true
  any-last p x [] h = ground (arith, h)
  any-last p x (y ∷ xs) h = ground (arith, any-last p x xs h)

module _ {ℓ} {A : Type ℓ} (same : A → A → Bool) where
  -- A row stays.
  pub insert-any :
      (p : A → Bool) (es rows : List A)
      → any p rows ≡ true
      → any p (insert_missing same es rows) ≡ true
  unfolding insert_missing
  insert-any p [] rows h = h
  insert-any p (e ∷ es) rows h = elim (Bool-cases (any (same e) rows)) [
    | inl there ↦ rw there (insert-any p es rows h)
    | inr new ↦ rw new (insert-any p es (rows ++ (e ∷ [])) (any-append p rows (e ∷ []) h))
  ]

  pub insert-AllThere :
      ((e : A) → same e e ≡ true)
      → (es rows : List A) → AllThere same es (insert_missing same es rows)
  insert-AllThere self [] rows = tt
  insert-AllThere self (e ∷ es) rows = elim (Bool-cases (any (same e) rows)) [
    | inl there ↦
        subst (AllThere same (e ∷ es)) (sym (insert_old same e es rows there))
          (insert-any (same e) es rows there, insert-AllThere self es rows)
    | inr new ↦ subst (AllThere same (e ∷ es)) (sym (insert_new same e es rows new)) (
      insert-any (same e) es (rows ++ (e ∷ [])) (any-last (same e) e rows (self e)),
      insert-AllThere self es (rows ++ (e ∷ [])),
    )
  ]
