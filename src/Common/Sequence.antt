-- ===== src/Common/Sequence.antt =====
-- A sequence of calls that stops at the first error: what such a loop does, told from the answers.
use mathlib.Core.Path.{◌≡◌, refl, sym, ap}
use mathlib.Core.Logic.{◌≢◌, ◌⊎◌, inl, inr}
use mathlib.Core.Option.{Option, none, some}
use mathlib.Core.List.{List, [], ◌∷◌, ◌++◌}
use Prim.Native.String.{String}
use native.Mathlib.Omega.{arith}

module _ {κ} {A : Type 0} {W : Type κ} (act : A → W → Option String × W) where
  -- the calls for all elements, one after the other, answer without an error
  abbrev pub Passes : List A → W → W → Type κ
  Passes [] w end = end ≡ w
  Passes (x ∷ xs) w end = ((act x w).0 ≡ none) × Passes xs (act x w).1 end

  -- The loop over `xs` from the state `w` has returned `err` in the state `end`, after calls for
  -- `tried`, of which the ones for `done` had no error: either these are all, or the next one
  -- answered the error, and nothing was called after it.
  unfoldable pub Advances : List A → W → Option String → W → List A → List A → Type κ
  Advances xs w err end done tried =
      ((err ≡ none) × (done ≡ xs) × (tried ≡ xs) × Passes xs w end)
      ⊎ ((bad : A) × (after : List A) × (v : W) × (xs ≡ done ++ bad ∷ after)
          × (tried ≡ done ++ bad ∷ [])
          × Passes done w v
          × ((act bad v).0 ≢ none)
          × (err ≡ (act bad v).0)
          × (end ≡ (act bad v).1))

  pub Advances-nil : (w : W) → Advances [] w none w [] []
  unfolding Advances
  Advances-nil w = inl (refl, refl, refl, refl)

  pub Advances-fails :
      (x : A) (xs : List A) (w : W) (text : String)
      → (act x w).0 ≡ some text
      → Advances (x ∷ xs) w (some text) (act x w).1 [] (x ∷ [])
  unfolding Advances
  Advances-fails x xs w text fails =
      inr (x, xs, w, refl, refl, refl, λ h. ground arith, sym fails, refl)

  pub Advances-next :
      (x : A) (xs : List A) (w end : W) (err : Option String) (done tried : List A)
      → (act x w).0 ≡ none
      → Advances xs (act x w).1 err end done tried
      → Advances (x ∷ xs) w err end (x ∷ done) (x ∷ tried)
  unfolding Advances
  Advances-next x xs w end err done tried fine (inl (ok, all, all_tried, passes)) =
      inl (ok, ap (λ ys. x ∷ ys) all, ap (λ ys. x ∷ ys) all_tried, (fine, passes))
  Advances-next x xs w end err done tried fine
        (inr (bad, after, v, parts, last, passes, wrong, same, left)) =
      inr (
        bad,
        after,
        v,
        ap (λ ys. x ∷ ys) parts,
        ap (λ ys. x ∷ ys) last,
        (fine, passes),
        wrong,
        same,
        left,
      )
