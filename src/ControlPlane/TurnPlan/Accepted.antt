-- ===== src/ControlPlane/TurnPlan/Accepted.antt =====
-- Which lists of names and markers the validations of api/controlplane/types.go accept.
use realtime_speech_pipeline.Base.{
  ◌≡◌, ◌↔◌, refl, String, Bool, false, List, [], ◌∷◌, ok, refuse_if->>-eq-ok, arith,
}
use realtime_speech_pipeline.Base.Lists.{All}
use realtime_speech_pipeline.Base.Members.{has, Nodup, eq_comm}
use realtime_speech_pipeline.ControlPlane.TurnPlan.{validate_distinct}
use text.Mathlib.Text.{◌==◌}

-- No element of the list is one of `seen`.
abbrev pub Fresh : (seen : List String) → List String → Type 0
Fresh seen [] = Unit
Fresh seen (x ∷ xs) = (has x seen ≡ false) × Fresh seen xs

abbrev pub Passes : (String → Bool) → String → Type 0
Passes bad x = bad x ≡ false

apart :
    (x y : String) (ys : List String)
    → has y (x ∷ ys) ≡ false
    → (y == x ≡ false) × (has y ys ≡ false)
unfolding has
apart x y ys h = ground (arith, eq_comm x y, h)

Fresh-split :
    (x : String) (seen xs : List String) → Fresh (x ∷ seen) xs → (has x xs ≡ false) × Fresh seen xs
unfolding has
Fresh-split x seen [] f = (refl, tt)
Fresh-split x seen (y ∷ ys) (here, later) =
    let (other, old) = apart x y seen here in
    let (fresh, rest) = Fresh-split x seen ys later in (ground (arith, other, fresh), (old, rest))

Fresh-join :
    (x : String) (seen xs : List String) → has x xs ≡ false → Fresh seen xs → Fresh (x ∷ seen) xs
unfolding has
Fresh-join x seen [] h f = tt
Fresh-join x seen (y ∷ ys) h (old, rest) =
    (ground (arith, eq_comm x y), Fresh-join x seen ys (ground arith) rest)

pub Fresh-nil : (xs : List String) → Fresh [] xs
unfolding has
Fresh-nil [] = tt
Fresh-nil (x ∷ xs) = (refl, Fresh-nil xs)

module _ (bad : String → Bool) (refusal repeated : String) where
  validate_distinct_sound :
      (seen xs : List String)
      → validate_distinct bad refusal repeated seen xs ≡ ok tt
      → All (Passes bad) xs × Fresh seen xs × Nodup xs
  unfolding validate_distinct
  validate_distinct_sound seen [] h = (tt, tt, tt)
  validate_distinct_sound seen (x ∷ xs) h =
      let (good, h') = refuse_if->>-eq-ok (bad x) _ _ h in
      let (new, rest) = refuse_if->>-eq-ok (has x seen) _ _ h' in
      let (all, fresh, distinct) = validate_distinct_sound (x ∷ seen) xs rest in
      let (once, old) = Fresh-split x seen xs fresh in ((good, all), (new, old), (once, distinct))

  validate_distinct_complete :
      (seen xs : List String)
      → All (Passes bad) xs
      → Fresh seen xs
      → Nodup xs
      → validate_distinct bad refusal repeated seen xs ≡ ok tt
  unfolding validate_distinct
  validate_distinct_complete seen [] a f n = refl
  validate_distinct_complete seen (x ∷ xs) (good, all) (new, old) (once, distinct) =
      rw (good, new)
        (validate_distinct_complete (x ∷ seen) xs all (Fresh-join x seen xs once old) distinct)

  -- The loop accepts a list exactly when nothing in it is bad and nothing comes twice.
  pub validate_distinct-Nodup :
      (xs : List String)
      → (validate_distinct bad refusal repeated [] xs ≡ ok tt) ↔ (All (Passes bad) xs × Nodup xs)
  validate_distinct-Nodup xs = (
    λ h. let (all, _, distinct) = validate_distinct_sound [] xs h in (all, distinct),
    λ (all, distinct). validate_distinct_complete [] xs all (Fresh-nil xs) distinct,
  )
