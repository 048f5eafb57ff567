-- ===== src/Provider/Catalog/Candidates.antt =====
-- How many candidates internal/runtime/provider/registry/registry.go selects.
use text.Mathlib.Text.{◌==◌}
use realtime_speech_pipeline.Base.{
  ℕ, suc, ◌-◌, ◌≤◌, ◌≡◌, refl, ◌>>◌, String, Bool, true, false, Option, none, some, List, [], ◌∷◌,
  Result, ok, >>=-eq-ok, >>-eq-ok, refuse_if, if◌then◌else◌, arith, leb,
}
use realtime_speech_pipeline.Base.Lists.{length}
use realtime_speech_pipeline.Base.Text.{is_empty}
use realtime_speech_pipeline.Provider.Contracts.{Modality, Adapter, validate_modality}
use realtime_speech_pipeline.Provider.Catalog.{
  Catalog, candidates, selected_ids, select_ids, fetch, find_adapter, with_adapter, default_max,
}

-- What the loop adds to the `count` that are there: up to the limit, but one where the limit is reached.
abbrev room : (max count : ℕ) → ℕ
room max count = if leb max (suc count) then 1 else max - count

room-step :
    (max count : ℕ) → leb max (suc count) ≡ false → suc (room max (suc count)) ≤ room max count
room-step max count h = ground arith

room-positive : (max count : ℕ) → 1 ≤ room max count
room-positive max count = ground arith

-- One more id, or the last one.
taken :
    (stop : Bool) (max count : ℕ) (id : String) (rest : List String)
    → leb max (suc count) ≡ stop
    → length rest ≤ room max (suc count)
    → length (if stop then id ∷ [] else id ∷ rest) ≤ room max count
taken true max count id rest e h = omega (arith, room-positive max count)
taken false max count id rest e h = omega (arith, h, room-step max count e)

skipped :
    (same : Bool) (max count : ℕ) (skip other : List String)
    → length skip ≤ room max count
    → length other ≤ room max count
    → length (if same then skip else other) ≤ room max count
skipped true max count skip other h k = h
skipped false max count skip other h k = k

select_ids-length :
    (seen : Option String) (max count : ℕ) (ids : List String)
    → length (select_ids seen max count ids) ≤ room max count
unfolding select_ids
select_ids-length seen max count [] = omega arith
select_ids-length none max count (id ∷ ids) =
    taken (leb max (suc count)) max count id (select_ids none max (suc count) ids) refl
      (select_ids-length none max (suc count) ids)
select_ids-length (some p) max count (id ∷ ids) =
    skipped (id == p) max count (select_ids (some p) max count ids) _
      (select_ids-length (some p) max count ids)
      (taken (leb max (suc count)) max count id (select_ids (some p) max (suc count) ids) refl
        (select_ids-length (some p) max (suc count) ids))

-- The length of what either branch of the selection gives.
chosen-length :
    (b : Bool) (check : Result (Unit {0})) (plain preferred ids : List String) (low high : ℕ)
    → (if b then ok plain else (check >> ok preferred)) ≡ ok ids
    → length plain ≤ low
    → length preferred ≤ high
    → length ids ≤ (if b then low else high)
chosen-length true check plain preferred ids low high h k l = let e : plain ≡ ids = cc in rw (← e) k
chosen-length false check plain preferred ids low high h k l =
    let (passed, rest) = >>-eq-ok check (ok preferred) h in
    let e : preferred ≡ ids = cc in rw (← e) l

default_max-positive : (n : ℕ) → 1 ≤ default_max n
default_max-positive n = ground arith

plain_fits : (n : ℕ) → 1 ≤ n → room n 0 ≤ n
plain_fits n h = ground arith

preferred_fits : (n : ℕ) → 1 ≤ n → suc (room n 1) ≤ (if leb n 1 then 2 else n)
preferred_fits n h = ground arith

-- The limit that Candidates keeps: a preferred provider gets one beside it even where the limit is one.
abbrev pub kept_limit : (preferred : String) (max : ℕ) → ℕ
kept_limit preferred max =
    if is_empty preferred
    then default_max max
    else if leb (default_max max) 1
    then 2
    else default_max max

module _ {World : Type 0} where
  with_adapter-length :
      (found : Option (Adapter World)) (as' : List (Adapter World))
      → length (with_adapter found as') ≤ suc (length as')
  with_adapter-length none as' = omega arith
  with_adapter-length (some a) as' = omega arith

  fetch-length :
      (m : Modality) (as' : List (Adapter World)) (ids : List String)
      → length (fetch m as' ids) ≤ length ids
  unfolding fetch
  fetch-length m as' [] = omega arith
  fetch-length m as' (id ∷ ids) =
      omega (
        arith,
        with_adapter-length (find_adapter m id as') (fetch m as' ids),
        fetch-length m as' ids,
      )

  selected_ids-length :
      (c : Catalog World) (m : Modality) (preferred : String) (max : ℕ) (ids : List String)
      → selected_ids c m preferred max ≡ ok ids
      → length ids ≤ kept_limit preferred max
  unfolding selected_ids
  selected_ids-length c m preferred max ids h =
      let n = default_max max in
      chosen-length (is_empty preferred) _ (select_ids none n 0 (c.ordered m))
        (preferred ∷ select_ids (some preferred) n 1 (c.ordered m)) ids n (if leb n 1 then 2 else n)
        h
        (omega (
          arith,
          select_ids-length none n 0 (c.ordered m),
          plain_fits n (default_max-positive max),
        ))
        (omega (
          arith,
          select_ids-length (some preferred) n 1 (c.ordered m),
          preferred_fits n (default_max-positive max),
        ))

-- No call of Candidates gives more adapters than the limit (five where none is given), except that a
-- preferred provider under a limit of one may get one other beside it.
candidates-within :
    {World : Type 0} (c : Catalog World) (m : Modality) (preferred : String) (max : ℕ)
    (found : List (Adapter World))
    → candidates c m preferred max ≡ ok found
    → length found ≤ kept_limit preferred max
unfolding candidates
candidates-within c m preferred max found h =
    let (valid, h1) = >>-eq-ok (validate_modality m) _ h in
    let (known, h2) =
      >>-eq-ok (refuse_if (leb (length (c.ordered m)) 0) "no providers registered for modality %q")
        _ h1 in
    let (ids, selected, h3) = >>=-eq-ok (selected_ids c m preferred max) _ h2 in
    let e : fetch m c.adapters ids ≡ found = cc in
    rw (← e) (
      omega
        (arith, fetch-length m c.adapters ids, selected_ids-length c m preferred max ids selected))

select_next :
    (p q : String) (rest : List String)
    → (q == p) ≡ false
    → select_ids (some p) 1 1 (q ∷ rest) ≡ q ∷ []
unfolding select_ids
select_next p q rest other = rw other refl

module _ {World : Type 0} where
  fetch_one :
      (m : Modality) (as' : List (Adapter World)) (id : String) (ids : List String)
      (a : Adapter World)
      → find_adapter m id as' ≡ some a
      → fetch m as' (id ∷ ids) ≡ a ∷ fetch m as' ids
  unfolding fetch
  fetch_one m as' id ids a h = rw h refl

  fetch_none : (m : Modality) (as' : List (Adapter World)) → fetch m as' [] ≡ []
  unfolding fetch
  fetch_none m as' = refl

  selected_two :
      (c : Catalog World) (m : Modality) (p q : String) (rest : List String) (a : Adapter World)
      → c.ordered m ≡ q ∷ rest
      → is_empty p ≡ false
      → (q == p) ≡ false
      → find_adapter m p c.adapters ≡ some a
      → selected_ids c m p 1 ≡ ok (p ∷ q ∷ [])
  unfolding selected_ids
  selected_two c m p q rest a ordered given other found_p =
      rw (given, found_p, ordered, select_next p q rest other) refl

not_none : (n : ℕ) → leb (suc n) 0 ≡ false
not_none n = ground arith

-- A limit of one is not kept: with a preferred provider, and another provider first in the order, the
-- call gives both.
pub candidates-over_limit :
    {World : Type 0} (c : Catalog World) (m : Modality) (p q : String) (rest : List String)
    (a b : Adapter World)
    → validate_modality m ≡ ok tt
    → c.ordered m ≡ q ∷ rest
    → is_empty p ≡ false
    → (q == p) ≡ false
    → find_adapter m p c.adapters ≡ some a
    → find_adapter m q c.adapters ≡ some b
    → candidates c m p 1 ≡ ok (a ∷ b ∷ [])
unfolding candidates
candidates-over_limit c m p q rest a b valid ordered given other found_p found_q =
    rw
      (
        valid,
        selected_two c m p q rest a ordered given other found_p,
        ordered,
        not_none (length rest),
        fetch_one m c.adapters p (q ∷ []) a found_p,
        fetch_one m c.adapters q [] b found_q,
        fetch_none m c.adapters,
      )
      refl
