-- ===== src/Provider/Catalog.antt =====
-- internal/runtime/provider/registry/registry.go: the catalog of adapters by modality.
pub mod Candidates
use text.Mathlib.Text.{◌==◌, is_le}
use Prim.Native.String.{compare}
use realtime_speech_pipeline.Base.{
  ℕ, suc, String, Bool, true, false, not, ◌&&◌, Option, none, some, List, [], ◌∷◌, Result, ok, err,
  ◌>>=◌, ◌>>◌, refuse_if, if◌then◌else◌, ltb, leb,
}
use realtime_speech_pipeline.Base.Lists.{length}
use realtime_speech_pipeline.Base.Text.{is_empty}
use realtime_speech_pipeline.Provider.Contracts.{Modality, Adapter, validate_modality}

abbrev pub same_modality : Modality → Modality → Bool
same_modality Modality.stt Modality.stt = true
same_modality Modality.llm Modality.llm = true
same_modality Modality.tts Modality.tts = true
same_modality (Modality.other a) (Modality.other b) = a == b
same_modality _ _ = false

-- `adapters[modality][id]` for each pair that is registered, and the sorted ids of each modality.
pub record Catalog (World : Type 0) : Type 0 where
  pub adapters : List (Adapter World)
  pub ordered : Modality → List String

module _ {World : Type 0} where
  -- `adapters[modality][id]`
  unfoldable pub find_adapter : Modality → String → List (Adapter World) → Option (Adapter World)
  find_adapter m id [] = none
  find_adapter m id (a ∷ as') =
      if same_modality a.modality m && a.provider_id == id then some a else find_adapter m id as'

  unfoldable pub ids_of : Modality → List (Adapter World) → List String
  ids_of m [] = []
  ids_of m (a ∷ as') =
      let rest = ids_of m as' in if same_modality a.modality m then a.provider_id ∷ rest else rest

abbrev pub is_present {ℓ} : {A : Type ℓ} → Option A → Bool
is_present none = false
is_present (some _) = true

insert_id : String → List String → List String
insert_id s [] = s ∷ []
insert_id s (t ∷ ts) = if is_le (compare s t) then s ∷ t ∷ ts else t ∷ insert_id s ts

-- `sort.Strings`
unfoldable pub sort_ids : List String → List String
unfolding insert_id
sort_ids [] = []
sort_ids (s ∷ ts) = insert_id s (sort_ids ts)

module _ {World : Type 0} where
  -- The loop that registers; `none` is a nil adapter.
  unfoldable pub register :
      (registered : List (Adapter World))
      → List (Option (Adapter World))
      → Result (List (Adapter World))
  register registered [] = ok registered
  register registered (none ∷ rest) = err "adapter cannot be nil"
  register registered (some a ∷ rest) = do
    validate_modality a.modality
    refuse_if (is_empty a.provider_id) "provider_id is required"
    refuse_if (is_present (find_adapter a.modality a.provider_id registered))
        "duplicate provider_id %q for modality %q"
    register (a ∷ registered) rest

  unfoldable pub new_catalog : List (Option (Adapter World)) → Result (Catalog World)
  new_catalog adapters = do
    registered ← register [] adapters
    ok (record { adapters = registered; ordered = λ m. sort_ids (ids_of m registered) })

-- The ids that follow the preferred one, which alone can be in `seen`. `count` is `len(selected)`; the
-- loop stops once an append has brought it to `max` or above.
unfoldable pub select_ids : (seen : Option String) (max count : ℕ) → List String → List String
select_ids seen max count [] = []
select_ids none max count (id ∷ ids) =
    let rest = select_ids none max (suc count) ids in
    if leb max (suc count) then id ∷ [] else id ∷ rest
select_ids (some p) max count (id ∷ ids) =
    let skip = select_ids (some p) max count ids in
    let rest = select_ids (some p) max (suc count) ids in
    if id == p then skip else if leb max (suc count) then id ∷ [] else id ∷ rest

-- `if maxProviders < 1 { maxProviders = 5 }`
abbrev pub default_max : ℕ → ℕ
default_max n = if ltb n 1 then 5 else n

module _ {World : Type 0} where
  -- An adapter that is registered; every id that is selected is.
  abbrev pub with_adapter : Option (Adapter World) → List (Adapter World) → List (Adapter World)
  with_adapter none as' = as'
  with_adapter (some a) as' = a ∷ as'

  unfoldable pub fetch : Modality → List (Adapter World) → List String → List (Adapter World)
  fetch m as' [] = []
  fetch m as' (id ∷ ids) = with_adapter (find_adapter m id as') (fetch m as' ids)

  unfoldable pub selected_ids : Catalog World → Modality → String → ℕ → Result (List String)
  selected_ids c m preferred max =
      if is_empty preferred then ok (select_ids none (default_max max) 0 (c.ordered m)) else (do
        refuse_if (not (is_present (find_adapter m preferred c.adapters)))
            "preferred provider %q is not registered for modality %q"
        ok (preferred ∷ select_ids (some preferred) (default_max max) 1 (c.ordered m)))

  unfoldable pub candidates : Catalog World → Modality → String → ℕ → Result (List (Adapter World))
  candidates c m preferred max = do
    validate_modality m
    refuse_if (leb (length (c.ordered m)) 0) "no providers registered for modality %q"
    ids ← selected_ids c m preferred max
    ok (fetch m c.adapters ids)
