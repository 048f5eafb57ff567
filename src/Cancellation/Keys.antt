-- ===== src/Cancellation/Keys.antt =====
-- When the fence of internal/runtime/cancellation/fence.go holds a turn.
use text.Mathlib.Text.{◌==◌}
use text.Mathlib.TextEquality.{eq_iff}
use text.Mathlib.TextLemmas.{append_assoc}
use realtime_speech_pipeline.Base.{
  ◌≡◌, ◌↔◌, refl, String, Bool, true, false, ◌||◌, ◌∷◌, Result, ok, err, arith, ◌⊎◌, inl, inr, ap,
  ◌∙◌,
}
use realtime_speech_pipeline.Base.Text.{is_empty, concat, trim_space}
use realtime_speech_pipeline.Cancellation.{
  Fence, has_key, turn_key, accept, accept_key, is_fenced, fenced_key,
}

-- A text that TrimSpace leaves alone and that is not empty.
pub record IsPlain (s : String) : Type 0 where
  pub trimmed : trim_space s ≡ s
  pub given : is_empty s ≡ false

fenced_cons :
    (key k : String) (rest : Bool) → ((key == k || rest) ≡ true) ↔ ((ok k ≡ ok key) ⊎ (rest ≡ true))
fenced_cons key k rest = ground (arith, eq_iff key k)

fenced_of_key :
    (r : Result String) (f : Fence) (key : String)
    → (fenced_key r (record f { canceled = key ∷ f.canceled }) ≡ true)
      ↔ ((r ≡ ok key) ⊎ (fenced_key r f ≡ true))
unfolding fenced_key has_key
fenced_of_key (ok k) f key = fenced_cons key k (has_key k f.canceled)
fenced_of_key (err e) f key = ground arith

-- Once the cancellation of a turn is accepted, the fence holds exactly the turns that it held before
-- and those that have the key of the accepted one.
pub is_fenced-accept :
    (f : Fence) (s t s' t' : String) {key : String}
    → turn_key s t ≡ ok key
    → (is_fenced (accept f s t).0 s' t' ≡ true)
      ↔ ((turn_key s' t' ≡ ok key) ⊎ (is_fenced f s' t' ≡ true))
unfolding accept accept_key is_fenced
is_fenced-accept f s t s' t' {key} k = rw k (fenced_of_key (turn_key s' t') f key)

pub turn_key_plain :
    (s t : String) → IsPlain s → IsPlain t → turn_key s t ≡ ok (concat s (concat "/" t))
unfolding turn_key
turn_key_plain s t hs ht = rw (hs.trimmed, ht.trimmed, hs.given, ht.given) refl

-- Two different turns share a key when a session id holds the separator: accepting the cancellation
-- of turn `u` of session `s/t` fences turn `t/u` of session `s`, though nobody cancelled it.
pub accept-fences_other :
    (f : Fence) (s t u : String)
    → IsPlain s
    → IsPlain u
    → IsPlain (concat s (concat "/" t))
    → IsPlain (concat t (concat "/" u))
    → is_fenced (accept f (concat s (concat "/" t)) u).0 s (concat t (concat "/" u)) ≡ true
accept-fences_other f s t u hs hu hst htu =
    (is_fenced-accept f (concat s (concat "/" t)) u s (concat t (concat "/" u))
        (turn_key_plain (concat s (concat "/" t)) u hst hu)).1
      (inl (turn_key_plain s (concat t (concat "/" u)) hs htu ∙ ap ok regroup))
  where
    regroup :
        concat s (concat "/" (concat t (concat "/" u)))
        ≡ concat (concat s (concat "/" t)) (concat "/" u)
    regroup = simp append_assoc

kept_ok :
    (f : Fence) (s t key : String)
    → is_fenced f s t ≡ true
    → is_fenced (accept_key (ok key) f).0 s t ≡ true
unfolding is_fenced accept_key
kept_ok f s t key h = (fenced_of_key (turn_key s t) f key).1 (inr h)

kept_err :
    (f : Fence) (s t e : String)
    → is_fenced f s t ≡ true
    → is_fenced (accept_key (err e) f).0 s t ≡ true
unfolding accept_key
kept_err f s t e h = h

-- No acceptance, and no failed one, takes a turn out of the fence.
pub accept-keeps :
    (f : Fence) (s t s' t' : String)
    → is_fenced f s' t' ≡ true
    → is_fenced (accept f s t).0 s' t' ≡ true
unfolding accept
accept-keeps f s t s' t' h = kept (turn_key s t)
  where
    kept : (r : Result String) → is_fenced (accept_key r f).0 s' t' ≡ true
    kept (ok key) = kept_ok f s' t' key h
    kept (err e) = kept_err f s' t' e h
