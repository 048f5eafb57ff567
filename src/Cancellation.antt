-- ===== src/Cancellation.antt =====
-- internal/runtime/cancellation/fence.go: the set of the turns whose cancellation was accepted.
pub mod Keys
use text.Mathlib.Text.{◌==◌}
use realtime_speech_pipeline.Base.{
  String, Bool, true, false, ◌||◌, List, [], ◌∷◌, Result, ok, err, ◌>>◌, ◌>>=◌, refuse_if,
}
use realtime_speech_pipeline.Base.Text.{is_empty, concat, trim_space}

-- The keys that `canceled` maps to true; nothing ever takes one out.
pub record Fence : Type 0 where
  pub canceled : List String

abbrev pub new_fence : Fence
new_fence = record { canceled = [] }

-- `canceled[key]`
unfoldable pub has_key : String → List String → Bool
has_key key [] = false
has_key key (k ∷ keys) = k == key || has_key key keys

unfoldable pub turn_key : String → String → Result String
turn_key session_id turn_id = do
  let session = trim_space session_id
  let turn = trim_space turn_id
  refuse_if (is_empty session || is_empty turn) "session_id and turn_id are required"
  ok (concat session (concat "/" turn))

-- The new fence, or the old one and the error.
unfoldable pub accept_key : Result String → Fence → Fence × Result (Unit {0})
accept_key (ok key) f = (record f { canceled = key ∷ f.canceled }, ok tt)
accept_key (err e) f = (f, err e)

unfoldable pub accept : Fence → (session_id turn_id : String) → Fence × Result (Unit {0})
accept f session_id turn_id = accept_key (turn_key session_id turn_id) f

unfoldable pub fenced_key : Result String → Fence → Bool
fenced_key (ok key) f = has_key key f.canceled
fenced_key (err e) f = false

unfoldable pub is_fenced : Fence → (session_id turn_id : String) → Bool
is_fenced f session_id turn_id = fenced_key (turn_key session_id turn_id) f
