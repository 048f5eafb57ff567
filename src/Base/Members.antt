-- ===== src/Base/Members.antt =====
-- Membership of texts in lists, lists without repetition, and the pigeonhole principle.
use text.Mathlib.Text.{◌==◌}
use text.Mathlib.TextEquality.{eq_iff}
use text.Mathlib.TextPositions.{eq_refl}
use Prim.Native.Nat.{ℕ, suc, ◌+◌, ◌≤◌}
use Prim.Native.String.{String}
use mathlib.Core.Path.{◌≡◌, refl, sym, ap}
use mathlib.Core.Logic.{inl, inr}
use mathlib.Core.Bool.{Bool, true, false, ◌||◌}
use mathlib.Core.List.{List, [], ◌∷◌, ◌++◌}
use native.Mathlib.Omega.{arith}
use realtime_speech_pipeline.Base.Tests.{Bool-cases, if◌then◌else◌}
use realtime_speech_pipeline.Base.Lists.{length, All}

unfoldable pub has : String → List String → Bool
has x [] = false
has x (y ∷ ys) = y == x || has x ys

unfoldable pub count_of : String → List String → ℕ
count_of x [] = 0
count_of x (y ∷ ys) = (if y == x then 1 else 0) + count_of x ys

abbrev pub Nodup : List String → Type 0
Nodup [] = Unit
Nodup (x ∷ xs) = (has x xs ≡ false) × Nodup xs

abbrev pub Within : List String → String → Type 0
Within ys x = has x ys ≡ true

pub has-append : (x : String) (xs ys : List String) → has x (xs ++ ys) ≡ (has x xs || has x ys)
unfolding has
has-append x [] ys = refl
has-append x (y ∷ xs) ys = ground (arith, has-append x xs ys)

pub eq_comm : (x y : String) → (x == y) ≡ (y == x)
eq_comm x y = elim (Bool-cases (x == y)) [
  | inl e ↦ rw ((eq_iff x y).0 e) refl
  | inr d ↦ other (y == x) refl d
]
  where
    other : (b : Bool) → (y == x) ≡ b → (x == y) ≡ false → (x == y) ≡ (y == x)
    other true e d = rw ((eq_iff y x).0 e) refl
    other false e d = cc

-- A text that is equal to a member is one, and a text that is none differs from every member.
pub has_of_eq : (x y : String) (ys : List String) → (x == y) ≡ true → has y ys ≡ has x ys
has_of_eq x y ys e = ap (λ z. has z ys) (sym ((eq_iff x y).0 e))

pub has-here : (x : String) (xs : List String) → has x (x ∷ xs) ≡ true
unfolding has
has-here x xs = rw (eq_refl x) refl

pub has-snoc :
    (x : String) (xs : List String) (y : String) → has x (xs ++ y ∷ []) ≡ (has x xs || y == x)
unfolding has
has-snoc x xs y = rw (has-append x xs (y ∷ [])) (ground arith)

pub Nodup-snoc :
    (xs : List String) (x : String) → Nodup xs → has x xs ≡ false → Nodup (xs ++ x ∷ [])
unfolding has
Nodup-snoc [] x n h = (refl, tt)
Nodup-snoc (y ∷ xs) x (fresh, n) h =
    (rw (has-snoc y xs x) (ground (arith, eq_comm x y)), Nodup-snoc xs x n (ground arith))

-- The list without the first `x`.
remove : String → List String → List String
remove x [] = []
remove x (y ∷ ys) = if y == x then ys else y ∷ remove x ys

length-remove :
    (x : String) (ys : List String) → has x ys ≡ true → suc (length (remove x ys)) ≡ length ys
unfolding has remove
length-remove x [] h = cc
length-remove x (y ∷ ys) h = elim (Bool-cases (y == x)) [
  | inl e ↦ rw e refl
  | inr d ↦ rw d (ap suc (length-remove x ys (rw d at h)))
]

pub eq_join : (x y z : String) → (y == x) ≡ true → (y == z) ≡ true → (z == x) ≡ true
eq_join x y z e f = rw (← (eq_iff y z).0 f) e

-- A member of `y ∷ ys` other than `y` is one of `ys`.
pub has-tail :
    (z y : String) (ys : List String) → (y == z) ≡ false → has z (y ∷ ys) ≡ true → has z ys ≡ true
unfolding has
has-tail z y ys d h = rw d at h

has-remove :
    (z x : String) (ys : List String)
    → (z == x) ≡ false
    → has z ys ≡ true
    → has z (remove x ys) ≡ true
unfolding has remove
has-remove z x [] d h = cc
has-remove z x (y ∷ ys) d h = elim (Bool-cases (y == x)) [
  | inl e ↦ rw e (gone e (y == z) refl)
  | inr n ↦ rw n (kept (y == z) refl (has-remove z x ys d))
]
  where
    gone : (y == x) ≡ true → (b : Bool) → (y == z) ≡ b → has z ys ≡ true
    gone e true f = cc (eq_join x y z e f)
    gone e false f = has-tail z y ys f h

    kept :
        (b : Bool)
        → (y == z) ≡ b
        → (has z ys ≡ true → has z (remove x ys) ≡ true)
        → has z (y ∷ remove x ys) ≡ true
    kept true f ih = rw f refl
    kept false f ih = rw (f, ih (has-tail z y ys f h)) refl

apart : (x z : String) (xs : List String) → has x xs ≡ false → has z xs ≡ true → (z == x) ≡ false
apart x z xs h k = elim (Bool-cases (z == x)) [ inl e ↦ cc (has_of_eq z x xs e) | inr d ↦ d ]

All-remove :
    (x : String) (xs zs ys : List String)
    → has x xs ≡ false
    → All (Within xs) zs
    → All (Within ys) zs
    → All (Within (remove x ys)) zs
All-remove x xs [] ys h a b = tt
All-remove x xs (z ∷ zs) ys h (az, a) (bz, b) =
    (has-remove z x ys (apart x z xs h az) bz, All-remove x xs zs ys h a b)

Within-cons : (y : String) (xs zs : List String) → All (Within xs) zs → All (Within (y ∷ xs)) zs
Within-cons y xs [] a = tt
Within-cons y xs (z ∷ zs) (az, a) = (weaken az, Within-cons y xs zs a)
  where
    weaken : has z xs ≡ true → has z (y ∷ xs) ≡ true
    weaken h = ground (arith, h, has-append z (y ∷ []) xs)

pub Within-refl : (xs : List String) → All (Within xs) xs
Within-refl [] = tt
Within-refl (x ∷ xs) = (has-here x xs, Within-cons x xs xs (Within-refl xs))

pub Within-of_has :
    (xs ys : List String) → ((x : String) → has x xs ≡ true → has x ys ≡ true) → All (Within ys) xs
unfolding has
Within-of_has [] ys h = tt
Within-of_has (x ∷ xs) ys h =
    (h x (has-here x xs), Within-of_has xs ys (λ z k. h z (ground (arith, k))))

-- The pigeonhole principle.
pub length_of_Nodup : (xs ys : List String) → Nodup xs → All (Within ys) xs → length xs ≤ length ys
length_of_Nodup [] ys n a = omega arith
length_of_Nodup (x ∷ xs) ys (fresh, n) (ax, a) = omega (
  arith,
  length-remove x ys ax,
  length_of_Nodup xs (remove x ys) n (All-remove x xs xs ys fresh (Within-refl xs) a),
)

-- A list without repetition that is as long as one that holds it, holds that one too.
pub has_of_length :
    (xs ys : List String) (y : String)
    → Nodup xs
    → All (Within ys) xs
    → length ys ≤ length xs
    → has y ys ≡ true
    → has y xs ≡ true
has_of_length xs ys y n a long h = elim (Bool-cases (has y xs)) [
  | inl e ↦ e
  | inr d ↦ absurd (omega (arith, length_of_Nodup (y ∷ xs) ys (d, n) (h, a)))
]
