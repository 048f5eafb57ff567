-- ===== src/Buffering/Merge/Sorting.antt =====
-- internal/runtime/buffering/merge.go: the order of the sources of a merge.
use realtime_speech_pipeline.Base.{
  String, Bool, true, false, ◌≡◌, refl, ◌∙◌, inl, inr, List, [], ◌∷◌, if◌then◌else◌, Bool-cases,
  arith,
}
use realtime_speech_pipeline.Base.Int.{◌≤ℤ◌}
use realtime_speech_pipeline.Base.Lists.{All}
use realtime_speech_pipeline.Base.Members.{count_of}
use realtime_speech_pipeline.Buffering.Merge.{MergeSource, less, insert, sort_sources}

abbrev pub ids : List MergeSource → List String
ids [] = []
ids (s ∷ ss) = s.event_id ∷ ids ss

abbrev pub Earlier : MergeSource → MergeSource → Type 0
Earlier a b = a.runtime_sequence ≤ℤ b.runtime_sequence

abbrev pub Sorted : List MergeSource → Type 0
Sorted [] = Unit
Sorted (x ∷ xs) = All (Earlier x) xs × Sorted xs

less-Earlier : (a b : MergeSource) → less a b ≡ true → Earlier a b
unfolding less
less-Earlier a b h = ground (arith, h)

not_less-Earlier : (a b : MergeSource) → less a b ≡ false → Earlier b a
unfolding less
not_less-Earlier a b h = ground (arith, h)

insert-All :
    (P : MergeSource → Type 0) (x : MergeSource) (ys : List MergeSource)
    → P x
    → All P ys
    → All P (insert x ys)
unfolding insert
insert-All P x [] p a = (p, tt)
insert-All P x (y ∷ ys) p (q, a) = elim (Bool-cases (less x y)) [
  | inl e ↦ rw e (p, (q, a))
  | inr e ↦ rw e (q, insert-All P x ys p a)
]

All-insert :
    (P : MergeSource → Type 0) (x : MergeSource) (ys : List MergeSource)
    → All P (insert x ys)
    → P x × All P ys
unfolding insert
All-insert P x [] (p, a) = (p, tt)
All-insert P x (y ∷ ys) h = at (less x y) h (All-insert P x ys)
  where
    at :
        (b : Bool)
        → All P (if b then x ∷ y ∷ ys else y ∷ insert x ys)
        → (All P (insert x ys) → P x × All P ys)
        → P x × All P (y ∷ ys)
    at true (p, rest) again = (p, rest)
    at false (q, rest) again = let (p, a) = again rest in (p, (q, a))

pub sort-All :
    (P : MergeSource → Type 0) (xs : List MergeSource) → All P xs → All P (sort_sources xs)
unfolding sort_sources
sort-All P [] a = tt
sort-All P (x ∷ xs) (p, a) = insert-All P x (sort_sources xs) p (sort-All P xs a)

pub All-sort :
    (P : MergeSource → Type 0) (xs : List MergeSource) → All P (sort_sources xs) → All P xs
unfolding sort_sources
All-sort P [] a = tt
All-sort P (x ∷ xs) a =
    let (p, rest) = All-insert P x (sort_sources xs) a in (p, All-sort P xs rest)

pub Earlier-trans : (a b c : MergeSource) → Earlier a b → Earlier b c → Earlier a c
Earlier-trans a b c h k = omega (arith, h, k)

All-Earlier :
    (a b : MergeSource) (xs : List MergeSource)
    → Earlier a b
    → All (Earlier b) xs
    → All (Earlier a) xs
All-Earlier a b [] h k = tt
All-Earlier a b (x ∷ xs) h (k, ks) = (Earlier-trans a b x h k, All-Earlier a b xs h ks)

insert-Sorted : (x : MergeSource) (ys : List MergeSource) → Sorted ys → Sorted (insert x ys)
unfolding insert
insert-Sorted x [] s = (tt, tt)
insert-Sorted x (y ∷ ys) (h, s) = elim (Bool-cases (less x y)) [
  | inl e ↦ rw e ((less-Earlier x y e, All-Earlier x y ys (less-Earlier x y e) h), (h, s))
  | inr e ↦ rw e (insert-All (Earlier y) x ys (not_less-Earlier x y e) h, insert-Sorted x ys s)
]

pub sort-Sorted : (xs : List MergeSource) → Sorted (sort_sources xs)
unfolding sort_sources
sort-Sorted [] = tt
sort-Sorted (x ∷ xs) = insert-Sorted x (sort_sources xs) (sort-Sorted xs)

count_of-insert :
    (id : String) (x : MergeSource) (ys : List MergeSource)
    → count_of id (ids (insert x ys)) ≡ count_of id (ids (x ∷ ys))
unfolding insert count_of
count_of-insert id x [] = refl
count_of-insert id x (y ∷ ys) = elim (Bool-cases (less x y)) [
  | inl e ↦ rw e refl
  | inr e ↦ rw e (omega (arith, count_of-insert id x ys))
]

pub count_of-sort :
    (id : String) (xs : List MergeSource)
    → count_of id (ids (sort_sources xs)) ≡ count_of id (ids xs)
unfolding sort_sources count_of
count_of-sort id [] = refl
count_of-sort id (x ∷ xs) =
    count_of-insert id x (sort_sources xs) ∙ omega (arith, count_of-sort id xs)
