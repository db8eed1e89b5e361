-- ===== src/Fat/Path/Segments.antt =====
-- Paths of fs/fat.c, segment by segment.
use hao_sys.Base.{
  ℕ, ◌+◌, ◌≤◌, ◌<◌, ◌≡◌, refl, ◌∙◌, Bool, true, false, List, [], ◌∷◌, ◌++◌, Option, none, some,
  ◌==◌, ltb, length, length-append, has, arith,
}
use hao_sys.Fat.Path.{slash, Parent, bad_path, enter, last_name, resolve_loop, resolve_parent}
use hao_sys.Fat.Run.{Run, pure, ◌>>=◌, bind_cong}
use hao_sys.Fat.{Fs}

++-assoc : (a b c : List ℕ) → (a ++ b) ++ c ≡ a ++ (b ++ c)
++-assoc [] b c = refl
++-assoc (x ∷ a) b c = rw (++-assoc a b c) refl

++-nil : (a : List ℕ) → a ++ [] ≡ a
++-nil [] = refl
++-nil (x ∷ a) = rw (++-nil a) refl

-- A name that a directory can hold: some characters, at most 15, no slash.
pub record IsSegment (s : List ℕ) : Type 0 where
  pub no_slash : has slash s ≡ false
  pub short : length s ≤ 15
  pub some_char : 0 < length s

gather :
    (fuel cur : ℕ) (seg s rest : List ℕ) (have : Bool)
    → has slash s ≡ false
    → length seg + length s ≤ 15
    → 0 < length s
    → resolve_loop fuel cur seg have (s ++ rest) ≡ resolve_loop fuel cur (seg ++ s) true rest
unfolding resolve_loop
gather fuel cur seg [] rest have h l pos = absurd (omega arith)
gather fuel cur seg (c ∷ []) rest have h l pos =
    let plain : (c == slash) ≡ false = ground (arith, h) in
    let room : ltb (length seg) 15 ≡ true = ground arith in rw (plain, room) refl
gather fuel cur seg (c ∷ d ∷ s) rest have h l pos =
    let plain : (c == slash) ≡ false = ground (arith, h) in
    let room : ltb (length seg) 15 ≡ true = ground arith in
    let left : has slash (d ∷ s) ≡ false = ground (arith, h) in
    rw (plain, room)
      (gather fuel cur (seg ++ (c ∷ [])) (d ∷ s) rest true left
          (omega (arith, length-append seg (c ∷ []))) (omega arith)
        ∙ rw (++-assoc seg (c ∷ []) (d ∷ s)) refl)

-- A path of segments, and its parent and last name found one segment after the other.
abbrev pub join : List (List ℕ) → List ℕ
join [] = []
join (s ∷ []) = s
join (s ∷ t ∷ ss) = s ++ (slash ∷ join (t ∷ ss))

abbrev pub on_below : (ℕ → Run Parent) → Option ℕ → Run Parent
on_below k below = elim below [ none ↦ pure bad_path | some dir ↦ k dir ]

on_below_cong :
    (k k' : ℕ → Run Parent) (below : Option ℕ) (g : Fs)
    → ((dir : ℕ) → k dir g ≡ k' dir g)
    → on_below k below g ≡ on_below k' below g
on_below_cong k k' none g h = refl
on_below_cong k k' (some dir) g h = h dir

abbrev pub resolve_segments : ℕ → ℕ → List (List ℕ) → Run Parent
resolve_segments fuel cur [] = pure bad_path
resolve_segments fuel cur (s ∷ []) = last_name fuel cur s
resolve_segments fuel cur (s ∷ t ∷ ss) = do
  below ← enter fuel cur s
  on_below (λ dir. resolve_segments fuel dir (t ∷ ss)) below

abbrev pub AreSegments : List (List ℕ) → Type 0
AreSegments [] = Unit {0}
AreSegments (s ∷ ss) = IsSegment s × AreSegments ss

resolve_loop-last :
    (fuel cur : ℕ) (s : List ℕ)
    → IsSegment s
    → resolve_loop fuel cur [] false s ≡ last_name fuel cur s
unfolding resolve_loop
resolve_loop-last fuel cur s h =
    let all : s ++ [] ≡ s = ++-nil s in
    rw all at (gather fuel cur [] s [] false h.no_slash (omega (arith, h.short)) h.some_char)

resolve_loop-enter :
    (fuel cur : ℕ) (s rest : List ℕ)
    → IsSegment s
    → resolve_loop fuel cur [] false (s ++ (slash ∷ rest))
      ≡ (enter fuel cur s >>= on_below (λ dir. resolve_loop fuel dir [] false rest))
unfolding resolve_loop
resolve_loop-enter fuel cur s rest h =
    gather fuel cur [] s (slash ∷ rest) false h.no_slash (omega (arith, h.short)) h.some_char

resolve_loop-segments :
    (fuel cur : ℕ) (ss : List (List ℕ)) (fs : Fs)
    → AreSegments ss
    → resolve_loop fuel cur [] false (join ss) fs ≡ resolve_segments fuel cur ss fs
unfolding resolve_loop
resolve_loop-segments fuel cur [] fs h = refl
resolve_loop-segments fuel cur (s ∷ []) fs (h, hs) = rw (resolve_loop-last fuel cur s h) refl
resolve_loop-segments fuel cur (s ∷ t ∷ ss) fs (h, hs) =
    rw (resolve_loop-enter fuel cur s (join (t ∷ ss)) h) (
      bind_cong (enter fuel cur s) _ _ fs (λ below g.
        on_below_cong _ _ below g (λ dir. resolve_loop-segments fuel dir (t ∷ ss) g hs)))

-- The character loop of `fat_resolve_parent` on a path of segments, each of 1 to 15 characters, does
-- what a walk over the segments does: every segment but the last must be a directory and is entered,
-- and the last is looked up in the directory reached.
pub resolve_parent-segments :
    (fuel : ℕ) (ss : List (List ℕ)) (fs : Fs)
    → AreSegments ss
    → resolve_parent fuel (join ss) fs ≡ resolve_segments fuel 0 ss fs
unfolding resolve_parent
resolve_parent-segments fuel ss fs h = resolve_loop-segments fuel 0 ss fs h
