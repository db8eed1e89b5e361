-- ===== src/Vfs/Covers.antt =====
-- vfs_resolve of fs/vfs.c: the mount points that cover a path.
use hao_sys.Base.{
  suc, ◌≡◌, inl, inr, refl, Bool, true, false, ◌&&◌, ◌||◌, [], ◌∷◌, ◌++◌, Option, none, ◌==◌,
  length, get_or, drop, arith, Bool-cases, ==_iff, ==_refl,
}
use hao_sys.Str.Text.{Text, IsChars, text_ncmp, char_diff-zero}
use hao_sys.Vfs.{MountSlot, slash, leads_to, non_empty}

pub both_true : (a b : Bool) → (a && b) ≡ true → (a ≡ true) × (b ≡ true)
both_true true b h = (refl, h)
both_true false b h = absurd (cc)

-- A rest of a path after a mount point.
abbrev pub IsEnd : Text → Type 0
IsEnd [] = Unit {0}
IsEnd (c ∷ cs) = c ≡ slash

abbrev pub below : Text → Option Text
below rest = elim rest [ [] ↦ none | c ∷ cs ↦ non_empty cs ]

-- The path is the mount point, or goes on below it.
abbrev pub Covers : Text → MountSlot → Text → Type 0
Covers path s rest = (s.mounted ≡ true) × (s.named ≡ true) × (path ≡ s.point ++ rest) × IsEnd rest

text_ncmp-prefix :
    (w v : Text)
    → IsChars w
    → IsChars v
    → (text_ncmp w v (length w) == 0) ≡ true
    → v ≡ w ++ drop (length w) v
unfolding text_ncmp
text_ncmp-prefix [] v hw hv e = refl
text_ncmp-prefix (c ∷ w) [] (p, l, hw) hv e =
    absurd (omega (arith, char_diff-zero c 0 l (omega arith) ((==_iff _ 0).0 e)))
text_ncmp-prefix (c ∷ w) (d ∷ v) (p, l, hw) (q, k, hv) e = elim (Bool-cases (c == d)) [
  | inl same ↦
      let h : c ≡ d = (==_iff c d).0 same in
      let e' : (text_ncmp w v (length w) == 0) ≡ true = rw same at e in
      let t = text_ncmp-prefix w v hw hv e' in cc
  | inr ne ↦
      let e' = rw ne at e in
      let h : c ≡ d = char_diff-zero c d l k ((==_iff _ 0).0 e') in
      absurd (let same : (c == d) ≡ true = (==_iff c d).1 h in cc)
]

text_ncmp_self : (w rest : Text) → text_ncmp w (w ++ rest) (length w) ≡ 0
unfolding text_ncmp
text_ncmp_self [] rest = refl
text_ncmp_self (c ∷ w) rest = rw (==_refl c) (text_ncmp_self w rest)

pub get_or-after : (w rest : Text) → get_or (w ++ rest) (length w) 0 ≡ get_or rest 0 0
get_or-after [] rest = refl
get_or-after (c ∷ w) rest = get_or-after w rest

pub drop-after : (w rest : Text) → drop (suc (length w)) (w ++ rest) ≡ drop 1 rest
drop-after [] rest = refl
drop-after (c ∷ w) rest = drop-after w rest

drop-IsEnd :
    (w v : Text)
    → IsChars v
    → ((get_or v (length w) 0 == 0) || (get_or v (length w) 0 == slash)) ≡ true
    → IsEnd (drop (length w) v)
drop-IsEnd [] [] hv e = tt
drop-IsEnd [] (d ∷ v) (p, l, hv) e =
    let z : (d == 0) ≡ false = ground arith in (==_iff d slash).0 (rw z at e)
drop-IsEnd (c ∷ w) [] hv e = tt
drop-IsEnd (c ∷ w) (d ∷ v) (p, l, hv) e = drop-IsEnd w v hv e

pub leads_to-Covers :
    (path : Text) (s : MountSlot)
    → IsChars path
    → IsChars s.point
    → leads_to path s ≡ true
    → (rest : Text) × Covers path s rest
leads_to-Covers path s hp hs h =
    let (m, t) = both_true _ _ h in
    let (n, u) = both_true _ _ t in
    let (pre, e) = both_true _ _ u in
    (
      drop (length s.point) path,
      (m, n, text_ncmp-prefix s.point path hs hp pre, drop-IsEnd s.point path hp e),
    )

pub Covers-leads_to :
    (path : Text) (s : MountSlot) (rest : Text) → Covers path s rest → leads_to path s ≡ true
Covers-leads_to path s [] (m, n, e, h) =
    rw (m, n, e, get_or-after s.point [], text_ncmp_self s.point []) refl
Covers-leads_to path s (c ∷ rest) (m, n, e, h) =
    rw (m, n, e, get_or-after s.point (c ∷ rest), text_ncmp_self s.point (c ∷ rest), h) refl
