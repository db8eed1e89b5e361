-- ===== src/Pmm/Chain.antt =====
-- The free list of mm/pmm.c as a list of page indices, and its agreement with the bitmap.
use hao_sys.Base.{
  ℕ, zero, suc, ◌^◌, ◌≤◌, ◌<◌, ◌≡◌, ◌≢◌, refl, inl, inr, true, false, not, ◌&&◌, List, [], ◌∷◌,
  arith, ltb, ◌==◌, ==_iff, if◌then◌else◌, Memory, store, store_ne, has, Distinct, length,
  Bool-cases,
}
use hao_sys.Pmm.Bitmap.{get_page_bit, IsBytes, index_to_addr}
use hao_sys.Pmm.{Pmm, no_page}

-- Following the links from page `h` visits `pages` and ends.
abbrev pub Chain : Memory → ℕ → List ℕ → Type 0
Chain mem h [] = h ≡ no_page
Chain mem h (i ∷ is) = (h ≡ i) × Chain mem (mem (index_to_addr i)) is

-- `pages` is the free list of `p`: it has no page twice, it holds exactly the pages whose bit is
-- set, and `free_pages` is its length.
pub record FreeList (p : Pmm) (pages : List ℕ) : Type 0 where
  pub chain : Chain p.mem p.free_list_head pages
  pub distinct : Distinct pages
  pub tracks : (j : ℕ) → has j pages ≡ (ltb j p.total_pages && get_page_bit p.bitmap j)
  pub bytes : IsBytes p.bitmap
  pub counted : p.free_pages ≡ length pages
  pub fits : p.total_pages ≤ 2 ^ 20

-- A link written in a page that is not on the list leaves the list as it was.
pub Chain-store :
    (mem : Memory) (h : ℕ) (pages : List ℕ) (i v : ℕ)
    → has i pages ≡ false
    → Chain mem h pages
    → Chain (store mem (index_to_addr i) v) h pages
Chain-store mem h [] i v out c = c
Chain-store mem h (x ∷ xs) i v out c =
    let apart : index_to_addr x ≢ index_to_addr i = ground arith in
    (
      c.0,
      rw (store_ne mem (index_to_addr i) v (index_to_addr x) apart)
          (Chain-store mem (mem (index_to_addr x)) xs i v (ground arith) c.1),
    )

unfoldable pub erase : ℕ → List ℕ → List ℕ
erase a [] = []
erase a (x ∷ xs) = if a == x then xs else x ∷ erase a xs

pub has-erase :
    (a j : ℕ) (xs : List ℕ) → Distinct xs → has j (erase a xs) ≡ (has j xs && not (j == a))
unfolding erase
has-erase a j [] d = refl
has-erase a j (x ∷ xs) d = elim (Bool-cases (a == x)) [
  | inl e ↦ rw e (elim (Bool-cases (j == x)) [
    | inl q ↦
        let out : has j xs ≡ false = rw ((==_iff j x).0 q) d.0 in
        ground (arith, out, (==_iff a x).0 e, (==_iff j x).0 q)
    | inr q ↦ ground (arith, (==_iff a x).0 e)
  ])
  | inr e ↦ rw e (ground (arith, has-erase a j xs d.1))
]

pub Distinct-erase : (a : ℕ) (xs : List ℕ) → Distinct xs → Distinct (erase a xs)
unfolding erase
Distinct-erase a [] d = tt
Distinct-erase a (x ∷ xs) d = ground (arith, Distinct-erase a xs d.1, has-erase a x xs d.1)

pub length-erase : (a : ℕ) (xs : List ℕ) → has a xs ≡ true → length xs ≡ suc (length (erase a xs))
unfolding erase
length-erase a [] h = cc
length-erase a (x ∷ xs) h = ground (arith, length-erase a xs)

-- Distinct numbers below `n` are at most `n` in number.
pub length-le-bound :
    (n : ℕ) (xs : List ℕ) → Distinct xs → ((j : ℕ) → has j xs ≡ true → j < n) → length xs ≤ n
length-le-bound zero [] d b = omega arith
length-le-bound zero (x ∷ xs) d b = absurd (omega (arith, b x (ground arith)))
length-le-bound (suc n) xs d b = elim (Bool-cases (has n xs)) [
  | inl h ↦ omega (
    arith,
    length-erase n xs h,
    length-le-bound n (erase n xs) (Distinct-erase n xs d)
        λ j q. ground (arith, has-erase n j xs d, b j),
  )
  | inr h ↦
      let ne : (j : ℕ) → has j xs ≡ true → j ≢ n =
        λ j q e. let r : has n xs ≡ true = rw e at q in cc in
      omega (arith, length-le-bound n xs d λ j q. omega (arith, b j q, ne j q))
]
