-- ===== src/Pmm/Contiguous.antt =====
-- `pmm_alloc_contiguous`: taking the pages of the run off the list, and the whole allocation.
use hao_sys.Base.{
  ℕ, zero, suc, ◌+◌, ◌<◌, ◌≡◌, ◌≢◌, refl, ap, sym, subst, ◌⊎◌, inl, inr, true, false, ◌&&◌, some,
  List, [], ◌∷◌, arith, ltb, leb, ◌==◌, ==_iff, ==_refl, if◌then◌else◌, sub32, Bool-cases,
  Option-cases, Memory, store, store_self, store_ne, has, Distinct, length,
}
use hao_sys.Pmm.Bitmap.{
  get_page_bit, set_page_bit, set_page_bit-IsBytes, get_page_bit-set_page_bit, index_to_addr,
}
use hao_sys.Pmm.{Pmm, no_page, walk, unlink, take_page, take_pages, scan_run, alloc_contiguous}
use hao_sys.Pmm.Chain.{FreeList, Chain, Chain-store, erase, has-erase, Distinct-erase, length-erase}
use hao_sys.Pmm.Alloc.{FreeList-length, FreeList-at}
use hao_sys.Pmm.Scan.{is_free, IsRun, scan_run-IsRun, scan_run-none}

abbrev link : Memory → ℕ → ℕ
link mem i = mem (index_to_addr i)

-- What the walk finds: the page in front of `target`, and what unlinking it leaves.
data Found (mem : Memory) (target prev cur : ℕ) (pages : List ℕ) (q : ℕ) : Type 0 where
  first :
      q ≡ prev
      → cur ≡ target
      → Chain mem (link mem target) (erase target pages)
      → Found mem target prev cur pages q
  behind :
      has q pages ≡ true
      → Chain (store mem (index_to_addr q) (link mem target)) cur (erase target pages)
      → Found mem target prev cur pages q

abbrev Below : ℕ → List ℕ → Type 0
Below n pages = (j : ℕ) → has j pages ≡ true → j < n

Found-cons :
    (mem : Memory) (target prev x : ℕ) (xs : List ℕ) (q : ℕ)
    → has x xs ≡ false
    → Distinct xs
    → (target == x) ≡ false
    → Found mem target x (link mem x) xs q
    → Found mem target prev x (x ∷ xs) q
unfolding erase
Found-cons mem target prev x xs q out d miss (first e here c) =
    subst (λ t. Found mem target prev x (x ∷ xs) t) (sym e)
      (behind (ground arith) (
        rw miss (
          refl,
          rw (store_self mem (index_to_addr x) (link mem target)) (
              Chain-store mem (link mem target) (erase target xs) x (link mem target)
                (ground (arith, has-erase target x xs d)) c),
        )))
Found-cons mem target prev x xs q out d miss (behind m c) =
    let apart : index_to_addr x ≢ index_to_addr q =
      λ e. let e' : q ≡ x = omega arith in let m' : has x xs ≡ true = rw e' at m in cc in
    behind (ground arith) (
      rw miss
        (refl, rw (store_ne mem (index_to_addr q) (link mem target) (index_to_addr x) apart) c))

-- The walk ends at a target that is on the list, within a round for each page.
walk-Found :
    (mem : Memory) (target fuel prev cur : ℕ) (pages : List ℕ)
    → Chain mem cur pages
    → Distinct pages
    → Below no_page pages
    → has target pages ≡ true
    → length pages < fuel
    → (q : ℕ) × (walk mem target fuel prev cur ≡ some (q, target))
      × Found mem target prev cur pages q
unfolding walk erase
walk-Found mem target fuel prev cur [] c d b h enough = absurd (cc)
walk-Found mem target zero prev cur (x ∷ xs) c d b h enough = absurd (omega arith)
walk-Found mem target (suc fuel) prev cur (x ∷ xs) c d b h enough =
    let more : (x == no_page) ≡ false = ground (arith, b x) in
    elim (Bool-cases (target == x)) [
      | inl hit ↦
          let e : target ≡ x = (==_iff target x).0 hit in
          (prev, ground (arith, c.0), rw (c.0, e) (first refl refl (rw (==_refl x) c.1)))
      | inr miss ↦
          let rest =
            walk-Found mem target fuel x (link mem x) xs c.1 d.1 (λ j m. b j (ground arith))
              (ground arith) (omega arith) in
          (
            rest.0,
            ground (arith, c.0, rest.1),
            rw c.0 (Found-cons mem target prev x xs rest.0 d.0 d.1 miss rest.2),
          )
    ]

total_pages-unlink :
    (p : Pmm) (target : ℕ) (found : ℕ × ℕ) → (unlink p target found).total_pages ≡ p.total_pages
unfolding unlink
total_pages-unlink p target (prev, cur) = ground arith

unlink-Chain :
    (p : Pmm) (target q : ℕ) (pages : List ℕ)
    → Below no_page pages
    → Found p.mem target no_page p.free_list_head pages q
    → let u = unlink p target (q, target) in Chain u.mem u.free_list_head (erase target pages)
unfolding unlink
unlink-Chain p target q pages b (first e here c) = rw (e, ==_refl target) c
unlink-Chain p target q pages b (behind m c) =
    let ne : (q == no_page) ≡ false = ground (arith, b q) in rw (==_refl target, ne) c

pub record TakenOff (p : Pmm) (target : ℕ) (pages : List ℕ) (q : Pmm) : Type 0 where
  pub list : FreeList q (erase target pages)
  pub bits :
      (j : ℕ) → get_page_bit q.bitmap j ≡ (if j == target then false else get_page_bit p.bitmap j)
  pub total : q.total_pages ≡ p.total_pages

-- Taking a page that is on the list off it: the walk ends, and list, bitmap and count agree again.
pub take_page-TakenOff :
    {p : Pmm} (pages : List ℕ) (target : ℕ)
    → FreeList p pages
    → has target pages ≡ true
    → (q : Pmm) × (take_page p target ≡ some q) × TakenOff p target pages q
unfolding take_page
take_page-TakenOff {p} pages target f h =
    let below : Below no_page pages = λ j m. (FreeList-at pages j f m).2 in
    let w =
      walk-Found p.mem target (p.total_pages + 1) no_page p.free_list_head pages f.chain f.distinct
        below h (omega (arith, FreeList-length pages f)) in
    let u = unlink p target (w.0, target) in
    let bits = λ (j : ℕ). get_page_bit-set_page_bit p.bitmap target j false f.bytes in
    let same = total_pages-unlink p target (w.0, target) in
    (
      record u { bitmap = set_page_bit p.bitmap target false; free_pages = sub32 p.free_pages 1 },
      rw (w.1, take_page),
      record {
        list = record {
          chain = unlink-Chain p target w.0 pages below w.2;
          distinct = Distinct-erase target pages f.distinct;
          tracks = λ j.
              rw (same, bits j, has-erase target j pages f.distinct, f.tracks j) (ground arith);
          bytes = set_page_bit-IsBytes p.bitmap target false f.bytes;
          counted =
              omega
                (arith, f.counted, length-erase target pages h, FreeList-length pages f, f.fits);
          fits = rw same f.fits;
        };
        bits = bits;
        total = same;
      },
    )

-- What taking the `n` pages from `i` on leaves.
pub record RunTaken (p : Pmm) (n i : ℕ) (q : Pmm) : Type 0 where
  pub pages : List ℕ
  pub list : FreeList q pages
  pub bits :
      (j : ℕ)
      → get_page_bit q.bitmap j
        ≡ (if leb i j && ltb j (i + n) then false else get_page_bit p.bitmap j)
  pub count : q.free_pages + n ≡ p.free_pages

take_pages-RunTaken :
    (n i : ℕ) {p : Pmm} (pages : List ℕ)
    → FreeList p pages
    → IsRun p n i
    → (q : Pmm) × (take_pages n p i ≡ some q) × RunTaken p n i q
unfolding take_pages
take_pages-RunTaken zero i {p} pages f run =
    (p, refl, record { pages = pages; list = f; bits = λ j. ground arith; count = omega arith })
take_pages-RunTaken (suc n) i {p} pages f run =
    let here : has i pages ≡ true = ground (arith, f.tracks i, run_here) in
    let t = take_page-TakenOff pages i f here in
    let left : IsRun t.0 n (i + 1) = λ k lt.
      let e : i + 1 + k ≡ i + suc k = omega arith in
      ground (arith, t.2.bits (i + 1 + k), t.2.total, e, moved e, run (suc k)) in
    let rest = take_pages-RunTaken n (i + 1) (erase i pages) t.2.list left in
    (
      rest.0,
      rw (t.1, take_pages) rest.1,
      record {
        pages = rest.2.pages;
        list = rest.2.list;
        bits = λ j. ground (arith, rest.2.bits j, t.2.bits j);
        count = omega (arith, rest.2.count, t.2.list.counted, f.counted, length-erase i pages here);
      },
    )
  where
    run_here : is_free p i ≡ true
    run_here = let e : i + 0 ≡ i = omega arith in rw e at (run 0 (omega arith))

    moved : {a b : ℕ} → a ≡ b → is_free p a ≡ is_free p b
    moved e = ap (is_free p) e

-- `pmm_alloc_contiguous` of at least one page. Either no `count` neighbouring pages are free, the
-- result is NULL and nothing changes; or the result is the address of `count` neighbouring pages
-- that were free, these alone leave the bitmap and the list, and the count falls by `count`.
pub alloc_contiguous_lem :
    {p : Pmm} (pages : List ℕ) (count : ℕ)
    → FreeList p pages
    → 0 < count
    → ((alloc_contiguous p count ≡ some (0, p)) × ((s : ℕ) → ¬ IsRun p count s))
      ⊎ ((i : ℕ) × (q : Pmm) × (alloc_contiguous p count ≡ some (index_to_addr i, q))
          × IsRun p count i
          × RunTaken p count i q)
unfolding alloc_contiguous
alloc_contiguous_lem {p} pages count f pos =
    let some_pages : (count == 0) ≡ false = ground arith in
    elim (Option-cases (scan_run p count p.total_pages 0)) [
      | inl e ↦ inl (
        rw (some_pages, e),
        λ s. scan_run-none p count p.total_pages 0 s pos (omega arith) e (omega arith),
      )
      | inr (i, e) ↦
          let run = scan_run-IsRun p count p.total_pages 0 i e in
          let t = take_pages-RunTaken count i pages f run in
          inr (i, t.0, rw (some_pages, e, t.1), run, t.2)
    ]
