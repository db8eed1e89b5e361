-- ===== src/Vmm/Table.antt =====
-- mm/vmm.c: a fresh page table, and a directory slot that is set.
use hao_sys.Base.{
  ℕ, suc, ◌/◌, ◌%◌, ◌<◌, ◌≡◌, ◌≢◌, refl, ap, sym, ◌∙◌, ℕ_discrete, ◌⊎◌, inl, inr, true, false, List,
  [], ◌∷◌, arith, ◌==◌, ==_iff, Bool-cases, Memory, store, store_self, store_ne, count_up_rule, has,
}
use hao_sys.Pmm.{Pmm, alloc_page}
use hao_sys.Pmm.Chain.{FreeList, Chain}
use hao_sys.Pmm.Alloc.{alloc_page-empty, alloc_page-Taken}
use hao_sys.Vmm.Entry.{page_of}
use hao_sys.Vmm.Frame.{Chain-write, FreeList-write, IsSpace}
use hao_sys.Vmm.{Vmm, is_present, slot, write_word, zero_page, allocate_pt}

-- What zeroing the first `n` words of a page leaves.
record Zeroed (page n : ℕ) (before after : Memory) : Type 0 where
  outside : (a : ℕ) → a / 4096 ≢ page / 4096 → after a ≡ before a
  zeros : (j : ℕ) → j < n → after (slot page j) ≡ 0
  chains :
      (h : ℕ) (pages : List ℕ)
      → has (page / 4096) pages ≡ false
      → Chain before h pages
      → Chain after h pages

Zeroed-step :
    (page k : ℕ) (mem m : Memory)
    → page % 4096 ≡ 0
    → k < 1024
    → Zeroed page k mem m
    → Zeroed page (suc k) mem (store m (slot page k) 0)
Zeroed-step page k mem m al lt z =
    let inside : slot page k / 4096 ≡ page / 4096 = omega arith in
    record {
      outside = λ a ne.
          let ne' : a ≢ slot page k = λ e. ne (omega arith) in
          rw (store_ne m (slot page k) 0 a ne') (z.outside a ne);
      zeros = λ j h. elim (Bool-cases (j == k)) [
        | inl e ↦ rw ((==_iff j k).0 e) (store_self m (slot page k) 0)
        | inr ne ↦
            let ne' : slot page j ≢ slot page k = λ e. ground arith in
            rw (store_ne m (slot page k) 0 (slot page j) ne') (z.zeros j (ground arith))
      ];
      chains = λ h pages out c.
          Chain-write m h pages (slot page k) 0 (rw inside out) (z.chains h pages out c);
    }

zero_page-Zeroed :
    (page : ℕ) (mem : Memory) → page % 4096 ≡ 0 → Zeroed page 1024 mem (zero_page page mem)
unfolding zero_page
zero_page-Zeroed page mem al =
    count_up_rule (λ k m. Zeroed page k mem m) (λ i m. store m (slot page i) 0) 0 1024 1024 0 mem
      (λ k t _ lt z. Zeroed-step page k mem t al lt z) (omega arith) (omega arith)
      (record {
        outside = λ a _. refl;
        zeros = λ j h. absurd (omega arith);
        chains = λ h pages _ c. c;
      })

-- A fresh table: not a free page, not a page in use, all zero; the rest of memory is as it was.
pub record Fresh (v : Vmm) (pt : ℕ) (pages rest : List ℕ) (w : Vmm) : Type 0 where
  pub pt_ne : pt ≢ 0
  pub aligned : pt % 4096 ≡ 0
  pub was_free : has (pt / 4096) pages ≡ true
  pub taken : has (pt / 4096) rest ≡ false
  pub fewer : (j : ℕ) → has j pages ≡ false → has j rest ≡ false
  pub list : FreeList w.pmm rest
  pub zeros : (j : ℕ) → j < 1024 → w.mem (slot pt j) ≡ 0
  pub outside : (a : ℕ) → a / 4096 ≢ pt / 4096 → w.mem a ≡ v.mem a

-- Without a page to give the result is 0, and memory is as it was.
pub record NoTable (v : Vmm) (pages : List ℕ) (w : Vmm) : Type 0 where
  pub left : List ℕ
  pub fewer : (j : ℕ) → has j pages ≡ false → has j left ≡ false
  pub list : FreeList w.pmm left
  pub same : (a : ℕ) → w.mem a ≡ v.mem a

mem-alloc_page : (p : Pmm) → (alloc_page p).1.mem ≡ p.mem
unfolding alloc_page
mem-alloc_page p = ground arith

pub allocate_pt_lem :
    (v : Vmm) (pages : List ℕ)
    → FreeList v.pmm pages
    → (((allocate_pt v).0 ≡ 0) × NoTable v pages (allocate_pt v).1)
      ⊎ ((rest : List ℕ) × Fresh v (allocate_pt v).0 pages rest (allocate_pt v).1)
unfolding allocate_pt
allocate_pt_lem v [] f =
    let e = alloc_page-empty f in
    inl (rw e refl, rw e (record { left = []; fewer = λ j h. h; list = f; same = λ a. refl }))
allocate_pt_lem v (h ∷ rest) f =
    let page = (alloc_page v.pmm).0 in
    let t = alloc_page-Taken h rest f in
    let same = mem-alloc_page v.pmm in
    elim (Bool-cases (page == 0)) [
      | inl e ↦ inl (
        rw e refl,
        rw e (record {
          left = rest;
          fewer = λ j out. ground arith;
          list = t.list;
          same = λ a. rw same refl;
        }),
      )
      | inr e ↦
          let index : page / 4096 ≡ h = omega (arith, t.address) in
          let z = zero_page-Zeroed page (alloc_page v.pmm).1.mem (omega (arith, t.address)) in
          let taken : has (page / 4096) rest ≡ false = rw index f.distinct.0 in
          inr (
            rest,
            rw e (record {
              pt_ne = ground arith;
              aligned = omega (arith, t.address);
              was_free = rw index (ground arith);
              taken = taken;
              fewer = λ j out. ground arith;
              list = record {
                chain = z.chains (alloc_page v.pmm).1.free_list_head rest taken t.list.chain;
                distinct = t.list.distinct;
                tracks = t.list.tracks;
                bytes = t.list.bytes;
                counted = t.list.counted;
                fits = t.list.fits;
              };
              zeros = z.zeros;
              outside = λ a ne. z.outside a ne ∙ ap (λ m. m a) same;
            }),
          )
    ]

-- Setting a directory slot to a table that is its own keeps the space.
pub IsSpace-pde :
    {v : Vmm} {dir : ℕ} (s : IsSpace v dir) (i w : ℕ)
    → i < 1024
    → has (w / 4096) s.pages ≡ false
    → page_of w ≢ dir
    → ((k : ℕ)
        → k < 1024
        → k ≢ i
        → is_present (v.mem (slot dir k)) ≡ true
        → page_of (v.mem (slot dir k)) ≢ page_of w)
    → IsSpace (write_word v (slot dir i) w) dir
IsSpace-pde {v} {dir} s i w hi used ne others =
    let m = store v.mem (slot dir i) w in
    let old : (k : ℕ) → k ≢ i → m (slot dir k) ≡ v.mem (slot dir k) =
      λ k q. store_ne v.mem (slot dir i) w (slot dir k) (λ e. q (omega arith)) in
    let new : (k : ℕ) → k ≡ i → m (slot dir k) ≡ w =
      λ k q. rw q (store_self v.mem (slot dir i) w) in
    let page : slot dir i / 4096 ≡ dir / 4096 = omega (arith, s.aligned) in
    record {
      pages = s.pages;
      list = FreeList-write v s.pages (slot dir i) w s.list (rw page s.dir_used);
      dir_ne = s.dir_ne;
      aligned = s.aligned;
      dir_used = s.dir_used;
      used = λ k hk p. elim (ℕ_discrete k i) [
        | yes q ↦ rw (new k q) used
        | no q ↦ rw (old k q) (s.used k hk (rw (old k q) at p))
      ];
      not_dir = λ k hk p. elim (ℕ_discrete k i) [
        | yes q ↦ rw (new k q) ne
        | no q ↦ rw (old k q) (s.not_dir k hk (rw (old k q) at p))
      ];
      apart = λ k l hk hl p q e. elim (ℕ_discrete k i) [
        | yes ki ↦ elim (ℕ_discrete l i) [
          | yes li ↦ ki ∙ sym li
          | no li ↦
              absurd (others l hl li (rw (old l li) at q) (sym (rw (new k ki, old l li) at e)))
        ]
        | no ki ↦ elim (ℕ_discrete l i) [
          | yes li ↦ absurd (others k hk ki (rw (old k ki) at p) (rw (old k ki, new l li) at e))
          | no li ↦
              s.apart k l hk hl (rw (old k ki) at p) (rw (old l li) at q)
                (rw (old k ki, old l li) at e)
        ]
      ];
    }
