-- ===== src/Vmm/Frame.antt =====
-- Address spaces of mm/vmm.c: a directory whose tables are distinct pages, none of them free.
use hao_sys.Base.{
  ℕ, ◌+◌, ◌*◌, ◌/◌, ◌%◌, ◌^◌, ◌<◌, ◌≡◌, ◌≢◌, refl, true, false, ◌&&◌, List, [], ◌∷◌, arith, ◌==◌,
  if◌then◌else◌, Bool-cases, inl, inr, Memory, store, store_self, store_ne, has,
}
use hao_sys.Pmm.Chain.{FreeList, Chain}
use hao_sys.Vmm.Entry.{page_of}
use hao_sys.Vmm.{Vmm, is_present, slot, write_word, pd_index, pt_index, get_phys_addr}

-- A write into a page that is not on the free list leaves the list as it was.
pub Chain-write :
    (mem : Memory) (h : ℕ) (pages : List ℕ) (a w : ℕ)
    → has (a / 4096) pages ≡ false
    → Chain mem h pages
    → Chain (store mem a w) h pages
Chain-write mem h [] a w out c = c
Chain-write mem h (x ∷ xs) a w out c =
    let apart : x * 4096 ≢ a = λ e. let q : a / 4096 ≡ x = omega arith in ground arith in
    (
      c.0,
      rw (store_ne mem a w (x * 4096) apart)
          (Chain-write mem (mem (x * 4096)) xs a w (ground arith) c.1),
    )

pub FreeList-write :
    (v : Vmm) (pages : List ℕ) (a w : ℕ)
    → FreeList v.pmm pages
    → has (a / 4096) pages ≡ false
    → FreeList (write_word v a w).pmm pages
FreeList-write v pages a w f out = record {
  chain = Chain-write v.mem v.pmm.free_list_head pages a w out f.chain;
  distinct = f.distinct;
  tracks = f.tracks;
  bytes = f.bytes;
  counted = f.counted;
  fits = f.fits;
}

pub record IsSpace (v : Vmm) (dir : ℕ) : Type 0 where
  pub pages : List ℕ
  pub list : FreeList v.pmm pages
  pub dir_ne : dir ≢ 0
  pub aligned : dir % 4096 ≡ 0
  pub dir_used : has (dir / 4096) pages ≡ false
  pub used :
      (i : ℕ)
      → i < 1024
      → is_present (v.mem (slot dir i)) ≡ true
      → has (v.mem (slot dir i) / 4096) pages ≡ false
  pub not_dir :
      (i : ℕ)
      → i < 1024
      → is_present (v.mem (slot dir i)) ≡ true
      → page_of (v.mem (slot dir i)) ≢ dir
  pub apart :
      (i j : ℕ)
      → i < 1024
      → j < 1024
      → is_present (v.mem (slot dir i)) ≡ true
      → is_present (v.mem (slot dir j)) ≡ true
      → page_of (v.mem (slot dir i)) ≡ page_of (v.mem (slot dir j))
      → i ≡ j

-- What a virtual address is mapped to, or 0.
abbrev pub lookup_in : Memory → ℕ → ℕ → ℕ
lookup_in mem dir x =
    if is_present (mem (slot dir (pd_index x)))
      && is_present (mem (slot (page_of (mem (slot dir (pd_index x)))) (pt_index x)))
    then page_of (mem (slot (page_of (mem (slot dir (pd_index x)))) (pt_index x))) + x % 4096
    else 0

pub get_phys_addr-lookup_in :
    (v : Vmm) (dir x : ℕ) → dir ≢ 0 → get_phys_addr v dir x ≡ lookup_in v.mem dir x
unfolding get_phys_addr
get_phys_addr-lookup_in v dir x ne = ground arith

module _ {v : Vmm} {dir : ℕ} (s : IsSpace v dir) (i j w : ℕ) (hi : i < 1024) (hj : j < 1024)
    (here : is_present (v.mem (slot dir i)) ≡ true) where
  -- The slot of a table is no slot of the directory.
  slots_apart : (k : ℕ) → k < 1024 → slot dir k ≢ slot (page_of (v.mem (slot dir i))) j
  slots_apart k hk e = s.not_dir i hi here (omega (arith, s.aligned))

  abbrev written : Memory
  written = store v.mem (slot (page_of (v.mem (slot dir i))) j) w

  dir_same : (k : ℕ) → k < 1024 → written (slot dir k) ≡ v.mem (slot dir k)
  dir_same k hk =
      store_ne v.mem (slot (page_of (v.mem (slot dir i))) j) w (slot dir k) (slots_apart k hk)

  -- Writing an entry of a table keeps the space.
  pub IsSpace-write : IsSpace (write_word v (slot (page_of (v.mem (slot dir i))) j) w) dir
  IsSpace-write =
      let page : slot (page_of (v.mem (slot dir i))) j / 4096 ≡ v.mem (slot dir i) / 4096 =
        omega arith in
      record {
        pages = s.pages;
        list =
            FreeList-write v s.pages (slot (page_of (v.mem (slot dir i))) j) w s.list
              (rw page (s.used i hi here));
        dir_ne = s.dir_ne;
        aligned = s.aligned;
        dir_used = s.dir_used;
        used = λ k hk p. rw (dir_same k hk) (s.used k hk (rw (dir_same k hk) at p));
        not_dir = λ k hk p. rw (dir_same k hk) (s.not_dir k hk (rw (dir_same k hk) at p));
        apart = λ k l hk hl p q e.
            s.apart k l hk hl (rw (dir_same k hk) at p) (rw (dir_same l hl) at q)
              (rw (dir_same k hk, dir_same l hl) at e);
      }

  -- Only the address whose entry was written is looked up otherwise.
  pub lookup_in-write :
      (x : ℕ)
      → x < 2 ^ 32
      → lookup_in written dir x ≡ (
          if x / 4096 == i * 1024 + j
          then (if is_present w then page_of w + x % 4096 else 0)
          else lookup_in v.mem dir x)
  lookup_in-write x hx =
      let k = pd_index x in
      let hk : k < 1024 = omega arith in
      elim (Bool-cases (x / 4096 == i * 1024 + j)) [
        | inl hit ↦
            let e1 : pd_index x ≡ i = ground arith in
            let e2 : pt_index x ≡ j = ground arith in
            rw
              (
                hit,
                e1,
                e2,
                dir_same i hi,
                here,
                store_self v.mem (slot (page_of (v.mem (slot dir i))) j) w,
              )
              refl
        | inr miss ↦ elim (Bool-cases (is_present (v.mem (slot dir k)))) [
          | inr absent ↦ rw (miss, dir_same k hk, absent) refl
          | inl present ↦
              let ne : slot (page_of (v.mem (slot dir k))) (pt_index x)
                  ≢ slot (page_of (v.mem (slot dir i))) j =
                λ e. let same = s.apart k i hk hi present here (omega arith) in ground arith in
              rw
                (
                  miss,
                  dir_same k hk,
                  store_ne v.mem (slot (page_of (v.mem (slot dir i))) j) w
                      (slot (page_of (v.mem (slot dir k))) (pt_index x)) ne,
                )
                refl
        ]
      ]
