-- ===== src/Vmm/Calls.antt =====
-- `vmm_map_page`, `vmm_unmap_page` and `vmm_get_phys_addr` as one table of translations.
use hao_sys.Base.{
  ℕ, ◌+◌, ◌*◌, ◌/◌, ◌%◌, ◌^◌, ◌<◌, ◌≡◌, ◌≢◌, refl, ◌∙◌, ℕ_discrete, inl, inr, Bool, true, false,
  ◌&&◌, List, arith, ◌==◌, if◌then◌else◌, Bool-cases, store_self, store_ne, has,
}
use hao_sys.Pmm.Chain.{FreeList}
use hao_sys.Vmm.Entry.{page_of, has_flag, with_flag, entry_of, entry_of_lem}
use hao_sys.Vmm.Frame.{IsSpace, IsSpace-write, lookup_in, lookup_in-write, get_phys_addr-lookup_in}
use hao_sys.Vmm.Table.{Fresh, allocate_pt_lem, IsSpace-pde}
use hao_sys.Vmm.Mapping.{Remapped, lookup_in-agree, set_pte-Remapped, lookup_in-pde}
use hao_sys.Vmm.{
  Vmm, is_present, slot, write_word, pd_index, pt_index, allocate_pt, is_kernel_table, set_pte,
  map_new_table, map_old_table, map_page, unmap_page, get_phys_addr,
}

-- Setting USER in a slot keeps the space and its lookups.
user_slot :
    {v : Vmm} {dir : ℕ} (virt phys flags : ℕ)
    → IsSpace v dir
    → virt < 2 ^ 32
    → is_present (v.mem (slot dir (pd_index virt))) ≡ true
    → let pde = v.mem (slot dir (pd_index virt)) in
      Remapped v dir virt phys (
        set_pte
          (write_word v (slot dir (pd_index virt)) (with_flag pde 2))
          (page_of (with_flag pde 2))
          virt
          (page_of phys)
          flags)
user_slot {v} {dir} virt phys flags s hv here =
    let i = pd_index virt in
    let pde = v.mem (slot dir i) in
    let w = with_flag pde 2 in
    let hi : i < 1024 = omega arith in
    let same : page_of w ≡ page_of pde = ground arith in
    let page : w / 4096 ≡ pde / 4096 = omega arith in
    let pw : is_present w ≡ true = ground arith in
    let u = write_word v (slot dir i) w in
    let su : IsSpace u dir =
      IsSpace-pde s i w hi (rw page (s.used i hi here)) (rw same (s.not_dir i hi here))
        (λ k hk ne p e. ne (s.apart k i hk hi p here (e ∙ same))) in
    let now : u.mem (slot dir i) ≡ w = store_self v.mem (slot dir i) w in
    let r = set_pte-Remapped virt phys flags su hv (rw now pw) in
    let r' : Remapped u dir virt phys (set_pte u (page_of w) virt (page_of phys) flags) =
      rw now at r in
    record {
      space = r'.space;
      lookup = λ x hx. rw (← lookup_in-pde s i w x hi here pw same hx) (r'.lookup x hx);
    }

map_old_table-Remapped :
    {v : Vmm} {dir : ℕ} (virt phys flags : ℕ)
    → IsSpace v dir
    → virt < 2 ^ 32
    → is_present (v.mem (slot dir (pd_index virt))) ≡ true
    → Remapped v dir virt phys (map_old_table v dir virt (page_of phys) flags)
unfolding map_old_table
map_old_table-Remapped {v} {dir} virt phys flags s hv here = elim (Bool-cases (has_flag flags 2)) [
  | inr kernel_only ↦ rw kernel_only (set_pte-Remapped virt phys flags s hv here)
  | inl user ↦ elim (Bool-cases (is_kernel_table v (page_of (v.mem (slot dir (pd_index virt)))))) [
    | inl shared ↦ rw (user, shared) (record { space = s; lookup = λ x hx. refl })
    | inr own ↦ rw (user, own) (user_slot virt phys flags s hv here)
  ]
]

-- A space is still one when free pages are taken and pages outside it are written.
IsSpace-fewer :
    {v w : Vmm} {dir : ℕ} (s : IsSpace v dir) (rest : List ℕ)
    → FreeList w.pmm rest
    → ((j : ℕ) → has j s.pages ≡ false → has j rest ≡ false)
    → ((k : ℕ) → k < 1024 → w.mem (slot dir k) ≡ v.mem (slot dir k))
    → IsSpace w dir
IsSpace-fewer {v} {w} {dir} s rest list fewer same = record {
  pages = rest;
  list = list;
  dir_ne = s.dir_ne;
  aligned = s.aligned;
  dir_used = fewer (dir / 4096) s.dir_used;
  used = λ k hk p. rw (same k hk) (fewer _ (s.used k hk (rw (same k hk) at p)));
  not_dir = λ k hk p. rw (same k hk) (s.not_dir k hk (rw (same k hk) at p));
  apart = λ k l hk hl p q e.
      s.apart k l hk hl (rw (same k hk) at p) (rw (same l hl) at q)
        (rw (same k hk, same l hl) at e);
}

module _ {v u : Vmm} {dir pt : ℕ} {rest : List ℕ} (s : IsSpace v dir)
    (f : Fresh v pt s.pages rest u) (virt flags : ℕ) (hv : virt < 2 ^ 32)
    (absent : is_present (v.mem (slot dir (pd_index virt))) ≡ false) where
  not_dir_page : pt / 4096 ≢ dir / 4096
  not_dir_page e =
      let q : has (dir / 4096) s.pages ≡ true = rw (← e) f.was_free in cc (q, s.dir_used)

  dir_kept : (k : ℕ) → k < 1024 → u.mem (slot dir k) ≡ v.mem (slot dir k)
  dir_kept k hk = f.outside (slot dir k) (λ e. not_dir_page (omega (arith, s.aligned)))

  not_table :
      (k : ℕ)
      → k < 1024
      → is_present (v.mem (slot dir k)) ≡ true
      → v.mem (slot dir k) / 4096 ≢ pt / 4096
  not_table k hk p e =
      let q : has (pt / 4096) s.pages ≡ false = rw (← e) (s.used k hk p) in cc (q, f.was_free)

  abbrev entry : ℕ
  entry = entry_of pt (if has_flag flags 2 then 7 else 3)

  abbrev hung : Vmm
  hung = write_word u (slot dir (pd_index virt)) entry

  entry_page : page_of entry ≡ pt
  entry_page = (entry_of_lem pt (if has_flag flags 2 then 7 else 3)).1 ∙ omega (arith, f.aligned)

  hung-IsSpace : IsSpace hung dir
  unfolding IsSpace-fewer
  hung-IsSpace =
      let su = IsSpace-fewer s rest f.list f.fewer dir_kept in
      let e : entry / 4096 ≡ pt / 4096 = omega (arith, entry_page) in
      IsSpace-pde su (pd_index virt) entry (omega arith) (rw e f.taken)
        (λ q. not_dir_page (omega (arith, entry_page)))
        λ k hk ne p q.
          not_table k hk (rw (dir_kept k hk) at p)
            (let q' = rw (dir_kept k hk) at q in omega (arith, entry_page))

  hung-lookup : (x : ℕ) → x < 2 ^ 32 → lookup_in hung.mem dir x ≡ lookup_in v.mem dir x
  hung-lookup x hx =
      let i = pd_index virt in
      let k = pd_index x in
      elim (ℕ_discrete k i) [
        | yes e ↦
            let now : hung.mem (slot dir k) ≡ entry = rw e (store_self u.mem (slot dir i) entry) in
            let ne : slot pt (pt_index x) ≢ slot dir i =
              λ q. not_dir_page (omega (arith, f.aligned, s.aligned)) in
            let zero_pte : hung.mem (slot pt (pt_index x)) ≡ 0 =
              store_ne u.mem (slot dir i) entry (slot pt (pt_index x)) ne
              ∙ f.zeros (pt_index x) (omega arith) in
            let none_there : is_present (v.mem (slot dir k)) ≡ false = rw e absent in
            rw (now, entry_page, zero_pte, none_there) (ground arith)
        | no other ↦
            lookup_in-agree hung.mem v.mem dir x
              (store_ne u.mem (slot dir i) entry (slot dir k) (λ q. other (omega arith))
                ∙ dir_kept k (omega arith))
              λ p.
                store_ne u.mem (slot dir i) entry _
                  (λ q. s.not_dir k (omega arith) p (omega (arith, s.aligned)))
                ∙ f.outside _ (λ q. not_table k (omega arith) p (omega arith))
      ]

  hung-Remapped : (phys : ℕ) → Remapped v dir virt phys (set_pte hung pt virt (page_of phys) flags)
  hung-Remapped phys =
      let now : hung.mem (slot dir (pd_index virt)) ≡ entry =
        store_self u.mem (slot dir (pd_index virt)) entry in
      let there = (entry_of_lem pt (if has_flag flags 2 then 7 else 3)).0 in
      let r = set_pte-Remapped virt phys flags hung-IsSpace hv (rw now there) in
      let r' : Remapped hung dir virt phys (set_pte hung pt virt (page_of phys) flags) =
        rw (now, entry_page) at r in
      record { space = r'.space; lookup = λ x hx. rw (← hung-lookup x hx) (r'.lookup x hx) }

map_new_table-Remapped :
    {v : Vmm} {dir : ℕ} (virt phys flags : ℕ)
    → IsSpace v dir
    → virt < 2 ^ 32
    → is_present (v.mem (slot dir (pd_index virt))) ≡ false
    → Remapped v dir virt phys (map_new_table v dir virt (page_of phys) flags)
unfolding map_new_table
map_new_table-Remapped {v} {dir} virt phys flags s hv absent =
    elim (allocate_pt_lem v s.pages s.list) [
      | inl (e, n) ↦ rw e (record {
        space = IsSpace-fewer s n.left n.list n.fewer (λ k _. n.same (slot dir k));
        lookup =
            λ x hx. lookup_in-agree (allocate_pt v).1.mem v.mem dir x (n.same _) (λ p. n.same _);
      })
      | inr (rest, f) ↦
          let given : ((allocate_pt v).0 == 0) ≡ false = ground (arith, f.pt_ne) in
          rw given (hung-Remapped s f virt flags hv absent phys)
    ]

-- In an address space, `vmm_map_page` changes where the addresses of one page lead, if it succeeds:
-- there each leads to the same offset in the page of `phys`. All other addresses, and after a
-- failure all addresses, lead where they led. The address space stays one.
pub map_page_lem :
    {v : Vmm} {dir : ℕ} (virt phys flags : ℕ)
    → IsSpace v dir
    → virt < 2 ^ 32
    → let (done, w) = map_page v dir virt phys flags in
      IsSpace w dir
      × ((x : ℕ)
          → x < 2 ^ 32
          → get_phys_addr w dir x ≡ (
              if done && (x / 4096 == virt / 4096)
              then page_of phys + x % 4096
              else get_phys_addr v dir x))
unfolding map_page
map_page_lem {v} {dir} virt phys flags s hv =
    let to_space : (out : Bool × Vmm)
        → Remapped v dir (page_of virt) phys out
        → IsSpace out.1 dir
          × ((x : ℕ)
              → x < 2 ^ 32
              → get_phys_addr out.1 dir x ≡ (
                  if out.0 && (x / 4096 == virt / 4096)
                  then page_of phys + x % 4096
                  else get_phys_addr v dir x)) =
      λ out r. (
        r.space,
        λ x hx.
            let index : page_of virt / 4096 ≡ virt / 4096 = omega arith in
            get_phys_addr-lookup_in out.1 dir x s.dir_ne
            ∙ (rw (get_phys_addr-lookup_in v dir x s.dir_ne, ← index) (r.lookup x hx)),
      ) in
    let dir_given : (dir == 0) ≡ false = ground (arith, s.dir_ne) in
    elim (Bool-cases (is_present (v.mem (slot dir (pd_index (page_of virt)))))) [
      | inl there ↦
          rw (dir_given, there)
            (to_space _ (map_old_table-Remapped (page_of virt) phys flags s (omega arith) there))
      | inr absent ↦
          rw (dir_given, absent)
            (to_space _ (map_new_table-Remapped (page_of virt) phys flags s (omega arith) absent))
    ]

-- An address whose entry is missing leads nowhere.
unmapped :
    (v : Vmm) (dir x i j : ℕ)
    → dir ≢ 0
    → pd_index x ≡ i
    → pt_index x ≡ j
    → (is_present (v.mem (slot dir i))
        && is_present (v.mem (slot (page_of (v.mem (slot dir i))) j)))
      ≡ false
    → get_phys_addr v dir x ≡ 0
unmapped v dir x i j ne ei ej miss = get_phys_addr-lookup_in v dir x ne ∙ rw (ei, ej, miss) refl

-- `vmm_unmap_page` in an address space makes the addresses of one page lead nowhere, and leaves all
-- others. It succeeds exactly where the page has an entry; a failure changes nothing.
pub unmap_page_lem :
    {v : Vmm} {dir : ℕ} (virt : ℕ)
    → IsSpace v dir
    → virt < 2 ^ 32
    → let (done, w) = unmap_page v dir virt in
      let pde = v.mem (slot dir (pd_index virt)) in
      IsSpace w dir
      × ((x : ℕ)
          → x < 2 ^ 32
          → get_phys_addr w dir x ≡ (if x / 4096 == virt / 4096 then 0 else get_phys_addr v dir x))
      × (done ≡ (is_present pde && is_present (v.mem (slot (page_of pde) (pt_index virt)))))
      × (done ≡ false → w ≡ v)
unfolding unmap_page
unmap_page_lem {v} {dir} virt s hv =
    let i = pd_index virt in
    let j = pt_index virt in
    let ei : pd_index (page_of virt) ≡ i = omega arith in
    let ej : pt_index (page_of virt) ≡ j = omega arith in
    let dir_given : (dir == 0) ≡ false = ground (arith, s.dir_ne) in
    let pde = v.mem (slot dir i) in
    let pte = slot (page_of pde) j in
    let gone : (is_present pde && is_present (v.mem pte)) ≡ false
        → (x : ℕ)
        → get_phys_addr v dir x ≡ (if x / 4096 == virt / 4096 then 0 else get_phys_addr v dir x) =
      λ miss x. elim (Bool-cases (x / 4096 == virt / 4096)) [
        | inl hit ↦ rw hit (unmapped v dir x i j s.dir_ne (ground arith) (ground arith) miss)
        | inr other ↦ rw other refl
      ] in
    elim (Bool-cases (is_present pde)) [
      | inr absent ↦
          rw (dir_given, ei, absent) (s, λ x hx. gone (rw absent refl) x, refl, λ e. refl)
      | inl there ↦ elim (Bool-cases (is_present (v.mem pte))) [
        | inr absent ↦
            rw (dir_given, ei, there, ej, absent)
              (s, λ x hx. gone (rw (there, absent) refl) x, refl, λ e. refl)
        | inl mapped ↦
            let index : i * 1024 + j ≡ virt / 4096 = omega arith in
            rw (dir_given, ei, there, ej, mapped)
              (
                IsSpace-write s i j 0 (omega arith) (omega arith) there,
                λ x hx.
                    get_phys_addr-lookup_in (write_word v pte 0) dir x s.dir_ne
                    ∙ (rw (get_phys_addr-lookup_in v dir x s.dir_ne) (
                        rw index at
                          (lookup_in-write s i j 0 (omega arith) (omega arith) there x hx))),
                refl,
                λ e. cc,
              )
      ]
    ]

pub map_page-kernel :
    (v : Vmm) (dir virt phys flags : ℕ)
    → has_flag flags 2 ≡ true
    → is_present (v.mem (slot dir (pd_index virt))) ≡ true
    → is_kernel_table v (page_of (v.mem (slot dir (pd_index virt)))) ≡ true
    → virt < 2 ^ 32
    → map_page v dir virt phys flags ≡ (false, v)
unfolding map_page map_old_table
map_page-kernel v dir virt phys flags user there kernel hv =
    let ei : pd_index (page_of virt) ≡ pd_index virt = omega arith in
    elim (Bool-cases (dir == 0)) [
      | inl null ↦ rw null refl
      | inr given ↦ rw (given, ei, there, user, kernel) refl
    ]
