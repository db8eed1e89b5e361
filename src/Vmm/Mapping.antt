-- ===== src/Vmm/Mapping.antt =====
-- `vmm_map_page` and `vmm_unmap_page`: what they change in an address space, and what they keep.
use hao_sys.Base.{
  ℕ, ◌+◌, ◌*◌, ◌/◌, ◌%◌, ◌^◌, ◌<◌, ◌≡◌, ◌≢◌, refl, ◌∙◌, ℕ_discrete, inl, inr, Bool, true, ◌&&◌,
  arith, ◌==◌, if◌then◌else◌, Bool-cases, Memory, store, store_self, store_ne,
}
use hao_sys.Vmm.Entry.{page_of, with_flag, entry_of, entry_of_lem}
use hao_sys.Vmm.Frame.{IsSpace, IsSpace-write, lookup_in, lookup_in-write}
use hao_sys.Vmm.{Vmm, is_present, slot, pd_index, pt_index, set_pte}

-- After the call the page of `virt` leads to `phys`, if it succeeded; all else leads where it did.
pub record Remapped (v : Vmm) (dir virt phys : ℕ) (out : Bool × Vmm) : Type 0 where
  pub space : IsSpace out.1 dir
  pub lookup :
      (x : ℕ)
      → x < 2 ^ 32
      → lookup_in out.1.mem dir x ≡ (
          if out.0 && (x / 4096 == virt / 4096)
          then page_of phys + x % 4096
          else lookup_in v.mem dir x)

-- A lookup reads two words.
pub lookup_in-agree :
    (m n : Memory) (dir x : ℕ)
    → m (slot dir (pd_index x)) ≡ n (slot dir (pd_index x))
    → (is_present (n (slot dir (pd_index x))) ≡ true
        → m (slot (page_of (n (slot dir (pd_index x)))) (pt_index x))
          ≡ n (slot (page_of (n (slot dir (pd_index x)))) (pt_index x)))
    → lookup_in m dir x ≡ lookup_in n dir x
lookup_in-agree m n dir x e1 e2 = elim (Bool-cases (is_present (n (slot dir (pd_index x))))) [
  | inl p ↦ rw (e1, e2 p) refl
  | inr p ↦ rw (e1, p) refl
]

pub set_pte-Remapped :
    {v : Vmm} {dir : ℕ} (virt phys flags : ℕ)
    → IsSpace v dir
    → virt < 2 ^ 32
    → is_present (v.mem (slot dir (pd_index virt))) ≡ true
    → Remapped v dir virt phys
        (set_pte v (page_of (v.mem (slot dir (pd_index virt)))) virt (page_of phys) flags)
unfolding set_pte
set_pte-Remapped {v} {dir} virt phys flags s hv here =
    let i = pd_index virt in
    let j = pt_index virt in
    let pte = v.mem (slot (page_of (v.mem (slot dir i))) j) in
    let w = entry_of (page_of phys) (with_flag flags 0) in
    let l = entry_of_lem (page_of phys) (with_flag flags 0) in
    let index : i * 1024 + j ≡ virt / 4096 = omega arith in
    let target : page_of (page_of phys) ≡ page_of phys = omega arith in
    elim (Bool-cases (is_present pte)) [
      | inl there ↦ rw there (record { space = s; lookup = λ x hx. refl })
      | inr free ↦ rw free (record {
        space = IsSpace-write s i j w (omega arith) (omega arith) here;
        lookup = λ x hx.
            lookup_in-write s i j w (omega arith) (omega arith) here x hx
            ∙ rw (index, l.0, l.1, target) refl;
      })
    ]

-- Giving a slot another entry of the same page changes no lookup.
pub lookup_in-pde :
    {v : Vmm} {dir : ℕ} (s : IsSpace v dir) (i w x : ℕ)
    → i < 1024
    → is_present (v.mem (slot dir i)) ≡ true
    → is_present w ≡ true
    → page_of w ≡ page_of (v.mem (slot dir i))
    → x < 2 ^ 32
    → lookup_in (store v.mem (slot dir i) w) dir x ≡ lookup_in v.mem dir x
lookup_in-pde {v} {dir} s i w x hi here pw same hx =
    let m = store v.mem (slot dir i) w in
    let k = pd_index x in
    let table : is_present (v.mem (slot dir k)) ≡ true
        → slot (page_of (v.mem (slot dir k))) (pt_index x) ≢ slot dir i =
      λ p e. s.not_dir k (omega arith) p (omega (arith, s.aligned)) in
    elim (ℕ_discrete k i) [
      | yes e ↦
          let here' : is_present (v.mem (slot dir k)) ≡ true = rw e here in
          let new : m (slot dir k) ≡ w = rw e (store_self v.mem (slot dir i) w) in
          let same' : page_of w ≡ page_of (v.mem (slot dir k)) = rw e same in
          rw (new, pw, same', here', store_ne v.mem (slot dir i) w _ (table here')) refl
      | no ne ↦
          lookup_in-agree m v.mem dir x
            (store_ne v.mem (slot dir i) w (slot dir k) (λ e. ne (omega arith)))
            (λ p. store_ne v.mem (slot dir i) w _ (table p))
    ]
