-- ===== src/Str/Fill.antt =====
-- What memset of lib/string.c leaves in memory.
use hao_sys.Base.{
  ℕ, zero, suc, ◌%◌, ◌^◌, ◌<◌, ◌≤◌, ◌≡◌, refl, ◌∙◌, true, false, Memory, store, add32, sub32, ltb,
  if◌then◌else◌, arith, ℕ_discrete, store_self, store_ne,
}
use hao_sys.Str.{memset}

pub memset_lem :
    (m : Memory) (p c n a : ℕ)
    → p < 2 ^ 32
    → a < 2 ^ 32
    → n ≤ 2 ^ 32
    → memset m p c n a ≡ (if ltb (sub32 a p) n then c % 2 ^ 8 else m a)
unfolding memset
memset_lem m p c zero a hp ha hn = let q : ltb (sub32 a p) 0 ≡ false = ground arith in rw q refl
memset_lem m p c (suc n) a hp ha hn =
    memset_lem (store m p (c % 2 ^ 8)) (add32 p 1) c n a (omega arith) ha (omega arith)
    ∙ elim (ℕ_discrete a p) [
      | yes e ↦
          let q : ltb (sub32 p (add32 p 1)) n ≡ false = ground arith in
          let r : ltb (sub32 p p) (suc n) ≡ true = ground arith in
          rw (e, q, r, store_self m p (c % 2 ^ 8)) refl
      | no ne ↦
          let q : ltb (sub32 a (add32 p 1)) n ≡ ltb (sub32 a p) (suc n) = ground arith in
          rw (q, store_ne m p (c % 2 ^ 8) a ne) refl
    ]
