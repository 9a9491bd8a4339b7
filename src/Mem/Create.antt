-- ===== src/Mem/Create.antt =====
-- nt_mem_create() of a segment of at least the size that nt_mem_required_size() computes.
use nt_shm.Common.{
  ℕ, ◌+◌, ◌-◌, ◌*◌, ◌%◌, ◌≤◌, ◌<◌, ◌≡◌, refl, ap, ◌∙◌, [], ◌∷◌, true, arith, ltb, leb, inl, inr,
  Bool-cases, ◌&&◌, Option, some,
}
use nt_shm.Common.Run.{ok, int_limit}
use nt_shm.Mem.{Memory, MemInfo, mem_flg_used, mem_max_size, two64, add64, sub64, nt_mem_clear}
use nt_shm.Mem.Segment.{align8, lay_out, mem_min_size, nt_mem_create, nt_mem_required_size}
use nt_shm.Mem.Tiles.{free, chunk}
use nt_shm.Mem.Valid.{Valid}
use nt_shm.Mem.Clear.{nt_mem_clear-Valid}

-- A valid segment that is one free chunk, of a size for about as many chunks as were asked for
pub record Created (result : Option MemInfo) (chunks_num : ℕ) : Type 0 where
  pub info : MemInfo
  pub succeeds : result ≡ some info
  pub valid : Valid info (chunk info.lo_bound info.total_size free ∷ [])
  pub enough : 39 * chunks_num - 17 ≤ info.total_size
  pub chunks_fit :
      (k : ℕ) → 1 ≤ k → 40 * k < 39 * chunks_num → 24 * k + 16 * (k - 1) ≤ info.total_size

-- A difference that does not wrap around
sub64-exact : (a b : ℕ) → b ≤ a → a < two64 → sub64 a b ≡ a - b
sub64-exact a b le lt = omega arith

-- What is left of the segment behind each of its parts
left_of :
    (size size' from to whole : ℕ)
    → size' ≡ sub64 size (to - from)
    → from ≤ to
    → to ≤ whole
    → size + from ≡ whole
    → whole < two64
    → size' + to ≡ whole
left_of size size' from to whole e le fits sum lt =
    omega (arith, sub64-exact size (to - from) (omega arith) (omega arith))

-- The bounds of the chunks, when `base4` is where they may begin
bounds :
    (whole base4 size4 lo hi total : ℕ)
    → size4 + base4 ≡ whole
    → base4 + 48 ≤ whole
    → whole < mem_flg_used
    → lo ≡ align8 base4
    → hi ≡ align8 (sub64 (add64 base4 size4) 8)
    → total ≡ sub64 (sub64 hi lo) 16
    → (lo + 16 + total ≡ hi)
      × (hi < mem_flg_used)
      × (24 ≤ total)
      × (total % 8 ≡ 0)
      × (whole ≤ total + base4 + 31)
bounds whole base4 size4 lo hi total sum fits top e_lo e_hi e_total =
    let end : sub64 (add64 base4 size4) 8 ≡ whole - 8 = omega arith in
    let hi_at : hi ≡ align8 (whole - 8) = e_hi ∙ ap align8 end in
    let first : sub64 hi lo ≡ hi - lo = sub64-exact hi lo (omega arith) (omega arith) in
    let all : total ≡ hi - lo - 16 = omega (arith, first, e_total) in
    (
      omega (arith, all, hi_at),
      omega (arith, hi_at),
      omega (arith, all, hi_at),
      omega (arith, all, hi_at),
      omega (arith, all, hi_at),
    )

module _ (info_size : ℕ) (mem : Memory) (base size descr_length param_length allow_oom : ℕ)
    (room : info_size + descr_length + param_length + 304 ≤ size)
    (top : base + size < mem_flg_used) where
  abbrev made : MemInfo
  made = lay_out info_size mem base size descr_length param_length allow_oom

  lay_out-Valid :
      Valid made (chunk made.lo_bound made.total_size free ∷ [])
      × (size ≤ made.total_size + info_size + descr_length + param_length + 287)
  unfolding lay_out nt_mem_clear
  lay_out-Valid =
      let whole = base + size in
      let info = align8 base in
      let base1 = info + info_size in
      let size1 = sub64 size (base1 - base) in
      let s1 : size1 + base1 ≡ whole =
        left_of size size1 base base1 whole refl (omega arith) (omega arith) (omega arith)
          (omega arith) in
      let buckets = align8 base1 in
      let base2 = buckets + 240 in
      let size2 = sub64 size1 (base2 - base1) in
      let s2 : size2 + base2 ≡ whole =
        left_of size1 size2 base1 base2 whole refl (omega arith) (omega arith) s1 (omega arith) in
      let base3 = base2 + descr_length + 1 in
      let size3 = sub64 size2 (descr_length + 1) in
      let three : descr_length + 1 ≡ base3 - base2 = omega arith in
      let s3 : size3 + base3 ≡ whole =
        left_of size2 size3 base2 base3 whole (ap (sub64 size2) three) (omega arith) (omega arith)
          s2 (omega arith) in
      let base4 = base3 + param_length + 1 in
      let size4 = sub64 size3 (param_length + 1) in
      let four : param_length + 1 ≡ base4 - base3 = omega arith in
      let s4 : size4 + base4 ≡ whole =
        left_of size3 size4 base3 base4 whole (ap (sub64 size3) four) (omega arith) (omega arith) s3
          (omega arith) in
      let up : base4 ≤ base + info_size + descr_length + param_length + 256 = omega arith in
      let (ends, below, big, multiple, much) =
        bounds whole base4 size4 (align8 base4) (align8 (sub64 (add64 base4 size4) 8))
          (sub64 (sub64 (align8 (sub64 (add64 base4 size4) 8)) (align8 base4)) 16) s4 (omega arith)
          top refl refl refl in
      (
        nt_mem_clear-Valid
            (record {
              mem = mem;
              buckets = buckets;
              lo_bound = align8 base4;
              hi_bound = align8 (sub64 (add64 base4 size4) 8);
              free_size = 0;
              used_size = 0;
              total_size = sub64 (sub64 (align8 (sub64 (add64 base4 size4) 8)) (align8 base4)) 16;
              allow_oom = allow_oom;
            })
            (omega arith) ends below big multiple,
        omega (arith, much, up),
      )

-- What nt_mem_required_size() returns
required_size_lem :
    (info_size chunks_num descr_length param_length needed : ℕ)
    → 1 ≤ chunks_num
    → info_size + descr_length + param_length + 39 * chunks_num + 270 < mem_max_size
    → nt_mem_required_size info_size chunks_num descr_length param_length ≡ ok needed
    → needed ≡ info_size + descr_length + param_length + 39 * chunks_num + 270
unfolding nt_mem_required_size
required_size_lem info_size chunks_num descr_length param_length needed some_chunks no_wrap asked =
    elim (Bool-cases (ltb (chunks_num * 23) int_limit)) [
      | inl fits ↦ let value = rw fits at asked in let same = ok_eq value in omega arith
      | inr over ↦ let none_left = rw over at asked in cc
    ]
  where
    ok_eq : {a b : ℕ} → ok a ≡ ok b → a ≡ b
    ok_eq e = cc

-- When the calls give a segment below 2 ^ 63, and nt_mem_required_size() returns a size for a
-- positive number of chunks, nt_mem_create() of at least that size, up to 64 GB, succeeds with a
-- valid segment that is one free chunk. It has at least 39 bytes for each of the chunks less 17, so
-- k chunks of the least size, 24 bytes, with the 16 bytes between any two of them, fit into it
-- whenever 40 * k < 39 * chunks_num.
pub nt_mem_create-Created :
    (attach : ℕ → Option ℕ) (info_size : ℕ) (mem : Memory)
    (base size descr_length param_length allow_oom chunks_num needed : ℕ)
    → attach size ≡ some base
    → base + size < mem_flg_used
    → size ≤ mem_max_size
    → 1 ≤ chunks_num
    → info_size + descr_length + param_length + 39 * chunks_num + 270 < mem_max_size
    → nt_mem_required_size info_size chunks_num descr_length param_length ≡ ok needed
    → needed ≤ size
    → Created
        (nt_mem_create attach info_size mem size descr_length param_length allow_oom)
        chunks_num
unfolding nt_mem_create
nt_mem_create-Created attach info_size mem base size descr_length param_length allow_oom chunks_num
      needed e top le some_chunks no_wrap asked fits =
    let is_needed =
      required_size_lem info_size chunks_num descr_length param_length needed some_chunks no_wrap
        asked in
    let (valid, enough) =
      lay_out-Valid info_size mem base size descr_length param_length allow_oom
        (omega (arith, is_needed)) top in
    let in_bounds : (leb mem_min_size size && leb size mem_max_size) ≡ true = ground arith in
    record {
      info = lay_out info_size mem base size descr_length param_length allow_oom;
      succeeds = rw (in_bounds, e) refl;
      valid = valid;
      enough = omega (arith, is_needed, enough);
      chunks_fit = λ k some_k few. omega (arith, is_needed, enough);
    }
