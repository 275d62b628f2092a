-- ===== src/Virtual/Range.antt =====
-- kernel/core/virtual.c: the calls that vmm_map_range makes.
use rock.Base.{
  ℕ, zero, suc, ◌+◌, ◌*◌, ◌%◌, ◌^◌, ◌<◌, ◌≡◌, refl, sym, ap, ◌∙◌, subst, bit_and, List, [], ◌∷◌,
  ◌++◌, length, ◌==◌, if◌then◌else◌, ok, ◌>>=◌, add64, arith, Bool-cases, inl, inr, Leaves,
  Leaves-ok, Leaves-bind, Leaves-weaken, Run,
}
use native.Mathlib.Nat.{add-mul}
use mathlib.Core.List.{append-nil}
use rock.Paging.{flag_ps}
use rock.Virtual.{RangeMemory, map_pages, vmm_map_range}

-- a call of pmm_alloc, with the frame that it gave, and one of map_page
pub data Call : Type 0 where
  took : (cnt align frame : ℕ) → Call
  mapped : (vaddr paddr flags : ℕ) → Call

-- the same memory, with the calls kept in order
abbrev pub logged : RangeMemory → RangeMemory
logged memory = record {
  State = memory.State × List Call;
  map_page =
      λ s v p flags. memory.map_page s.0 v p flags >>= λ s'. ok (s', s.1 ++ mapped v p flags ∷ []);
  unmap_page = λ s v. memory.unmap_page s.0 v >>= λ r. ok (r.0, (r.1, s.1));
  pmm_alloc = λ s cnt align.
      memory.pmm_alloc s.0 cnt align >>= λ r. ok (r.0, (r.1, s.1 ++ took cnt align r.0 ∷ []));
}

-- the calls for pages of `size` bytes from the `k`-th on, for the frames
pub calls : ℕ → ℕ → ℕ → ℕ → ℕ → List ℕ → List Call
calls size align flags vaddr k [] = []
calls size align flags vaddr k (p ∷ ps) =
    took 1 align p
    ∷ mapped ((vaddr + k * size) % 2 ^ 64) p flags
    ∷ calls size align flags vaddr (k + 1) ps

module _ (memory : RangeMemory) where
  -- the calls that are logged behind `before` are those for `cnt` pages
  pub record Logged (size align flags vaddr k cnt : ℕ) (before after : List Call) : Type 0 where
    pub frames : List ℕ
    pub count : length frames ≡ cnt
    pub made : after ≡ before ++ calls size align flags vaddr k frames

  map_pages-Logged :
      (size align flags vaddr k cnt : ℕ) (s : memory.State) (before : List Call)
      → Leaves
          (map_pages (logged memory) size align (s, before) ((vaddr + k * size) % 2 ^ 64) cnt flags)
          (λ r. Logged size align flags vaddr k cnt before r.1)
  unfolding map_pages calls
  map_pages-Logged size align flags vaddr k zero s before =
      Leaves-ok (record { frames = []; count = refl; made = sym (append-nil before) })
  map_pages-Logged size align flags vaddr k (suc cnt) s before =
      let here = (vaddr + k * size) % 2 ^ 64 in
      let next : add64 here size ≡ (vaddr + (k + 1) * size) % 2 ^ 64 =
        omega (arith, add-mul k 1 size) in
      Leaves-bind
        (memory.pmm_alloc s 1 align >>= λ r. ok (r.0, (r.1, before ++ took 1 align r.0 ∷ []))) _
        λ frame e.
          Leaves-bind
            (memory.map_page frame.1.0 here frame.0 flags >>= λ s'.
              ok (s', frame.1.1 ++ mapped here frame.0 flags ∷ []))
            _
            λ s1 e1. rw next (
              Leaves-weaken (map_pages-Logged size align flags vaddr (k + 1) cnt s1.0 s1.1)
                λ r rest.
                  let log0 : frame.1.1 ≡ before ++ took 1 align frame.0 ∷ [] =
                    (logs_alloc (memory.pmm_alloc s 1 align) align before).at frame e in
                  let log1 : s1.1 ≡ frame.1.1 ++ mapped here frame.0 flags ∷ [] =
                    (logs_map (memory.map_page frame.1.0 here frame.0 flags) frame.1.1 here frame.0
                        flags).at
                      s1 e1 in
                  record {
                    frames = frame.0 ∷ rest.frames;
                    count = ap suc rest.count;
                    made = rest.made ∙ rw (log1, log0) (two_more before _ _ _);
                  })
    where
      two_more :
          (xs : List Call) (x y : Call) (ys : List Call)
          → ((xs ++ x ∷ []) ++ y ∷ []) ++ ys ≡ xs ++ x ∷ y ∷ ys
      two_more [] x y ys = refl
      two_more (z ∷ xs) x y ys = ap (λ t. z ∷ t) (two_more xs x y ys)

      logs_alloc :
          (run : Run (ℕ × memory.State)) (align : ℕ) (log : List Call)
          → Leaves {A = ℕ × (logged memory).State}
              (run >>= λ r. ok (r.0, (r.1, log ++ took 1 align r.0 ∷ [])))
              (λ r. r.1.1 ≡ log ++ took 1 align r.0 ∷ [])
      logs_alloc run align log = Leaves-bind run _ λ r e. Leaves-ok refl

      logs_map :
          (run : Run memory.State) (log : List Call) (v p flags : ℕ)
          → Leaves {A = memory.State × List Call}
              (run >>= λ s'. ok (s', log ++ mapped v p flags ∷ []))
              (λ r. r.1 ≡ log ++ mapped v p flags ∷ [])
      logs_map run log v p flags = Leaves-bind run _ λ r e. Leaves-ok refl

  -- Where vmm_map_range of a 64-bit address returns, the calls it made were, for each of the `cnt`
  -- pages in turn, one of pmm_alloc for a frame and one of map_page, which maps the page to that
  -- frame with the flags: the `k`-th page is at vaddr + k * 0x200000 modulo 2^64 and its frame is
  -- allocated with alignment 0x200 if the flags have the page-size bit, and otherwise it is at
  -- vaddr + k * 0x1000 with alignment 1.
  pub vmm_map_range-Logged :
      (s : memory.State) (vaddr cnt flags : ℕ)
      → vaddr < 2 ^ 64
      → Leaves (vmm_map_range (logged memory) (s, []) vaddr cnt flags) (λ r.
        Logged
          (if bit_and flags flag_ps == 0 then 0x1000 else 0x200000)
          (if bit_and flags flag_ps == 0 then 1 else 0x200)
          flags
          vaddr
          0
          cnt
          []
          r.1)
  unfolding vmm_map_range
  vmm_map_range-Logged s vaddr cnt flags h =
      let first : (size : ℕ) → (vaddr + 0 * size) % 2 ^ 64 ≡ vaddr = λ size. omega (arith, h) in
      elim (Bool-cases (bit_and flags flag_ps == 0)) [
        | inl small ↦ rw small (
            subst
              (λ v.
                Leaves (map_pages (logged memory) 0x1000 1 (s, []) v cnt flags)
                  (λ r. Logged 0x1000 1 flags vaddr 0 cnt [] r.1))
              (first 0x1000) (map_pages-Logged 0x1000 1 flags vaddr 0 cnt s []))
        | inr large ↦ rw large (
            subst
              (λ v.
                Leaves (map_pages (logged memory) 0x200000 0x200 (s, []) v cnt flags)
                  (λ r. Logged 0x200000 0x200 flags vaddr 0 cnt [] r.1))
              (first 0x200000) (map_pages-Logged 0x200000 0x200 flags vaddr 0 cnt s []))
      ]
