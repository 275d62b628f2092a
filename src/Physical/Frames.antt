-- ===== src/Physical/Frames.antt =====
-- The frames that the allocator may still hand out, as `kernel/arch/x86/paging.c` relies on them.
use rock.Base.{
  ℕ, ◌+◌, ◌*◌, ◌%◌, ◌^◌, ◌<◌, ◌≡◌, ◌≢◌, ap, ◌∙◌, ◌⊎◌, inl, inr, false, List, [], ◌∷◌, page_size,
  arith,
}
use rock.Fayt.{BitOps}
use rock.Physical.{Module}
use rock.Physical.Alloc.{IsValid, Granted}
use rock.Physical.Modules.{All, Grants, here, later}

module _ (ops : BitOps) where
  -- frame `f` lies in the region of the module
  pub record Covers (m : Module ops) (f : ℕ) : Type 0 where
    pub index : ℕ
    pub address : f ≡ m.mmap_entry.base + index * page_size
    pub inside : index < m.bitmap_entry_cnt

  -- and its bit is clear
  pub record FreeIn (m : Module ops) (f : ℕ) : Type 0 where
    pub covers : Covers m f
    pub clear : ops.bit_test m.bitmap covers.index ≡ false

  abbrev pub SomeFree : List (Module ops) → ℕ → Type 0
  SomeFree [] f = ⊥
  SomeFree (m ∷ ms) f = FreeIn m f ⊎ SomeFree ms f

  -- no two modules share a frame
  abbrev pub Apart : Module ops → Module ops → Type 0
  Apart m m' = (f : ℕ) → Covers m f → ¬ Covers m' f

  abbrev pub Disjoint : List (Module ops) → Type 0
  Disjoint [] = Unit
  Disjoint (m ∷ ms) = All ops (Apart m) ms × Disjoint ms

  module _ (a : ℕ) where
    Covers-same : {m m' : Module ops} → Granted ops m 1 1 a m' → (f : ℕ) → Covers m' f → Covers m f
    Covers-same g f c = record {
      index = c.index;
      address = rw (← g.same_entry) c.address;
      inside = rw (← g.same_count) c.inside;
    }

    FreeIn-Granted : {m m' : Module ops} → Granted ops m 1 1 a m' → FreeIn m a
    FreeIn-Granted {m} g = record {
      covers = record { index = g.frame; address = g.address; inside = omega (arith, g.inside) };
      clear = ap (ops.bit_test m.bitmap) (omega arith) ∙ g.was_free 0 (omega arith);
    }

    FreeIn-taken : {m m' : Module ops} → Granted ops m 1 1 a m' → ¬ FreeIn m' a
    FreeIn-taken {m} {m'} g free =
        let same_base : m'.mmap_entry.base ≡ m.mmap_entry.base = ap (λ t. t.base) g.same_entry in
        let same : free.covers.index ≡ g.frame = omega (arith, free.covers.address, g.address) in
        ground (arith, g.now_taken free.covers.index, free.clear)

    FreeIn-shrinks :
        {m m' : Module ops} → Granted ops m 1 1 a m' → (f : ℕ) → FreeIn m' f → FreeIn m f
    FreeIn-shrinks g f free = record {
      covers = Covers-same g f free.covers;
      clear = ground (arith, g.now_taken free.covers.index, free.clear);
    }

    Free-Covers :
        (ms : List (Module ops)) {m : Module ops} (f : ℕ)
        → All ops (Apart m) ms
        → Covers m f
        → ¬ SomeFree ms f
    Free-Covers [] f apart c free = absurd free
    Free-Covers (m' ∷ ms) f apart c (inl free) = apart.0 f c free.covers
    Free-Covers (m' ∷ ms) f apart c (inr free) = Free-Covers ms f apart.1 c free

    -- What is granted was free, is free no more, and nothing else becomes free.
    pub Grants-SomeFree : {ms ms' : List (Module ops)} → Grants ops 1 1 a ms ms' → SomeFree ms a
    Grants-SomeFree (here g) = inl (FreeIn-Granted g)
    Grants-SomeFree (later x g) = inr (Grants-SomeFree g)

    pub Grants-taken :
        {ms ms' : List (Module ops)} → Grants ops 1 1 a ms ms' → Disjoint ms → ¬ SomeFree ms' a
    Grants-taken (here g) d (inl free) = FreeIn-taken g free
    Grants-taken (here g) d (inr free) = Free-Covers _ a d.0 (FreeIn-Granted g).covers free
    Grants-taken (later x g) d (inl free) = Free-Covers _ a d.0 free.covers (Grants-SomeFree g)
    Grants-taken (later x g) d (inr free) = Grants-taken g d.1 free

    pub Grants-shrinks :
        {ms ms' : List (Module ops)}
        → Grants ops 1 1 a ms ms'
        → (f : ℕ) → SomeFree ms' f
        → SomeFree ms f
    Grants-shrinks (here g) f (inl free) = inl (FreeIn-shrinks g f free)
    Grants-shrinks (here g) f (inr free) = inr free
    Grants-shrinks (later x g) f (inl free) = inl free
    Grants-shrinks (later x g) f (inr free) = inr (Grants-shrinks g f free)

    Grants-Apart :
        {ms ms' : List (Module ops)} (k : Module ops)
        → Grants ops 1 1 a ms ms'
        → All ops (Apart k) ms
        → All ops (Apart k) ms'
    Grants-Apart k (here g) d = (λ f c c'. d.0 f c (Covers-same g f c'), d.1)
    Grants-Apart k (later x g) d = (d.0, Grants-Apart k g d.1)

    All-Apart :
        (ms : List (Module ops)) {m m' : Module ops}
        → Granted ops m 1 1 a m'
        → All ops (Apart m) ms
        → All ops (Apart m') ms
    All-Apart [] g d = tt
    All-Apart (k ∷ ms) g d = (λ f c. d.0 f (Covers-same g f c), All-Apart ms g d.1)

    pub Grants-Disjoint :
        {ms ms' : List (Module ops)} → Grants ops 1 1 a ms ms' → Disjoint ms → Disjoint ms'
    Grants-Disjoint (here g) d = (All-Apart _ g d.0, d.1)
    Grants-Disjoint (later x g) d = (Grants-Apart _ g d.0, Grants-Disjoint g d.1)

    pub Grants-frame :
        {ms ms' : List (Module ops)}
        → Grants ops 1 1 a ms ms'
        → All ops (IsValid ops) ms
        → (a % 0x1000 ≡ 0) × (a < 2 ^ 47)
    Grants-frame (here g) v =
        (omega (arith, g.address, v.0.page_base), omega (arith, g.address, g.inside, v.0.small))
    Grants-frame (later x g) v = Grants-frame g v.1

    pub Grants-fuel :
        {ms ms' : List (Module ops)} (fuel : ℕ)
        → Grants ops 1 1 a ms ms'
        → All ops (λ m. m.bitmap_entry_cnt < fuel) ms
        → All ops (λ m. m.bitmap_entry_cnt < fuel) ms'
    Grants-fuel fuel (here g) h = (omega (arith, g.same_count), h.1)
    Grants-fuel fuel (later x g) h = (h.0, Grants-fuel fuel g h.1)

    pub Grants-some_module : {ms ms' : List (Module ops)} → Grants ops 1 1 a ms ms' → ms' ≢ []
    Grants-some_module (here g) = λ e. absurd cc
    Grants-some_module (later x g) = λ e. absurd cc
