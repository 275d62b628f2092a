-- ===== src/Gdt.antt =====
-- kernel/arch/x86/gdt.c: the segment descriptors, the task state segment and gdt_init.
-- The slab allocator gives zeroed objects. The instructions that load the tables are the selectors
-- in the result.
pub mod Selectors
mod Tests
use rock.Base.{
  ℕ, zero, suc, ◌+◌, ◌-◌, ◌/◌, ◌%◌, ◌^◌, List, [], ◌∷◌, ◌++◌, Run, ok, ◌>>=◌, add64, bytes_of,
}

pub record SegmentDescriptor : Type 0 where
  pub limit : ℕ
  pub base_low : ℕ
  pub base_mid : ℕ
  pub access : ℕ
  pub granularity : ℕ
  pub base_high : ℕ

pub record TssDescriptor : Type 0 where
  pub length : ℕ
  pub base_low : ℕ
  pub base_mid : ℕ
  pub flags : ℕ
  pub base_high : ℕ
  pub base_high32 : ℕ
  pub reserved : ℕ

pub record Tss : Type 0 where
  pub reserved : ℕ
  pub rsp0 : ℕ
  pub rsp1 : ℕ
  pub rsp2 : ℕ
  pub reserved1 : ℕ
  pub reserved2 : ℕ
  pub ist1 : ℕ
  pub ist2 : ℕ
  pub ist3 : ℕ
  pub ist4 : ℕ
  pub ist5 : ℕ
  pub ist6 : ℕ
  pub ist7 : ℕ
  pub reserved3 : ℕ
  pub reserved4 : ℕ
  pub iopb : ℕ

pub record Gdtr : Type 0 where
  pub limit : ℕ
  pub offset : ℕ

pub record Gdt : Type 0 where
  pub null : SegmentDescriptor
  pub code16 : SegmentDescriptor
  pub data16 : SegmentDescriptor
  pub code32 : SegmentDescriptor
  pub data32 : SegmentDescriptor
  pub kernel_code64 : SegmentDescriptor
  pub kernel_data64 : SegmentDescriptor
  pub user_data64 : SegmentDescriptor
  pub user_code64 : SegmentDescriptor
  pub tss_descriptor : TssDescriptor

-- a descriptor of base 0
abbrev pub segment : ℕ → ℕ → ℕ → SegmentDescriptor
segment limit access granularity = record {
  limit = limit;
  base_low = 0;
  base_mid = 0;
  access = access;
  granularity = granularity;
  base_high = 0;
}

-- the descriptor of the task state segment at `tss`, each field cut to its bits
abbrev pub tss_descriptor_of : ℕ → TssDescriptor
tss_descriptor_of tss = record {
  length = 104;
  base_low = tss % 2 ^ 16;
  base_mid = tss / 2 ^ 16 % 2 ^ 16 % 2 ^ 8;
  flags = 0x89;
  base_high = tss / 2 ^ 24 % 2 ^ 8;
  base_high32 = tss / 2 ^ 32 % 2 ^ 32;
  reserved = 0;
}

abbrev pub gdt_of : ℕ → Gdt
gdt_of tss = record {
  null = segment 0 0 0;
  code16 = segment 0xffff 0x9a 0;
  data16 = segment 0xffff 0x92 0;
  code32 = segment 0xffff 0x9a 0xcf;
  data32 = segment 0xffff 0x92 0xcf;
  kernel_code64 = segment 0 0x98 0x20;
  kernel_data64 = segment 0 0x96 0;
  user_data64 = segment 0 0xf2 0;
  user_code64 = segment 0 0xfa 0x20;
  tss_descriptor = tss_descriptor_of tss;
}

abbrev pub tss_of : ℕ → ℕ → ℕ → Tss
tss_of rsp0 rsp1 rsp2 = record {
  reserved = 0;
  rsp0 = rsp0;
  rsp1 = rsp1;
  rsp2 = rsp2;
  reserved1 = 0;
  reserved2 = 0;
  ist1 = 0;
  ist2 = 0;
  ist3 = 0;
  ist4 = 0;
  ist5 = 0;
  ist6 = 0;
  ist7 = 0;
  reserved3 = 0;
  reserved4 = 0;
  iopb = 0;
}

-- the structures in memory, which are packed
abbrev pub segment_bytes : SegmentDescriptor → List ℕ
segment_bytes d =
    bytes_of 2 d.limit
    ++ bytes_of 2 d.base_low
    ++ bytes_of 1 d.base_mid
    ++ bytes_of 1 d.access
    ++ bytes_of 1 d.granularity
    ++ bytes_of 1 d.base_high

abbrev pub tss_descriptor_bytes : TssDescriptor → List ℕ
tss_descriptor_bytes d =
    bytes_of 2 d.length
    ++ bytes_of 2 d.base_low
    ++ bytes_of 1 d.base_mid
    ++ bytes_of 2 d.flags
    ++ bytes_of 1 d.base_high
    ++ bytes_of 4 d.base_high32
    ++ bytes_of 4 d.reserved

abbrev pub gdt_bytes : Gdt → List ℕ
gdt_bytes g =
    segment_bytes g.null
    ++ segment_bytes g.code16
    ++ segment_bytes g.data16
    ++ segment_bytes g.code32
    ++ segment_bytes g.data32
    ++ segment_bytes g.kernel_code64
    ++ segment_bytes g.kernel_data64
    ++ segment_bytes g.user_data64
    ++ segment_bytes g.user_code64
    ++ tss_descriptor_bytes g.tss_descriptor

abbrev pub tss_bytes : Tss → List ℕ
tss_bytes t =
    bytes_of 4 t.reserved
    ++ bytes_of 8 t.rsp0
    ++ bytes_of 8 t.rsp1
    ++ bytes_of 8 t.rsp2
    ++ bytes_of 4 t.reserved1
    ++ bytes_of 4 t.reserved2
    ++ bytes_of 8 t.ist1
    ++ bytes_of 8 t.ist2
    ++ bytes_of 8 t.ist3
    ++ bytes_of 8 t.ist4
    ++ bytes_of 8 t.ist5
    ++ bytes_of 8 t.ist6
    ++ bytes_of 8 t.ist7
    ++ bytes_of 8 t.reserved3
    ++ bytes_of 2 t.reserved4
    ++ bytes_of 2 t.iopb

-- the alloc of the two structures, and pmm_alloc
pub record GdtMemory : Type 1 where
  pub State : Type 0
  pub alloc : State → ℕ → ℕ × State
  pub pmm_alloc : State → ℕ → ℕ → Run (ℕ × State)

-- what is in memory, and in the registers of the processor
pub record Loaded : Type 0 where
  pub gdt : Gdt
  pub tss : Tss
  pub tss_address : ℕ
  pub gdtr : Gdtr
  pub cs : ℕ
  pub ss : ℕ
  pub tr : ℕ

module _ (memory : GdtMemory) (high_vma : ℕ) where
  open memory use {State, alloc, pmm_alloc}

  pub gdt_init : State → Run (Loaded × State)
  gdt_init s = do
    let gdt = alloc s 88
    let tss = alloc gdt.1 104
    stack0 ← pmm_alloc tss.1 4 1
    stack1 ← pmm_alloc stack0.1 4 1
    stack2 ← pmm_alloc stack1.1 4 1
    ok (
      record {
        gdt = gdt_of tss.0;
        tss =
            tss_of (add64 (add64 stack0.0 high_vma) 0x4000) (add64 (add64 stack1.0 high_vma) 0x4000)
              (add64 (add64 stack2.0 high_vma) 0x4000);
        tss_address = tss.0;
        gdtr = record { limit = 88 - 1; offset = gdt.0 };
        cs = 0x28;
        ss = 0x30;
        tr = 0x48;
      },
      stack2.1,
    )
