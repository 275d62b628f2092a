-- ===== src/Gdt/Selectors.antt =====
-- What the processor reads through the selectors that the kernel loads.
use rock.Base.{
  ℕ, zero, suc, ◌+◌, ◌*◌, ◌-◌, ◌/◌, ◌%◌, ◌^◌, ◌<◌, ◌≡◌, refl, List, ◌==◌, leb, ◌&&◌, Bool, true,
  false, length, get_elem?, none, some, Leaves, Leaves-ok, Leaves-bind, arith,
}
use native.Mathlib.Nat.{zero-div}
use rock.Gdt.{gdt_bytes, tss_bytes, Loaded, GdtMemory, gdt_init, tss_of}

-- What a descriptor of code or data says: `ordinary` is its S bit, `expands_down` of data is
-- conforming of code, and `writable` of data is readable of code.
pub record Segment : Type 0 where
  pub present : Bool
  pub ring : ℕ
  pub ordinary : Bool
  pub code : Bool
  pub expands_down : Bool
  pub writable : Bool
  pub long : Bool

-- what the descriptor of a task state segment says; type 9 is that of one that is available
pub record TaskSegment : Type 0 where
  pub present : Bool
  pub ring : ℕ
  pub ordinary : Bool
  pub kind : ℕ
  pub limit : ℕ
  pub base : ℕ

abbrev pub byte_at : List ℕ → ℕ → ℕ
byte_at bytes i = elim (get_elem? bytes i) as (λ x. ℕ) [ none ↦ 0 | some b ↦ b ]

-- the selector without the ring it asks for, as an offset
abbrev pub offset_of : ℕ → ℕ
offset_of selector = selector - selector % 8

abbrev pub segment_at : List ℕ → ℕ → Segment
segment_at table selector =
    let access = byte_at table (offset_of selector + 5) in
    record {
      present = access / 2 ^ 7 % 2 == 1;
      ring = access / 2 ^ 5 % 4;
      ordinary = access / 2 ^ 4 % 2 == 1;
      code = access / 2 ^ 3 % 2 == 1;
      expands_down = access / 2 ^ 2 % 2 == 1;
      writable = access / 2 % 2 == 1;
      long = byte_at table (offset_of selector + 6) / 2 ^ 5 % 2 == 1;
    }

-- the address in the descriptor of 16 bytes
abbrev pub base_at : List ℕ → ℕ → ℕ
base_at table selector =
    let b : ℕ → ℕ = λ i. byte_at table (offset_of selector + i) in
    b 2
    + 2 ^ 8 * b 3
    + 2 ^ 16 * b 4
    + 2 ^ 24 * b 7
    + 2 ^ 32 * b 8
    + 2 ^ 40 * b 9
    + 2 ^ 48 * b 10
    + 2 ^ 56 * b 11

abbrev pub task_segment_at : List ℕ → ℕ → TaskSegment
task_segment_at table selector =
    let b : ℕ → ℕ = λ i. byte_at table (offset_of selector + i) in
    record {
      present = b 5 / 2 ^ 7 % 2 == 1;
      ring = b 5 / 2 ^ 5 % 4;
      ordinary = b 5 / 2 ^ 4 % 2 == 1;
      kind = b 5 % 2 ^ 4;
      limit = b 0 + 2 ^ 8 * b 1 + 2 ^ 16 * (b 6 % 2 ^ 4);
      base = base_at table selector;
    }

-- a descriptor of eight bytes that are 0
abbrev pub is_null : List ℕ → ℕ → Bool
is_null table selector =
    let b : ℕ → ℕ = λ i. byte_at table (offset_of selector + i) in
    b 0 + b 1 + b 2 + b 3 + b 4 + b 5 + b 6 + b 7 == 0

-- what the selectors of the kernel name, and those of a user context, 0x43 and 0x3b
pub record Segments (l : Loaded) : Type 0 where
  pub whole_table : length (gdt_bytes l.gdt) ≡ l.gdtr.limit + 1
  pub null_first : is_null (gdt_bytes l.gdt) 0 ≡ true
  pub kernel_code : segment_at (gdt_bytes l.gdt) l.cs ≡ record {
    present = true;
    ring = 0;
    ordinary = true;
    code = true;
    expands_down = false;
    writable = false;
    long = true;
  }
  pub kernel_data : segment_at (gdt_bytes l.gdt) l.ss ≡ record {
    present = true;
    ring = 0;
    ordinary = true;
    code = false;
    expands_down = true;
    writable = true;
    long = false;
  }
  pub user_code : segment_at (gdt_bytes l.gdt) 0x43 ≡ record {
    present = true;
    ring = 3;
    ordinary = true;
    code = true;
    expands_down = false;
    writable = true;
    long = true;
  }
  pub user_data : segment_at (gdt_bytes l.gdt) 0x3b ≡ record {
    present = true;
    ring = 3;
    ordinary = true;
    code = false;
    expands_down = false;
    writable = true;
    long = false;
  }
  pub task :
      l.tss_address < 2 ^ 64
      → task_segment_at (gdt_bytes l.gdt) l.tr ≡ record {
        present = true;
        ring = 0;
        ordinary = false;
        kind = 9;
        limit = length (tss_bytes l.tss);
        base = l.tss_address;
      }

-- the test of the processor for a port, with `limit` the last offset of the segment
abbrev pub port_open : List ℕ → ℕ → ℕ → Bool
port_open task limit port =
    let map = byte_at task 102 + 2 ^ 8 * byte_at task 103 in
    leb (map + port / 8 + 1) limit && (byte_at task (map + port / 8) / 2 ^ (port % 8) % 2 == 0)

reserved_zero : (rsp0 rsp1 rsp2 i : ℕ) → i < 4 → byte_at (tss_bytes (tss_of rsp0 rsp1 rsp2)) i ≡ 0
reserved_zero rsp0 rsp1 rsp2 zero h = refl
reserved_zero rsp0 rsp1 rsp2 (suc zero) h = refl
reserved_zero rsp0 rsp1 rsp2 (suc (suc zero)) h = refl
reserved_zero rsp0 rsp1 rsp2 (suc (suc (suc zero))) h = refl
reserved_zero rsp0 rsp1 rsp2 (suc (suc (suc (suc i)))) h = absurd (omega (arith, h))

port_open-tss_of :
    (rsp0 rsp1 rsp2 port : ℕ)
    → port < 32
    → port_open (tss_bytes (tss_of rsp0 rsp1 rsp2)) 104 port ≡ true
port_open-tss_of rsp0 rsp1 rsp2 port h =
    let within : leb (0 + port / 8 + 1) 104 ≡ true = ground (arith, h) in
    let byte : byte_at (tss_bytes (tss_of rsp0 rsp1 rsp2)) (0 + port / 8) ≡ 0 =
      reserved_zero rsp0 rsp1 rsp2 (0 + port / 8) (omega (arith, h)) in
    let clear : (0 / 2 ^ (port % 8) % 2 == 0) ≡ true = ground (arith, zero-div (2 ^ (port % 8))) in
    rw (port_open, within, byte) clear

module _ (memory : GdtMemory) (high_vma : ℕ) where
  -- The segment that gdt_init leaves opens the ports below 32 to user code: its map of the ports
  -- begins at offset 0, within its limit.
  pub gdt_init-port_open :
      (s : memory.State) (port : ℕ)
      → port < 32
      → Leaves
          (gdt_init memory high_vma s)
          (λ r. port_open (tss_bytes r.0.tss) r.0.gdt.tss_descriptor.length port ≡ true)
  unfolding gdt_init
  gdt_init-port_open s port h = Leaves-bind (memory.pmm_alloc _ 4 1) _ λ stack0 e0.
      Leaves-bind (memory.pmm_alloc stack0.1 4 1) _ λ stack1 e1.
        Leaves-bind (memory.pmm_alloc stack1.1 4 1) _
          λ stack2 e2. Leaves-ok (port_open-tss_of _ _ _ port h)
