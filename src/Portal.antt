-- ===== src/Portal.antt =====
-- kernel/core/portal.h and the data of kernel/core/portal.c: portals and what they map.
-- What the kernel changes for a portal is one state: the tree and the pages of a page table, the
-- share points, and the memory behind them, whose frames and page tables are a parameter. A string
-- is its bytes. The slab allocator gives zeroed memory; that it runs out is not modelled.
pub mod Fault
pub mod Create
pub mod Destroy
pub mod Walk
pub mod Resolve
pub mod Shared
pub mod Keep
pub mod Outcome
pub mod Reach
mod Tests
use rock.Base.{ℕ, ◌^◌, ◌-◌, bit_and, bit_or, Bool, not, Option, List, ◌==◌, if◌then◌else◌, Run}
use rock.Fayt.Tables.{HashTable}
use rock.Paging.{flag_p, flag_rw, flag_us, flag_nx}

abbrev pub portal_req_share : ℕ
portal_req_share = 1

abbrev pub portal_req_direct : ℕ
portal_req_direct = 2

abbrev pub portal_req_anon : ℕ
portal_req_anon = 4

abbrev pub portal_req_cow : ℕ
portal_req_cow = 8

abbrev pub portal_req_sp : ℕ
portal_req_sp = 16

abbrev pub portal_resp_failure : ℕ
portal_resp_failure = 1

abbrev pub portal_resp_success : ℕ
portal_resp_success = 2

abbrev pub portal_prot_read : ℕ
portal_prot_read = 1

abbrev pub portal_prot_write : ℕ
portal_prot_write = 2

abbrev pub portal_prot_exec : ℕ
portal_prot_exec = 4

abbrev pub link_circular : ℕ
link_circular = 1

abbrev pub link_circular_magic : ℕ
link_circular_magic = 0x9E810F7F

-- a test `x & bit`
abbrev pub has : ℕ → ℕ → Bool
has x flag = not (bit_and x flag == 0)

-- portal_translate_protections
unfoldable pub portal_translate_protections : ℕ → ℕ
portal_translate_protections permission =
    let base = bit_or (bit_or flag_p flag_us) flag_nx in
    let writable = if has permission portal_prot_write then bit_or base flag_rw else base in
    if has permission portal_prot_exec then bit_and writable (2 ^ 64 - 1 - flag_nx) else writable

pub record PortalLink : Type 0 where
  pub lock : ℕ
  pub length : ℕ
  pub header_offset : ℕ
  pub header_limit : ℕ
  pub data_offset : ℕ
  pub data_limit : ℕ
  pub magic : ℕ

-- `struct portal_req`, its two structures flattened; `paddr` is the array at the end
pub record PortalReq : Type 0 where
  pub kind : ℕ
  pub prot : ℕ
  pub length : ℕ
  pub share_identifier : List ℕ
  pub share_type : ℕ
  pub share_create : ℕ
  pub morphology_addr : ℕ
  pub morphology_length : ℕ
  pub paddr : List ℕ

pub record PortalResp : Type 0 where
  pub base : ℕ
  pub limit : ℕ
  pub flags : ℕ

pub record Frame : Type 0 where
  pub paddr : ℕ
  pub refcnt : ℕ

pub record Page : Type 0 where
  pub vaddr : ℕ
  pub frame : Frame

-- a portal: its links are those of the tree below; `pages` is NULL or a table's array
pub record Portal : Type 0 where
  pub kind : ℕ
  pub prot : ℕ
  pub share_identifier : Option (List ℕ)
  pub base : ℕ
  pub limit : ℕ
  pub flags : ℕ
  pub pages : Option (List (Option Page))

pub data PortalTree : Type 0 where
  leaf : PortalTree
  node : PortalTree → Portal → PortalTree → PortalTree

-- `paddr` is the array at the end, for which the share point is allocated no room: its entries stand
-- in the memory behind the object, which can be read and written
pub record SharePoint : Type 0 where
  pub identifier : List ℕ
  pub length : ℕ
  pub paddr : ℕ → ℕ

-- `pmm_alloc(1, 1)`, `pmm_free`, the page table's functions, `invlpg`, what the
-- memory behind a new share point holds, and what a link is set up by
pub record PortalMemory : Type 1 where
  pub State : Type 0
  pub alloc_page : State → Run (ℕ × State)
  pub free_page : State → ℕ → Run State
  pub map_page : State → ℕ → ℕ → ℕ → Run State
  pub page_entry : State → ℕ → Run (Option ℕ × State)
  pub invlpg : State → ℕ → State
  pub behind : State → ℕ → ℕ
  pub write_link : State → ℕ → PortalLink → Run State
  pub circular_queue_init : State → ℕ → ℕ → ℕ → ℕ → Run State

module _ (memory : PortalMemory) (hash : HashTable ℕ) (page_hash : HashTable Page) where
  pub record Space : Type 0 where
    pub portal_root : PortalTree
    pub pages : page_hash.Table
    pub share_map : hash.Table
    pub share_points : List SharePoint
    pub rest : memory.State
