-- ===== src/Server/Launch.antt =====
-- kernel/core/server.c: launch_server, and the part of launch_servers that boots one module.
-- The modules of the boot protocol are a list, and a file pointer is an index. The memory of
-- Elf/Segments is extended by create_blank_context and by `pmm_alloc` of a run of frames.
use rock.Base.{
  ℕ, zero, suc, ◌+◌, ◌-◌, ◌/◌, ◌%◌, ◌^◌, bit_and, bit_or, false, Option, none, some, List, [], ◌∷◌,
  ◌++◌, length, get_elem?, ◌==◌, if◌then◌else◌, Run, ok, fault, ◌>>=◌, add64, sub64, mul64,
  page_size, minus_one_int,
}
use rock.Fayt.{Rounding}
use rock.Fayt.Tables.{HashTable, BitmapAlloc}
use rock.Paging.{flag_p, flag_rw, flag_us}
use rock.Elf.{Around, ElfFile, Aux, elf64_file_init, elf64_file_aux}
use rock.Elf.Segments.{Memory, elf64_file_load}
use rock.Notification.Calls.{context_default_stack_size}
use rock.Server.{Server, Registry, create_server}

-- `struct limine_file` as far as the kernel reads it, and what stands around its bytes
pub record LimineFile : Type 0 where
  pub address : Option (List ℕ)
  pub size : ℕ
  pub cmdline : List ℕ
  pub around : Around

abbrev pub server_default_stack_location : ℕ
server_default_stack_location = 0x20000

-- "IO"
abbrev pub io_name : List ℕ
io_name = 73 ∷ 79 ∷ []

-- what launch_server sets of a context; `rdi` only where there is an argument
pub record LaunchedContext : Type 0 where
  pub rip : ℕ
  pub cs : ℕ
  pub rflags : ℕ
  pub ss : ℕ
  pub rdi : Option ℕ
  pub rsp : ℕ
  pub stack_sp : ℕ
  pub stack_size : ℕ

module _ (rounding : Rounding) (memory : Memory) (high_vma : ℕ) where
  open memory use {State, map_page, copy}

  -- the loop that maps the stack, `left` pages from the `i`-th on
  unfoldable pub map_stack : State → ℕ → ℕ → ℕ → ℕ → Run State
  map_stack s virtual physical zero i = ok s
  map_stack s virtual physical (suc left) i = do
    s' ←
        map_page s (sub64 virtual (mul64 page_size i)) (sub64 physical (mul64 page_size i))
          (bit_or (bit_or flag_p flag_rw) flag_us)
    map_stack s' virtual physical left (i + 1)

  -- an address of the stack in the kernel's mapping, as the server sees it
  abbrev pub user_location : ℕ → ℕ → ℕ → ℕ
  user_location virtual physical location = sub64 virtual (sub64 physical (sub64 location high_vma))

  -- the context after the argument is on the stack; `arg` is none for NULL
  unfoldable pub enter : Aux → State → ℕ → Option (List ℕ) → Run (LaunchedContext × State)
  enter aux s physical arg =
      let virtual = add64 server_default_stack_location context_default_stack_size in
      let top = add64 physical high_vma in
      let context : Option ℕ → ℕ → LaunchedContext = λ rdi location. record {
        rip = aux.at_entry;
        cs = 0x43;
        rflags = 0x202;
        ss = 0x3b;
        rdi = rdi;
        rsp = user_location virtual physical (bit_and location (2 ^ 64 - 16));
        stack_sp = virtual;
        stack_size = context_default_stack_size;
      } in
      elim arg [
        | none ↦ ok (context none top, s)
        | some bytes ↦
            let location = sub64 top (length bytes) in
            copy s location bytes >>= λ s'.
            ok (context (some (user_location virtual physical location)) location, s')
      ]

  module _ (create_blank_context : State → Run (Option State))
      (pmm_alloc : State → ℕ → Run (ℕ × State)) where
    -- launch_server from create_blank_context on, with the file's tables read
    unfoldable pub launch_file :
        ElfFile → Option (List ℕ) → State → Run (Option LaunchedContext × State)
    launch_file elf arg s = do
      blank ← create_blank_context s
      elim blank [
        | none ↦ ok (none, s)
        | some s1 ↦ elf64_file_load rounding memory high_vma elf s1 >>= λ s2.
            let virtual = add64 server_default_stack_location context_default_stack_size in
            pmm_alloc s2 (virtual / page_size) >>= λ frame.
            let physical = add64 frame.0 context_default_stack_size in
            map_stack frame.1 virtual physical (context_default_stack_size / page_size) 0 >>= λ s3.
            enter (elf64_file_aux elf) s3 physical arg >>= λ r. ok (some r.0, r.1)
      ]

    module _ (hash : HashTable ℕ) (bitmaps : BitmapAlloc) (files : List LimineFile) where
      -- `none` is -1; `server` is a pointer to a server, whose `file` must not be NULL
      unfoldable pub launch_server :
          Registry hash bitmaps
          → Option ℕ
          → Option (List ℕ)
          → State
          → Run (Option LaunchedContext × State)
      launch_server st server arg s = elim server [
        | none ↦ ok (none, s)
        | some p ↦ elim (get_elem? st.servers p) [
          | none ↦ fault
          | some object ↦ elim object.file [
            | none ↦ fault
            | some f ↦ elim (get_elem? files f) [
              | none ↦ fault
              | some file ↦
                  elf64_file_init
                    (record {
                      buffer = file.address;
                      claimed = file.size % 2 ^ 32;
                      around = file.around;
                    })
                    0
                  >>= λ read. elim read [ none ↦ ok (none, s) | some elf ↦ launch_file elf arg s ]
            ]
          ]
        ]
      ]

      -- launch_servers for the module at index `f`: the server is allocated, given the file, named
      -- after the module in "IO" and launched. `none` is -1.
      unfoldable pub boot_module :
          Registry hash bitmaps
          → ℕ
          → LimineFile
          → State
          → Run (Option LaunchedContext × Registry hash bitmaps × State)
      boot_module st f file s =
          let server = length st.servers in
          let object : Server = record {
            name = [];
            id = record { nid = 0; sid = 0 };
            context = none;
            file = some f;
            locked = false;
          } in
          create_server hash bitmaps (record st { servers = st.servers ++ object ∷ [] }) io_name
            file.cmdline server
          >>= λ r.
              if r.0 == minus_one_int
              then ok (none, r.1, s)
              else (launch_server r.1 (some server) none s >>= λ l. ok (l.0, r.1, l.1))
