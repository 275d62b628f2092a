-- ===== src/Server/Tests.antt =====
-- A registry with one name space, "IO".
use rock.Base.{ℕ, ◌+◌, ◌≡◌, refl, none, some, List, [], ◌∷◌, ok, ◌>>=◌, arith}
use rock.Fayt.Models.{rounding, assoc, counter}
use rock.Elf.{Aux}
use rock.Elf.Segments.{Memory}
use rock.Elf.{read_shdr}
use rock.Server.{Registry, create_namespace, create_server, find_server}
use rock.Server.Find.{Wf, find, Created, create_server-Created}
use rock.Server.Spaces.{create_namespace-Opened}
use rock.Server.Launch.{LimineFile, LaunchedContext, io_name, enter}
use rock.Server.Enter.{Entered, enter-Entered}

abbrev empty_registry : Registry assoc counter
empty_registry = record { namespace_table = []; nid_bitmap = 0; namespaces = []; servers = [] }

empty_registry-Wf : Wf assoc counter empty_registry
empty_registry-Wf = record { there = λ k i e. absurd cc; apart = λ j k i e e'. absurd cc }

abbrev registry : Registry assoc counter
registry = record {
  namespace_table = (io_name, 0) ∷ [];
  nid_bitmap = 1;
  namespaces = record { name = io_name; nid = 0; sid_bitmap = 0; server_table = [] } ∷ [];
  servers = [];
}

registry-made : create_namespace assoc counter empty_registry io_name ≡ (0, registry)
unfolding create_namespace
registry-made = refl

registry-Wf : Wf assoc counter registry
registry-Wf =
    (create_namespace-Opened assoc counter empty_registry registry io_name empty_registry-Wf refl
      registry-made).wf

abbrev vfs : List ℕ
vfs = 118 ∷ 102 ∷ 115 ∷ []

abbrev with_vfs : Registry assoc counter
with_vfs = record registry {
  namespaces =
      record { name = io_name; nid = 0; sid_bitmap = 1; server_table = (vfs, 0) ∷ [] } ∷ [];
}

vfs-made : create_server assoc counter registry io_name vfs 0 ≡ ok (0, with_vfs)
unfolding create_server
vfs-made = refl

vfs-new : find assoc counter registry io_name vfs ≡ ok none
unfolding find_server
vfs-new = refl

create_server-Created_example : Created assoc counter registry with_vfs io_name vfs 0
create_server-Created_example =
    create_server-Created assoc counter registry with_vfs io_name vfs 0 registry-Wf vfs-new vfs-made

abbrev nowhere : Memory
nowhere = record {
  State = ℕ;
  alloc_page = λ s. ok (s, s + 0x1000);
  map_page = λ s virtual physical flags. ok s;
  copy = λ s to bytes. ok s;
}

abbrev vfs_file : LimineFile
vfs_file = record {
  address = some (0x7F ∷ []);
  size = 1;
  cmdline = vfs;
  around = record { byte = λ i. 0; section = λ i. read_shdr [] };
}

abbrev at_start : Aux
at_start = record { at_phnum = 1; at_phent = 56; at_phdr = 0; at_entry = 0x401000 }

enter-Entered_example :
    (context : LaunchedContext) × (enter rounding nowhere 0x8000000000 at_start 0 0x50000 (some vfs)
      ≡ (ok 0 >>= λ s'. ok (context, s')))
    × (context.rdi ≡ some 0x2FFFD)
    × Entered context at_start 3
enter-Entered_example =
    enter-Entered rounding nowhere 0x8000000000 at_start 0 0x50000 vfs (omega arith) refl
      (omega arith) (omega arith)
