-- ===== src/Server/Enter.antt =====
-- The registers that a server is entered with.
use rock.Base.{
  ℕ, ◌+◌, ◌-◌, ◌*◌, ◌/◌, ◌%◌, ◌^◌, ◌<◌, ◌≤◌, ◌≡◌, refl, ap, ◌∙◌, some, List, length, ok, ◌>>=◌,
  arith, bit_and, add64, sub64,
}
use rock.Base.Bits.Page.{bit_and-floor16}
use rock.Fayt.{Rounding}
use rock.Elf.{Aux}
use rock.Elf.Segments.{Memory}
use rock.Notification.Calls.{context_default_stack_size}
use rock.Server.Launch.{LaunchedContext, server_default_stack_location, enter, user_location}

abbrev stack_top : ℕ
stack_top = server_default_stack_location + context_default_stack_size

-- a location `down` bytes below the top of the stack's frames, as the server sees it
module _ (rounding : Rounding) (memory : Memory) where
  user_location_down :
      (physical high_vma down : ℕ)
      → physical + high_vma < 2 ^ 64
      → down ≤ physical
      → down ≤ stack_top
      → user_location rounding memory high_vma stack_top physical (physical + high_vma - down)
        ≡ stack_top - down
  user_location_down physical high_vma down wide deep fits = omega arith

-- the context is entered at the file's entry, on a stack that is aligned and holds `used` bytes
pub record Entered (context : LaunchedContext) (aux : Aux) (used : ℕ) : Type 0 where
  pub entry : context.rip ≡ aux.at_entry
  pub aligned : context.rsp % 16 ≡ 0
  pub below : context.rsp + used ≤ stack_top
  pub close : stack_top < context.rsp + used + 16

-- With the frames of the stack ending at `physical`, an argument that fits the stack and addresses
-- that do not wrap: the argument is copied to the top of the frames, rdi is its address for the
-- server, and the server is entered at the file's entry with rsp aligned to 16 bytes, below the
-- argument and less than 16 bytes from it.
pub enter-Entered :
    (rounding : Rounding) (memory : Memory) (high_vma : ℕ) (aux : Aux) (s : memory.State)
    (physical : ℕ) (arg : List ℕ)
    → physical + high_vma < 2 ^ 64
    → (physical + high_vma) % 16 ≡ 0
    → context_default_stack_size ≤ physical
    → length arg + 16 ≤ context_default_stack_size
    → (context : LaunchedContext) × (enter rounding memory high_vma aux s physical (some arg)
        ≡ (memory.copy s (physical + high_vma - length arg) arg >>= λ s'. ok (context, s')))
      × (context.rdi ≡ some (stack_top - length arg))
      × Entered context aux (length arg)
unfolding enter
enter-Entered rounding memory high_vma aux s physical arg wide sixteen deep fits =
    let top = physical + high_vma in
    let n = length arg in
    let location : sub64 (add64 physical high_vma) n ≡ top - n = omega arith in
    let floor : bit_and (top - n) (2 ^ 64 - 16) ≡ 16 * ((top - n) / 16) =
      bit_and-floor16 (top - n) (omega arith) in
    let down = top - 16 * ((top - n) / 16) in
    let lower : 16 * ((top - n) / 16) ≡ top - down = omega arith in
    let rdi =
      user_location_down rounding memory physical high_vma n wide (omega arith) (omega arith) in
    let rsp =
      user_location_down rounding memory physical high_vma down wide (omega arith) (omega arith) in
    let entered : user_location rounding memory high_vma stack_top physical
          (bit_and (top - n) (2 ^ 64 - 16))
        ≡ stack_top - down =
      ap (user_location rounding memory high_vma stack_top physical) (floor ∙ lower) ∙ rsp in
    (
      record {
        rip = aux.at_entry;
        cs = 0x43;
        rflags = 0x202;
        ss = 0x3b;
        rdi = some (stack_top - n);
        rsp = stack_top - down;
        stack_sp = stack_top;
        stack_size = context_default_stack_size;
      },
      rw (enter, location, rdi, entered) refl,
      refl,
      record { entry = refl; aligned = omega arith; below = omega arith; close = omega arith },
    )
