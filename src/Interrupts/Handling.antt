-- ===== src/Interrupts/Handling.antt =====
-- The GS base, and the ways out of isr_handler_main.
use rock.Base.{
  ℕ, ◌≡◌, refl, ap, ◌∙◌, inl, inr, true, not, some, List, ltb, ◌==◌, get_elem?, Run, ok, deadlock,
  ◌>>=◌, Leaves, Leaves-ok, Leaves-fault, Leaves-deadlock, Leaves-if, Leaves-bind, Leaves-option,
  Bool-cases, if◌then◌else◌,
}
use rock.Interrupts.{Vector}
use rock.Interrupts.Handler.{
  Registers, Core, Handled, returned, halted, from_user, VectorHandler, swapgs, done, report,
  handle_exception, handle_vector, isr_handler_main,
}

module _ {W : Type 0} where
  -- The GS base is the kernel's if the registers are of kernel code, and else the user's.
  abbrev pub GsOf : Registers → Core W → Type 0
  GsOf regs c = c.kernel_gs ≡ not (from_user regs)

  -- what is true where the core goes on: the stub gets registers and a GS base that fit
  abbrev pub Fits : Handled W → Type 0
  Fits (returned regs c) = GsOf regs c
  Fits (halted c) = c.kernel_gs ≡ true

module _ (W : Type 0) (resolve_fault : ℕ → ℕ → Core W → Run (ℕ × Core W)) where
  done-Fits :
      (regs : Registers) (c : Core W) → c.kernel_gs ≡ true → Fits (done W resolve_fault regs c)
  unfolding done
  done-Fits regs c k = elim (Bool-cases (from_user regs)) [
    | inl user ↦ rw (done, user, k) refl
    | inr kernel ↦ rw (done, kernel, k) refl
  ]

  report-Fits : (c : Core W) → c.kernel_gs ≡ true → Leaves (report W resolve_fault c) Fits
  unfolding report
  report-Fits c k =
      Leaves-if c.exception_lock deadlock (ok (halted c)) (λ e. Leaves-deadlock) (λ e. Leaves-ok k)

  entered-kernel :
      (regs : Registers) (c : Core W)
      → GsOf regs c
      → (if from_user regs then swapgs W c else c).kernel_gs ≡ true
  entered-kernel regs c g = elim (Bool-cases (from_user regs)) [
    | inl user ↦ rw user (ap not (g ∙ ap not user))
    | inr kernel ↦ rw kernel (g ∙ ap not kernel)
  ]

  -- a call that leaves the kernel's GS base in place
  abbrev pub KeepsGs : {A : Type 0} → (A → Core W) → Run A → Type 0
  KeepsGs core r = Leaves r (λ a. (core a).kernel_gs ≡ true)

  module _ (vectors : List (Vector (VectorHandler W)))
      (resolve-keeps : (a e : ℕ) (c : Core W)
        → c.kernel_gs ≡ true
        → KeepsGs (λ r. r.1) (resolve_fault a e c))
      (handlers-keep : (i : ℕ) (v : Vector (VectorHandler W)) (h : VectorHandler W)
        → get_elem? vectors i ≡ some v
        → v.handler ≡ some h
        → (regs : Registers) (ptr : ℕ) (c : Core W) → c.kernel_gs ≡ true
        → KeepsGs (λ r. r.1) (h regs ptr c)) where
    exception-Fits :
        (regs : Registers) (c : Core W)
        → c.kernel_gs ≡ true
        → Leaves (handle_exception W resolve_fault regs c) Fits
    unfolding handle_exception
    exception-Fits regs c k =
        Leaves-if (regs.isr_number == 0xe)
          (resolve_fault c.cr2 regs.error_code c >>= λ r.
            if r.0 == 0 then ok (done W resolve_fault regs r.1) else report W resolve_fault r.1)
          (report W resolve_fault c)
          (λ page. Leaves-bind (resolve_fault c.cr2 regs.error_code c) _ λ r e.
            let kept = (resolve-keeps c.cr2 regs.error_code c k).at r e in
            Leaves-if (r.0 == 0) _ _ (λ z. Leaves-ok (done-Fits regs r.1 kept))
              (λ z. report-Fits r.1 kept))
          (λ other. report-Fits c k)

    vector-Fits :
        (regs : Registers) (c : Core W)
        → c.kernel_gs ≡ true
        → Leaves (handle_vector W resolve_fault vectors regs c) Fits
    unfolding handle_vector
    vector-Fits regs c k =
        Leaves-option (get_elem? vectors regs.isr_number) _ _ (λ n. Leaves-fault)
          λ v there.
            Leaves-option v.handler _ _ (λ n. Leaves-ok (done-Fits regs c k))
              λ h e. Leaves-bind (h regs v.ptr c) _ λ r run. Leaves-ok (
                done-Fits r.0 r.1
                  ((handlers-keep regs.isr_number v h there e regs v.ptr c k).at r run))

    -- If the GS base fits the registers on entry, and the handlers and portal_resolve_fault leave the
    -- kernel's in place, then isr_handler_main returns with registers that the GS base fits, also
    -- where a handler changed them, or halts with the kernel's.
    pub isr_handler_main-Fits :
        (regs : Registers) (c : Core W)
        → GsOf regs c
        → Leaves (isr_handler_main W resolve_fault vectors regs c) Fits
    unfolding isr_handler_main
    isr_handler_main-Fits regs c g =
        let k = entered-kernel regs c g in
        Leaves-if (ltb regs.isr_number 32) _ _ (λ e. exception-Fits regs _ k)
          (λ e. vector-Fits regs _ k)
