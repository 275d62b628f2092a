-- ===== src/Paging/Lookup.antt =====
-- pml4_page_entry and pml5_page_entry of kernel/arch/x86/paging.c against the walk of the processor.
use rock.Base.{
  ℕ, ◌≡◌, refl, sym, subst, ◌∙◌, inl, inr, bit_and, true, false, Option, none, some, if◌then◌else◌,
  List, [], ◌∷◌, ◌==◌, Run, ok, add64, Bool-cases, arith,
}
use rock.Fayt.{MemOps}
use rock.Paging.{flag_p, flag_ps, Space, release, pml4_page_entry}
use rock.Paging.Level5.{pml5_page_entry}
use rock.Paging.Source.{FrameSource}
use rock.Paging.Entry.{frame_of}
use rock.Paging.Walk.{is_last, leaf, cell, entry, walk}
use rock.Paging.Frame.{walk-absent, walk-present}
use rock.Paging.FourLevel.{path4, path5}

module _ (mops : MemOps) (high_vma : ℕ) (src : FrameSource mops high_vma) where
  abbrev Sp : Type 0
  Sp = Space mops high_vma src

  -- the code of the lookups from the table in frame `f` down, one level after another
  entry_levels : Sp → ℕ → List ℕ → Run (ℕ × Sp)
  entry_levels sp f [] = ok (0, release mops high_vma src sp)
  entry_levels sp f (i ∷ []) = ok (cell mops high_vma f i, release mops high_vma src sp)
  entry_levels sp f (i ∷ j ∷ []) = elim (bit_and (entry mops high_vma sp.mem f i) flag_ps == 0) [
    | false ↦ ok (cell mops high_vma f i, release mops high_vma src sp)
    | true ↦ elim (bit_and (entry mops high_vma sp.mem f i) flag_p == 0) [
      | true ↦ ok (0, release mops high_vma src sp)
      | false ↦ ok (
        cell mops high_vma (frame_of (entry mops high_vma sp.mem f i)) j,
        release mops high_vma src sp,
      )
    ]
  ]
  entry_levels sp f (i ∷ j ∷ k ∷ r) = elim (bit_and (entry mops high_vma sp.mem f i) flag_p == 0) [
    | true ↦ ok (0, release mops high_vma src sp)
    | false ↦ entry_levels sp (frame_of (entry mops high_vma sp.mem f i)) (j ∷ k ∷ r)
  ]

  -- The address of the entry at which the walk of the processor from the table in frame `f` ends:
  -- the one at the last index, or one above it that is a large page. An entry above that is absent
  -- ends the walk too, but at no entry of a page.
  unfoldable pub end_of : mops.Mem → ℕ → List ℕ → Option ℕ
  end_of m f [] = none
  end_of m f (i ∷ []) = some (cell mops high_vma f i)
  end_of m f (i ∷ j ∷ r) =
      let e = entry mops high_vma m f i in
      let rest = end_of m (frame_of e) (j ∷ r) in
      if is_last e r
      then some (cell mops high_vma f i)
      else if bit_and e flag_p == 0
      then none
      else rest

  abbrev pub or_null : Option ℕ → ℕ
  or_null none = 0
  or_null (some p) = p

  -- Only the lock changes, and the address returned is that of the entry at which the walk ends, or
  -- NULL; the walk finds the word there, if it is present.
  pub record Found (run : Run (ℕ × Sp)) (sp : Sp) (root : ℕ) (is : List ℕ) : Type 0 where
    pub returns : run ≡ ok (or_null (end_of sp.mem root is), record sp { locked = false })
    pub agrees :
        walk mops high_vma sp.mem root is ≡ elim (end_of sp.mem root is) as (λ x. Option ℕ) [
          | none ↦ none
          | some p ↦ leaf (mops.load64 sp.mem p)
        ]

  end_of-last : (m : mops.Mem) (f i : ℕ) → end_of m f (i ∷ []) ≡ some (cell mops high_vma f i)
  unfolding end_of
  end_of-last m f i = refl

  end_of-huge :
      (m : mops.Mem) (f i j : ℕ)
      → (bit_and (entry mops high_vma m f i) flag_ps == 0) ≡ false
      → end_of m f (i ∷ j ∷ []) ≡ some (cell mops high_vma f i)
  unfolding end_of
  end_of-huge m f i j e = rw (end_of, e) refl

  end_of-absent :
      (m : mops.Mem) (f i j : ℕ) (r : List ℕ)
      → is_last (entry mops high_vma m f i) r ≡ false
      → (bit_and (entry mops high_vma m f i) flag_p == 0) ≡ true
      → end_of m f (i ∷ j ∷ r) ≡ none
  unfolding end_of
  end_of-absent m f i j r l e = rw (end_of, l, e) refl

  end_of-present :
      (m : mops.Mem) (f i j : ℕ) (r : List ℕ)
      → is_last (entry mops high_vma m f i) r ≡ false
      → (bit_and (entry mops high_vma m f i) flag_p == 0) ≡ false
      → end_of m f (i ∷ j ∷ r) ≡ end_of m (frame_of (entry mops high_vma m f i)) (j ∷ r)
  unfolding end_of
  end_of-present m f i j r l e = rw (end_of, l, e) refl

  huge-walk :
      (m : mops.Mem) (f i j : ℕ)
      → (bit_and (entry mops high_vma m f i) flag_ps == 0) ≡ false
      → walk mops high_vma m f (i ∷ j ∷ []) ≡ leaf (entry mops high_vma m f i)
  unfolding walk
  huge-walk m f i j e = rw (walk, e) refl

  last-walk :
      (m : mops.Mem) (f i : ℕ) → walk mops high_vma m f (i ∷ []) ≡ leaf (entry mops high_vma m f i)
  unfolding walk
  last-walk m f i = refl

  module _ (sp : Sp) where
    entry_levels-Found :
        (i : ℕ) (is : List ℕ) (f : ℕ) → Found (entry_levels sp f (i ∷ is)) sp f (i ∷ is)
    unfolding entry_levels
    entry_levels-Found i [] f = record {
      returns = rw (end_of-last sp.mem f i) refl;
      agrees = rw (end_of-last sp.mem f i) (last-walk sp.mem f i);
    }
    entry_levels-Found i (j ∷ []) f =
        elim (Bool-cases (bit_and (entry mops high_vma sp.mem f i) flag_ps == 0)) [
          | inr e ↦
              let at = end_of-huge sp.mem f i j e in
              record {
                returns = rw (at, entry_levels, e) refl;
                agrees = rw at (huge-walk sp.mem f i j e);
              }
          | inl e ↦
              let small : is_last (entry mops high_vma sp.mem f i) [] ≡ false = rw e refl in
              elim (Bool-cases (bit_and (entry mops high_vma sp.mem f i) flag_p == 0)) [
                | inl e' ↦
                    let at = end_of-absent sp.mem f i j [] small e' in
                    record {
                      returns = rw (at, entry_levels, e, e') refl;
                      agrees = rw at (walk-absent mops high_vma sp.mem f i (j ∷ []) (ground arith));
                    }
                | inr e' ↦
                    let at =
                      end_of-present sp.mem f i j [] small e'
                      ∙ end_of-last sp.mem (frame_of (entry mops high_vma sp.mem f i)) j in
                    record {
                      returns = rw (at, entry_levels, e, e') refl;
                      agrees = rw at (
                          walk-present mops high_vma sp.mem f i j [] (ground arith)
                            (λ l. ground arith)
                          ∙ last-walk sp.mem _ j);
                    }
              ]
        ]
    entry_levels-Found i (j ∷ k ∷ r) f =
        elim (Bool-cases (bit_and (entry mops high_vma sp.mem f i) flag_p == 0)) [
          | inl e ↦
              let at = end_of-absent sp.mem f i j (k ∷ r) refl e in
              record {
                returns = rw (at, entry_levels, e) refl;
                agrees = rw at (walk-absent mops high_vma sp.mem f i (j ∷ k ∷ r) (ground arith));
              }
          | inr e ↦
              let d = entry_levels-Found j (k ∷ r) (frame_of (entry mops high_vma sp.mem f i)) in
              let at = end_of-present sp.mem f i j (k ∷ r) refl e in
              record {
                returns = rw (at, entry_levels, e) d.returns;
                agrees =
                    rw
                      (
                        at,
                        walk-present mops high_vma sp.mem f i j (k ∷ r) (ground arith)
                            (λ l. absurd (omega arith)),
                      )
                      d.agrees;
              }
        ]

  module _ (vaddr root : ℕ) where
    abbrev ByLevels : (Sp → ℕ → Run (ℕ × Sp)) → List ℕ → Sp → Type 0
    ByLevels code is sp = code sp vaddr ≡ entry_levels (record sp { locked = true }) root is

    at_root :
        (code : Sp → ℕ → Run (ℕ × Sp)) (is : List ℕ)
        → ((sp : Sp) → ByLevels code is (record sp { locked = false; pmlt = add64 root high_vma }))
        → (sp : Sp) → sp.locked ≡ false
        → sp.pmlt ≡ add64 root high_vma
        → ByLevels code is sp
    at_root code is h sp free top =
        subst (λ t. ByLevels code is (record sp { pmlt = t })) (sym top)
          (subst (λ t. ByLevels code is (record sp { locked = t; pmlt = add64 root high_vma }))
            (sym free) (h sp))

    by_levels4 :
        (sp : Sp)
        → ByLevels
            (pml4_page_entry mops high_vma src)
            (path4 vaddr)
            (record sp { locked = false; pmlt = add64 root high_vma })
    unfolding pml4_page_entry entry_levels
    by_levels4 sp = refl

    by_levels5 :
        (sp : Sp)
        → ByLevels
            (pml5_page_entry mops high_vma src)
            (path5 vaddr)
            (record sp { locked = false; pmlt = add64 root high_vma })
    unfolding pml5_page_entry entry_levels
    by_levels5 sp = refl

    -- On an open lock, pml4_page_entry leaves everything as it was and returns the address of the
    -- entry at which the walk for the address ends, the last one or that of a large page, whether the
    -- entry is present or not, or NULL where an entry above the last level is absent. What the walk
    -- finds is the word at that address, if it is present.
    pub pml4_page_entry-Found :
        (sp : Sp)
        → sp.locked ≡ false
        → sp.pmlt ≡ add64 root high_vma
        → Found (pml4_page_entry mops high_vma src sp vaddr) sp root (path4 vaddr)
    pml4_page_entry-Found sp free at =
        let d = entry_levels-Found (record sp { locked = true }) _ _ root in
        record {
          returns =
              at_root (pml4_page_entry mops high_vma src) (path4 vaddr) by_levels4 sp free at
              ∙ d.returns;
          agrees = d.agrees;
        }

    -- On an open lock, pml5_page_entry leaves everything as it was and returns the address of the
    -- entry at which the walk for the address ends, the last one or that of a large page, whether the
    -- entry is present or not, or NULL where an entry above the last level is absent. What the walk
    -- finds is the word at that address, if it is present.
    pub pml5_page_entry-Found :
        (sp : Sp)
        → sp.locked ≡ false
        → sp.pmlt ≡ add64 root high_vma
        → Found (pml5_page_entry mops high_vma src sp vaddr) sp root (path5 vaddr)
    pml5_page_entry-Found sp free at =
        let d = entry_levels-Found (record sp { locked = true }) _ _ root in
        record {
          returns =
              at_root (pml5_page_entry mops high_vma src) (path5 vaddr) by_levels5 sp free at
              ∙ d.returns;
          agrees = d.agrees;
        }
