-- ===== src/Paging/Removal.antt =====
-- What each level of an unmapping does to the walks.
use rock.Base.{
  ℕ, ◌+◌, ◌<◌, ◌≡◌, ◌≢◌, refl, ap, ◌∙◌, inl, inr, bit_and, true, false, Option, some, List, [], ◌∷◌,
  length, ◌==◌, Bool-cases, ok, arith,
}
use rock.Fayt.{MemOps}
use rock.Paging.{flag_p, flag_ps, Space, release}
use rock.Paging.Source.{FrameSource}
use rock.Paging.Entry.{frame_of}
use rock.Paging.Walk.{Below, full, entry, IsTree, IsDirectMap}
use rock.Paging.Frame.{walk-absent, walk-present}
use rock.Paging.Unmap.{inner_path, clear_entry, unmap_levels, Unmapped}
use rock.Paging.Clear.{
  cleared-absent, low-huge, cleared_same, cleared_gone, cleared-IsTree, cleared_others,
}

module _ (mops : MemOps) (high_vma : ℕ) (src : FrameSource mops high_vma) where
  abbrev Sp : Type 0
  Sp = Space mops high_vma src

  unmap-large :
      (sp : Sp) (vaddr f i j : ℕ)
      → (bit_and (entry mops high_vma sp.mem f i) flag_ps == 0) ≡ false
      → unmap_levels mops high_vma src sp vaddr f (i ∷ j ∷ [])
        ≡ ok (0x200000, clear_entry mops high_vma src sp vaddr f i)
  unfolding unmap_levels
  unmap-large sp vaddr f i j e =
      rw (unmap_levels, low-huge (entry mops high_vma sp.mem f i), e) refl

  unmap-small :
      (sp : Sp) (vaddr f i j : ℕ)
      → (bit_and (entry mops high_vma sp.mem f i) flag_ps == 0) ≡ true
      → (bit_and (entry mops high_vma sp.mem f i) flag_p == 0) ≡ false
      → unmap_levels mops high_vma src sp vaddr f (i ∷ j ∷ [])
        ≡ ok (
          0x1000,
          clear_entry mops high_vma src sp vaddr (frame_of (entry mops high_vma sp.mem f i)) j,
        )
  unfolding unmap_levels
  unmap-small sp vaddr f i j e e' =
      rw (unmap_levels, low-huge (entry mops high_vma sp.mem f i), e, e') refl

  unmap-none :
      (sp : Sp) (vaddr f i j : ℕ)
      → (bit_and (entry mops high_vma sp.mem f i) flag_ps == 0) ≡ true
      → (bit_and (entry mops high_vma sp.mem f i) flag_p == 0) ≡ true
      → unmap_levels mops high_vma src sp vaddr f (i ∷ j ∷ [])
        ≡ ok (0, release mops high_vma src sp)
  unfolding unmap_levels
  unmap-none sp vaddr f i j e e' =
      rw (unmap_levels, low-huge (entry mops high_vma sp.mem f i), e, e') refl

  unmap-absent :
      (sp : Sp) (vaddr f i j k : ℕ) (r : List ℕ)
      → (bit_and (entry mops high_vma sp.mem f i) flag_p == 0) ≡ true
      → unmap_levels mops high_vma src sp vaddr f (i ∷ j ∷ k ∷ r)
        ≡ ok (0, release mops high_vma src sp)
  unfolding unmap_levels
  unmap-absent sp vaddr f i j k r e = rw (unmap_levels, e) refl

  unmap-below :
      (sp : Sp) (vaddr f i j k : ℕ) (r : List ℕ)
      → (bit_and (entry mops high_vma sp.mem f i) flag_p == 0) ≡ false
      → unmap_levels mops high_vma src sp vaddr f (i ∷ j ∷ k ∷ r)
        ≡ unmap_levels mops high_vma src sp vaddr
            (frame_of (entry mops high_vma sp.mem f i))
            (j ∷ k ∷ r)
  unfolding unmap_levels
  unmap-below sp vaddr f i j k r e = rw (unmap_levels, e) refl

  module _ (dm : IsDirectMap high_vma) (depth vaddr : ℕ) (sp : Sp) (owner : ℕ → Option (List ℕ))
      (tree : IsTree mops high_vma src depth sp.mem sp.frames owner) where
    abbrev Done : ℕ → List ℕ → List ℕ → ℕ × Sp → Type 0
    Done f p is result = Unmapped mops high_vma src depth sp owner f p is vaddr result.0 result.1

    other_table :
        (f : ℕ) (p : List ℕ)
        → owner f ≡ some p
        → (g : ℕ) (q : List ℕ) → owner g ≡ some q
        → length q < length p
        → g ≢ f
    other_table f p owned g q o len e =
        let same_path : q ≡ p = cc in absurd (omega (arith, ap length same_path))

    -- Nothing is mapped.
    absent-Unmapped :
        (f i : ℕ) (r p : List ℕ)
        → bit_and (entry mops high_vma sp.mem f i) flag_p ≡ 0
        → Done f p (i ∷ r) (0, release mops high_vma src sp)
    absent-Unmapped f i r p absent = record {
      tree = tree;
      above = λ g k q o len hk. refl;
      gone = walk-absent mops high_vma sp.mem f i r absent;
      others = λ js g q o len below ne ne'. refl;
      result = inl (refl, refl, walk-absent mops high_vma sp.mem f i r absent);
      same_root = refl;
      same_frames = refl;
      unlocked = refl;
    }

    page-Unmapped :
        (f i : ℕ) (p : List ℕ)
        → owner f ≡ some p
        → length p ≡ depth
        → i < 512
        → Done f p (i ∷ []) (0x1000, clear_entry mops high_vma src sp vaddr f i)
    page-Unmapped f i p owned last hi = record {
      tree =
          cleared-IsTree mops high_vma src dm depth sp.mem sp.frames owner f i _ p tree owned hi
            (cleared-absent _);
      above = λ g k q o len hk.
          cleared_same mops high_vma src dm depth sp.mem sp.frames owner f i _ p tree owned hi
            (cleared-absent _) g k q o hk (inl (other_table f p owned g q o len));
      gone =
          cleared_gone mops high_vma src dm depth sp.mem sp.frames owner f i _ p tree owned hi
            (cleared-absent _) [];
      others = λ js g q o len below ne ne'.
          cleared_others mops high_vma src dm depth sp.mem sp.frames owner f i _ p tree owned hi
            (cleared-absent _) js g q o len below (only js q ne);
      result = inr (inl refl, refl);
      same_root = refl;
      same_frames = refl;
      unlocked = refl;
    }
      where
        only :
            (js q : List ℕ)
            → full p (i ∷ []) ≢ full q js
            → (r : List ℕ) → length p + length r ≡ depth
            → full p (i ∷ r) ≢ full q js
        only js q ne [] len = ne
        only js q ne (k ∷ r) len = absurd (omega arith)

    large-Unmapped :
        (f i j : ℕ) (p : List ℕ)
        → owner f ≡ some p
        → length p + 1 ≡ depth
        → i < 512
        → Done f p (i ∷ j ∷ []) (0x200000, clear_entry mops high_vma src sp vaddr f i)
    large-Unmapped f i j p owned last hi = record {
      tree =
          cleared-IsTree mops high_vma src dm depth sp.mem sp.frames owner f i _ p tree owned hi
            (cleared-absent _);
      above = λ g k q o len hk.
          cleared_same mops high_vma src dm depth sp.mem sp.frames owner f i _ p tree owned hi
            (cleared-absent _) g k q o hk (inl (other_table f p owned g q o len));
      gone =
          cleared_gone mops high_vma src dm depth sp.mem sp.frames owner f i _ p tree owned hi
            (cleared-absent _) (j ∷ []);
      others = λ js g q o len below ne ne'.
          cleared_others mops high_vma src dm depth sp.mem sp.frames owner f i _ p tree owned hi
            (cleared-absent _) js g q o len below (only js q (ne' refl));
      result = inr (inr refl, refl);
      same_root = refl;
      same_frames = refl;
      unlocked = refl;
    }
      where
        only :
            (js q : List ℕ)
            → i ∷ p ≢ inner_path (full q js)
            → (r : List ℕ) → length p + length r ≡ depth
            → full p (i ∷ r) ≢ full q js
        only js q ne [] len = absurd (omega arith)
        only js q ne (k ∷ []) len = λ e. ne (ap inner_path e)
        only js q ne (k ∷ l ∷ r) len = absurd (omega arith)

    -- A level that leads to the next table.
    below-Unmapped :
        (f i j : ℕ) (r p : List ℕ) (result : ℕ × Sp)
        → owner f ≡ some p
        → i < 512
        → bit_and (entry mops high_vma sp.mem f i) flag_p ≢ 0
        → (length r ≡ 0 → bit_and (entry mops high_vma sp.mem f i) flag_ps ≡ 0)
        → Done (frame_of (entry mops high_vma sp.mem f i)) (i ∷ p) (j ∷ r) result
        → Done f p (i ∷ j ∷ r) result
    below-Unmapped f i j r p result owned hi there small d = record {
      tree = d.tree;
      above = λ g k q o len hk. d.above g k q o (omega arith) hk;
      gone =
          walk-present mops high_vma result.1.mem f i j r (rw kept there) (λ l. rw kept (small l))
          ∙ rw kept d.gone;
      others = d.others;
      result = rw (walk-present mops high_vma sp.mem f i j r there small) d.result;
      same_root = d.same_root;
      same_frames = d.same_frames;
      unlocked = d.unlocked;
    }
      where
        kept : entry mops high_vma result.1.mem f i ≡ entry mops high_vma sp.mem f i
        kept = d.above f i p owned (omega arith) hi

    -- All levels.
    pub unmap_levels-Unmapped :
        (i : ℕ) (is : List ℕ) (f : ℕ) (p : List ℕ)
        → owner f ≡ some p
        → length p + length is ≡ depth
        → Below (i ∷ is)
        → (result : ℕ × Sp) × (unmap_levels mops high_vma src sp vaddr f (i ∷ is) ≡ ok result)
          × Done f p (i ∷ is) result
    unfolding unmap_levels
    unmap_levels-Unmapped i [] f p owned deep below =
        (_, refl, page-Unmapped f i p owned (omega arith) below.0)
    unmap_levels-Unmapped i (j ∷ []) f p owned deep below =
        elim (Bool-cases (bit_and (entry mops high_vma sp.mem f i) flag_ps == 0)) [
          | inr e ↦
              (_, unmap-large sp vaddr f i j e, large-Unmapped f i j p owned (omega arith) below.0)
          | inl e ↦ elim (Bool-cases (bit_and (entry mops high_vma sp.mem f i) flag_p == 0)) [
            | inl e' ↦
                (_, unmap-none sp vaddr f i j e e', absent-Unmapped f i (j ∷ []) p (ground arith))
            | inr e' ↦
                let there : bit_and (entry mops high_vma sp.mem f i) flag_p ≢ 0 = ground arith in
                let small : bit_and (entry mops high_vma sp.mem f i) flag_ps ≡ 0 = ground arith in
                (
                  _,
                  unmap-small sp vaddr f i j e e',
                  below-Unmapped f i j [] p (0x1000, _) owned below.0 there (λ l. small)
                      (page-Unmapped _ j (i ∷ p)
                        (tree.links f p i owned (omega arith) below.0 there (λ l. small))
                        (omega arith) below.1.0),
                )
          ]
        ]
    unmap_levels-Unmapped i (j ∷ k ∷ r) f p owned deep below =
        elim (Bool-cases (bit_and (entry mops high_vma sp.mem f i) flag_p == 0)) [
          | inl e ↦ (
            _,
            unmap-absent sp vaddr f i j k r e,
            absent-Unmapped f i (j ∷ k ∷ r) p (ground arith),
          )
          | inr e ↦
              let there : bit_and (entry mops high_vma sp.mem f i) flag_p ≢ 0 = ground arith in
              let (result, ran, d) =
                unmap_levels-Unmapped j (k ∷ r) _ (i ∷ p)
                  (tree.links f p i owned (omega arith) below.0 there (λ l. absurd (omega arith)))
                  (omega arith) below.1 in
              (
                result,
                unmap-below sp vaddr f i j k r e ∙ ran,
                below-Unmapped f i j (k ∷ r) p result owned below.0 there
                    (λ l. absurd (omega arith)) d,
              )
        ]
