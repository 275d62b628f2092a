-- ===== src/Paging/Ensure.antt =====
-- Making sure that an entry leads to a table: both branches of `ensure_table`.
use rock.Base.{
  ℕ, zero, suc, ◌+◌, ◌<◌, ◌≡◌, ◌≢◌, refl, ap, inl, inr, bit_and, false, Option, some, List, [], ◌∷◌,
  length, ◌==◌, ok, minus_one, Bool-cases, arith,
}
use rock.Fayt.{MemOps}
use rock.Paging.{flag_p, Space, entry_at, write_entry, ensure_table}
use rock.Paging.Source.{FrameSource}
use rock.Paging.Entry.{IsFrame}
use rock.Paging.Walk.{cell, entry, IsTree, IsDirectMap}
use rock.Paging.Grow.{
  IsLink, own, a-IsFrame, grown_same, grown_link, grown_zero, grown-extends, grown_walks,
  grown-IsTree,
}
use rock.Paging.Map.{Supply, NoHuge, Ensured}

module _ (mops : MemOps) (high_vma : ℕ) (src : FrameSource mops high_vma)
    (dm : IsDirectMap high_vma) where
  abbrev Sp : Type 0
  Sp = Space mops high_vma src

  pub Supply-fewer :
      (n : ℕ) (s : src.S) → Supply mops high_vma src (suc n) s → Supply mops high_vma src n s
  Supply-fewer zero s h = tt
  Supply-fewer (suc n) s h =
      λ m. let (a, s', m', got, ne, more) = h m in (a, s', m', got, ne, Supply-fewer n s' more)

  -- the space once the entry at `e` leads to a new frame
  abbrev linked : (ℕ → ℕ) → Sp → ℕ → ℕ → src.S → mops.Mem → Sp
  linked link sp e a s' m' =
      write_entry mops high_vma src (record sp { frames = s'; mem = m' }) e (link a)

  ensure-absent :
      (link : ℕ → ℕ) (sp : Sp) (e a : ℕ) (s' : src.S) (m' : mops.Mem)
      → bit_and (entry_at mops high_vma src sp e) flag_p ≡ 0
      → src.alloc_page sp.frames sp.mem ≡ ok (a, s', m')
      → ensure_table mops high_vma src link sp e ≡ ok (linked link sp e a s' m')
  unfolding ensure_table
  ensure-absent link sp e a s' m' h alloc = rw (ensure_table, h, alloc) refl

  ensure-present :
      (link : ℕ → ℕ) (sp : Sp) (e : ℕ)
      → (bit_and (entry_at mops high_vma src sp e) flag_p == 0) ≡ false
      → ensure_table mops high_vma src link sp e ≡ ok sp
  unfolding ensure_table
  ensure-present link sp e h = rw (ensure_table, h) refl

  module _ (depth : ℕ) (sp : Sp) (owner : ℕ → Option (List ℕ)) (f i j : ℕ) (p r : List ℕ)
      (link : ℕ → ℕ) (is_link : IsLink link)
      (tree : IsTree mops high_vma src depth sp.mem sp.frames owner) (owned : owner f ≡ some p)
      (deep : length p + length r + 1 ≡ depth) (hi : i < 512) (hj : j < 512) where
    present-Ensured :
        bit_and (entry mops high_vma sp.mem f i) flag_p ≢ 0
        → NoHuge mops high_vma src sp.mem f (i ∷ j ∷ r)
        → Ensured mops high_vma src depth sp sp owner owner f p i j r
    present-Ensured there no_huge = record {
      tree = tree;
      extends = λ g q h. h;
      above = λ g k q h len hk. refl;
      present = there;
      small = (no_huge there).0;
      child = tree.links f p i owned (omega arith) hi there (λ l. (no_huge there).0 (omega arith));
      no_huge = (no_huge there).1;
      walks = λ js g q h len below. refl;
      same_root = refl;
      same_flushed = refl;
    }

    module _ (a : ℕ) (s' : src.S) (m' : mops.Mem)
        (absent : bit_and (entry mops high_vma sp.mem f i) flag_p ≡ 0)
        (alloc : src.alloc_page sp.frames sp.mem ≡ ok (a, s', m')) (got : a ≢ minus_one) where
      abbrev here : Sp
      here = linked link sp (cell mops high_vma f i) a s' m'

      absent-Ensured : Ensured mops high_vma src depth sp here owner (own owner a (i ∷ p)) f p i j r
      absent-Ensured = record {
        tree =
            grown-IsTree mops high_vma src dm depth sp.mem m' sp.frames s' owner f i a p link
              is_link tree owned (omega arith) hi absent alloc got;
        extends =
            grown-extends mops high_vma src dm depth sp.mem m' sp.frames s' owner f i a p link
              is_link tree owned (omega arith) hi absent alloc got;
        above = λ g k q h len hk.
            grown_same mops high_vma src dm depth sp.mem m' sp.frames s' owner f i a p link is_link
              tree owned (omega arith) hi absent alloc got g k q h hk (inl (other_table g q h len));
        present = rw link_here (omega (arith, is_link.present a frame));
        small = λ l. rw link_here (is_link.small a frame);
        child = rw (link_here, is_link.to_frame a frame) (ground arith);
        no_huge = rw (link_here, is_link.to_frame a frame) (empty r);
        walks =
            grown_walks mops high_vma src dm depth sp.mem m' sp.frames s' owner f i a p link is_link
              tree owned (omega arith) hi absent alloc got;
        same_root = refl;
        same_flushed = refl;
      }
        where
          link_here : entry mops high_vma here.mem f i ≡ link a
          link_here =
              grown_link mops high_vma src dm depth sp.mem m' sp.frames s' owner f i a p link
                is_link tree owned (omega arith) hi absent alloc got

          frame : IsFrame a
          frame =
              a-IsFrame mops high_vma src dm depth sp.mem m' sp.frames s' owner f i a p link is_link
                tree owned (omega arith) hi absent alloc got

          other_table : (g : ℕ) (q : List ℕ) → owner g ≡ some q → length q < length p → g ≢ f
          other_table g q o len e =
              let same_path : q ≡ p = cc in absurd (omega (arith, ap length same_path))

          empty : (t : List ℕ) → NoHuge mops high_vma src here.mem a (j ∷ t)
          empty [] = tt
          empty (k ∷ t) = λ there. absurd (
              there (
                rw (
                  grown_zero mops high_vma src dm depth sp.mem m' sp.frames s' owner f i a p link
                    is_link tree owned (omega arith) hi absent alloc got j hj)))

    -- With a frame to be had, `ensure_table` returns, and the entry leads to a table.
    pub ensure_table-Ensured :
        (n : ℕ)
        → Supply mops high_vma src (suc n) sp.frames
        → NoHuge mops high_vma src sp.mem f (i ∷ j ∷ r)
        → (sp1 : Sp) × (owner1 : ℕ → Option (List ℕ)) × (ensure_table mops high_vma src link sp
              (cell mops high_vma f i)
            ≡ ok sp1)
          × Ensured mops high_vma src depth sp sp1 owner owner1 f p i j r
          × Supply mops high_vma src n sp1.frames
    ensure_table-Ensured n supply no_huge =
        elim (Bool-cases (bit_and (entry mops high_vma sp.mem f i) flag_p == 0)) [
          | inl e ↦
              let (a, s', m', alloc, got, more) = supply sp.mem in
              let absent : bit_and (entry mops high_vma sp.mem f i) flag_p ≡ 0 = ground arith in
              (
                linked link sp (cell mops high_vma f i) a s' m',
                own owner a (i ∷ p),
                ensure-absent link sp _ a s' m' absent alloc,
                absent-Ensured a s' m' absent alloc got,
                more,
              )
          | inr e ↦ (
            sp,
            owner,
            ensure-present link sp _ e,
            present-Ensured (ground arith) no_huge,
            Supply-fewer n sp.frames supply,
          )
        ]
