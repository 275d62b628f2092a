-- ===== src/Elf/Validate.antt =====
-- What elf64_validate accepts.
use rock.Base.{
  ℕ, ◌≡◌, refl, ap, ◌⊎◌, inl, inr, true, false, Bool, Option, none, some, ◌==◌, ==_iff, not, ◌&&◌,
  get_elem?, take, minus_one_int, if◌then◌else◌,
}
use rock.Elf.{ElfHdr, ident_is, little_endian, elf_signature, elf64_validate}

-- what the identification of a header says
pub record Identified (h : ElfHdr) : Type 0 where
  pub signature : little_endian (take 4 h.ident) ≡ elf_signature
  pub class : get_elem? h.ident 4 ≡ some 2
  pub order : get_elem? h.ident 5 ≡ some 1
  pub abi : (get_elem? h.ident 7 ≡ some 0) ⊎ (get_elem? h.ident 7 ≡ some 3)
  pub processor : (h.machine ≡ 0x3e) ⊎ (h.machine ≡ 0)

refused :
    (t : Bool) (x : ℕ)
    → ((if t then minus_one_int else x) == minus_one_int) ≡ false
    → (t ≡ false) × ((x == minus_one_int) ≡ false)
refused true x e = absurd cc
refused false x e = (refl, e)

not-false : (a : Bool) → not a ≡ false → a ≡ true
not-false true e = refl
not-false false e = absurd cc

either : (a b : Bool) → (not a && not b) ≡ false → (a ≡ true) ⊎ (b ≡ true)
either true b e = inl refl
either false b e = inr (not-false b e)

ident_is-there : (h : ElfHdr) (at v : ℕ) → ident_is h at v ≡ true → get_elem? h.ident at ≡ some v
ident_is-there h at v e = found (get_elem? h.ident at) e
  where
    found :
        (o : Option ℕ)
        → elim o as (λ t. Bool) [ none ↦ false | some b ↦ b == v ] ≡ true
        → o ≡ some v
    found none e = absurd cc
    found (some b) e = ap some ((==_iff b v).0 e)

-- What elf64_validate does not refuse is a little-endian 64-bit file for this system and processor.
pub validate-Identified : (h : ElfHdr) → (elf64_validate h == minus_one_int) ≡ false → Identified h
unfolding elf64_validate
validate-Identified h e =
    let signed = refused _ _ e in
    let system = refused _ _ signed.1 in
    let ordered = refused _ _ system.1 in
    let classed = refused _ _ ordered.1 in
    let made = refused _ _ classed.1 in
    record {
      signature = (==_iff _ _).0 (not-false _ signed.0);
      class = ident_is-there h 4 2 (not-false _ classed.0);
      order = ident_is-there h 5 1 (not-false _ ordered.0);
      abi = elim (either _ _ system.0) [
        | inl x ↦ inl (ident_is-there h 7 0 x)
        | inr x ↦ inr (ident_is-there h 7 3 x)
      ];
      processor = elim (either _ _ made.0) [
        | inl x ↦ inl ((==_iff _ _).0 x)
        | inr x ↦ inr ((==_iff _ _).0 x)
      ];
    }
