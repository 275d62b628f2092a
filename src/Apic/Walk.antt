-- ===== src/Apic/Walk.antt =====
-- kernel/arch/x86/apic.c: the walk over a table whose entries stand one behind the other.
use rock.Base.{
  ℕ, zero, suc, ◌+◌, ◌^◌, ◌<◌, ◌≤◌, ◌≡◌, refl, sym, ap, ◌∙◌, subst, true, false, List, [], ◌∷◌,
  ◌++◌, ltb, length, ok, add64, sub64, arith,
}
use rock.Apic.{MadtLists, read, push_entry, walk_madt, madt_hdr_size, no_entries, parse_madt}
use rock.Apic.Bytes.{length-append, append_assoc, read-part, read-start}
use rock.Apic.Entries.{
  Entry, ent0, ent1, ent2, ent4, ent5, other, kind_of, payload, encode, encode_all, Fits, AllFit,
  add_entry, add_all, push-encode,
}

payload_lt : (e : Entry) → Fits e → length (payload e) < 254
payload_lt (ent0 e) f = omega arith
payload_lt (ent1 e) f = omega arith
payload_lt (ent2 e) f = omega arith
payload_lt (ent4 e) f = omega arith
payload_lt (ent5 e) f = omega arith
payload_lt (other kind bytes) f = f.2

walk-end :
    (fuel : ℕ) (entries : List ℕ) (limit i : ℕ) (l : MadtLists)
    → limit ≤ i
    → walk_madt fuel entries limit i l ≡ ok l
unfolding walk_madt
walk-end zero entries limit i l h =
    let stop : ltb i limit ≡ false = ground (arith, h) in rw (walk_madt, stop) refl
walk-end (suc fuel) entries limit i l h =
    let stop : ltb i limit ≡ false = ground (arith, h) in rw (walk_madt, stop) refl

walk-step :
    (fuel : ℕ) (entries : List ℕ) (limit i kind size next : ℕ) (l l' : MadtLists)
    → i < limit
    → limit < 2 ^ 63
    → read entries i 1 ≡ ok kind
    → read entries (i + 1) 1 ≡ ok size
    → push_entry entries kind (i + 2) l ≡ ok l'
    → next ≡ i + size
    → size < 256
    → 1 ≤ size
    → walk_madt (suc fuel) entries limit i l ≡ walk_madt fuel entries limit next l'
unfolding walk_madt
walk-step fuel entries limit i kind size next l l' h w r_kind r_size pushed to small some_size =
    let on : ltb i limit ≡ true = ground (arith, h) in
    let one : add64 i 1 ≡ i + 1 = omega (arith, h, w) in
    let two : add64 i 2 ≡ i + 2 = omega (arith, h, w) in
    let past : add64 (sub64 (add64 (i + 2) size) 3) 1 ≡ next =
      omega (arith, h, w, to, small, some_size) in
    rw (walk_madt, on, one, two, r_kind, r_size, pushed, past) refl

-- The loop from the entry behind `xs` on, with a round for each entry that is left.
walk_madt-encode_all :
    (fuel : ℕ) (xs : List ℕ) (es : List Entry) (l : MadtLists)
    → AllFit es
    → length (xs ++ encode_all es) < 2 ^ 63
    → walk_madt
        (length es + fuel)
        (xs ++ encode_all es)
        (length (xs ++ encode_all es))
        (length xs)
        l
      ≡ ok (add_all es l)
walk_madt-encode_all fuel xs [] l f h =
    walk-end (0 + fuel) (xs ++ []) (length (xs ++ [])) (length xs) l
      (omega (arith, length-append xs []))
walk_madt-encode_all fuel xs (e ∷ es) l (f, fs) h =
    let table = xs ++ (encode e ++ encode_all es) in
    let rest = payload e ++ encode_all es in
    let size = length (payload e) + 2 in
    let start : List ℕ = kind_of e ∷ size ∷ [] in
    let len = length-append xs (encode e ++ encode_all es) in
    let len_e = length-append (encode e) (encode_all es) in
    let len_start = length-append xs start in
    let len_next = length-append xs (encode e) in
    let r_kind : read table (length xs) 1 ≡ ok (kind_of e) =
      read-start xs rest start 1 (omega arith) ∙ ap ok (omega arith) in
    let r_size : read table (length xs + 1) 1 ≡ ok size =
      read-part xs start rest 1 1 (omega arith) ∙ ap ok (omega arith) in
    let pushed : push_entry table (kind_of e) (length xs + 2) l ≡ ok (add_entry e l) =
      subst (λ i. push_entry table (kind_of e) i l ≡ ok (add_entry e l)) len_start
        (subst (λ t. push_entry t (kind_of e) (length (xs ++ start)) l ≡ ok (add_entry e l))
          (sym (append_assoc xs start rest)) (push-encode (xs ++ start) (encode_all es) e l f)) in
    let short = payload_lt e f in
    let step =
      walk-step (length es + fuel) table (length table) (length xs) (kind_of e) size
        (length (xs ++ encode e)) l (add_entry e l) (omega (arith, len, len_e)) h r_kind r_size
        pushed (omega (arith, len_next)) (omega (arith, short)) (omega arith) in
    let whole = append_assoc xs (encode e) (encode_all es) in
    let left =
      subst
        (λ t.
          walk_madt (length es + fuel) t (length t) (length (xs ++ encode e)) (add_entry e l)
          ≡ ok (add_all es (add_entry e l)))
        (sym whole)
        (walk_madt-encode_all fuel (xs ++ encode e) es (add_entry e l) fs
          (subst (λ t. length t < 2 ^ 63) whole h)) in
    let rounds : suc (length es + fuel) ≡ suc (length es) + fuel = omega arith in
    subst (λ n. walk_madt n table (length table) (length xs) l ≡ ok (add_all es (add_entry e l)))
      rounds (step ∙ left)

-- A table of less than 2 ^ 63 bytes whose entries fit their fields and stand one behind the other
-- is parsed into the lists of its entries, each in the order of the table, with a round of the loop
-- for each entry. The length of its header is that of the header and of all entries.
pub parse_madt-encode_all :
    (es : List Entry)
    → AllFit es
    → length (encode_all es) < 2 ^ 63
    → parse_madt (length es) (encode_all es) (madt_hdr_size + length (encode_all es))
      ≡ ok (add_all es no_entries)
unfolding parse_madt
parse_madt-encode_all es f h =
    let limit : sub64 (madt_hdr_size + length (encode_all es)) madt_hdr_size
        ≡ length (encode_all es) =
      omega (arith, h) in
    let rounds : length es + 0 ≡ length es = omega arith in
    subst
      (λ n.
        walk_madt n (encode_all es) (sub64 (madt_hdr_size + length (encode_all es)) madt_hdr_size) 0
          no_entries
        ≡ ok (add_all es no_entries))
      rounds (rw limit (walk_madt-encode_all 0 [] es no_entries f h))
