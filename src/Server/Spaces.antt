-- ===== src/Server/Spaces.antt =====
-- A new name space.
use rock.Base.{
  same_or_not, subst, ℕ, ◌<◌, ◌≡◌, ◌≢◌, refl, sym, ap, ◌∙◌, ◌⊎◌, inl, inr, Option, none, some, List,
  [], ◌∷◌, ◌++◌, length, get_elem?-append_self, get_elem?-append_lt, length-append_one, ok,
  minus_one_int, arith,
}
use rock.Fayt.Tables.{HashTable, BitmapAlloc}
use rock.Server.{Registry, new_id, create_namespace, find_server}
use rock.Server.Find.{Wf, find}

module _ (hash : HashTable ℕ) (bitmaps : BitmapAlloc) where
  open hash use {Table, search, push}

  -- the name space is there and empty, the others are as before, and the registry is well formed
  pub record Opened (st st' : Registry hash bitmaps) (name : List ℕ) : Type 0 where
    pub empty : (n : List ℕ) → find hash bitmaps st' name n ≡ ok none
    pub others : (k n : List ℕ) → k ≢ name → find hash bitmaps st' k n ≡ find hash bitmaps st k n
    pub wf : Wf hash bitmaps st'

  module _ (st : Registry hash bitmaps) (name : List ℕ) (wf : Wf hash bitmaps st)
      (fresh : search st.namespace_table name ≡ none) (table : Table)
      (pushed : push st.namespace_table name (length st.namespaces) ≡ some table) where
    made : Registry hash bitmaps
    made = record st {
      namespace_table = table;
      nid_bitmap = (new_id hash bitmaps st.nid_bitmap).1;
      namespaces =
          st.namespaces
          ++ record {
            name = name;
            nid = (new_id hash bitmaps st.nid_bitmap).0;
            sid_bitmap = bitmaps.zeroed;
            server_table = hash.zeroed;
          }
            ∷ [];
    }

    old : (k : List ℕ) → k ≢ name → search table k ≡ search st.namespace_table k
    old k ne =
        hash.search-push_ne st.namespace_table table name k (length st.namespaces) fresh pushed ne

    new : search table name ≡ some (length st.namespaces)
    new = hash.search-push st.namespace_table table name (length st.namespaces) fresh pushed

    origin :
        (k : List ℕ) (i : ℕ)
        → search table k ≡ some i
        → ((k ≡ name) × (i ≡ length st.namespaces))
          ⊎ ((search st.namespace_table k ≡ some i) × (i < length st.namespaces))
    origin k i e = elim (same_or_not k name) [
      | inl same ↦
          let here : search table k ≡ some (length st.namespaces) = ap (search table) same ∙ new in
          inl (same, cc)
      | inr ne ↦ let before = sym (old k ne) ∙ e in inr (before, wf.there k i before)
    ]

    made-Wf : Wf hash bitmaps made
    unfolding made
    made-Wf = record {
      there = λ k i e.
          let longer = length-append_one st.namespaces (record {
            name = name;
            nid = (new_id hash bitmaps st.nid_bitmap).0;
            sid_bitmap = bitmaps.zeroed;
            server_table = hash.zeroed;
          }) in
          elim (origin k i e) [
            | inl o ↦ omega (arith, longer, o.1)
            | inr o ↦ omega (arith, longer, o.1)
          ];
      apart = λ j k i e e'. elim (origin j i e) [
        | inl o ↦ elim (origin k i e') [
          | inl o' ↦ o.0 ∙ sym o'.0
          | inr o' ↦ absurd (omega (arith, o.1, o'.1))
        ]
        | inr o ↦ elim (origin k i e') [
          | inl o' ↦ absurd (omega (arith, o.1, o'.1))
          | inr o' ↦ wf.apart j k i o.0 o'.0
        ]
      ];
    }

    made_others : (k n : List ℕ) → k ≢ name → find hash bitmaps made k n ≡ find hash bitmaps st k n
    unfolding find_server made
    made_others k n ne = cases (search st.namespace_table k) refl
      where
        cases :
            (o : Option ℕ)
            → search st.namespace_table k ≡ o
            → find hash bitmaps made k n ≡ find hash bitmaps st k n
        cases none e = rw (find_server, old k ne, e) refl
        cases (some i) e =
            rw (find_server, old k ne, e, get_elem?-append_lt st.namespaces _ i (wf.there k i e))
              refl

    made_empty : (n : List ℕ) → find hash bitmaps made name n ≡ ok none
    unfolding find_server made
    made_empty n =
        rw (find_server, new, get_elem?-append_self st.namespaces _) (ap ok (hash.search-zeroed n))

  pub create_namespace-Opened :
      (st st' : Registry hash bitmaps) (name : List ℕ)
      → Wf hash bitmaps st
      → search st.namespace_table name ≡ none
      → create_namespace hash bitmaps st name ≡ (0, st')
      → Opened st st' name
  unfolding create_namespace made
  create_namespace-Opened st st' name wf fresh run =
      cases (push st.namespace_table name (length st.namespaces)) refl run
    where
      cases :
          (o : Option Table)
          → push st.namespace_table name (length st.namespaces) ≡ o
          → create_namespace hash bitmaps st name ≡ (0, st')
          → Opened st st' name
      cases none e run' =
          let number : (create_namespace hash bitmaps st name).0 ≡ minus_one_int =
            rw (create_namespace, e) refl in
          absurd (omega (arith, number, ap (λ r. r.0) run'))
      cases (some table) e run' =
          let result : create_namespace hash bitmaps st name ≡ (0, made st name wf fresh table e) =
            rw (create_namespace, made, e) refl in
          let same : made st name wf fresh table e ≡ st' = ap (λ r. r.1) (sym result ∙ run') in
          subst (λ x. Opened st x name) same
            (record {
              empty = made_empty st name wf fresh table e;
              others = made_others st name wf fresh table e;
              wf = made-Wf st name wf fresh table e;
            })
