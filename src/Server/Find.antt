-- ===== src/Server/Find.antt =====
-- What find_server finds after create_namespace and create_server.
use rock.Base.{
  ℕ, ◌<◌, ◌≡◌, ◌≢◌, refl, sym, ap, ◌∙◌, ◌⊎◌, inl, inr, Option, none, some, List, length, get_elem?,
  set, get_elem?-set_self, get_elem?-set_ne, get_elem?-lt, length-set, Run, ok, Leaves, Leaves-ok,
  Leaves-fault, Leaves-option, Bool-cases, ◌==◌, arith,
}
use rock.Fayt.Tables.{HashTable, BitmapAlloc}
use rock.Server.{Server, Namespace, Registry, new_id, new_server, create_server, find_server}

module _ (hash : HashTable ℕ) (bitmaps : BitmapAlloc) where
  open hash use {search, push}

  -- Each name that is found leads to a name space, and no two names to the same.
  pub record Wf (st : Registry hash bitmaps) : Type 0 where
    pub there :
        (k : List ℕ) (i : ℕ) → search st.namespace_table k ≡ some i → i < length st.namespaces
    pub apart :
        (j k : List ℕ) (i : ℕ)
        → search st.namespace_table j ≡ some i
        → search st.namespace_table k ≡ some i
        → j ≡ k

  abbrev pub find : Registry hash bitmaps → List ℕ → List ℕ → Run (Option ℕ)
  find st k n = find_server hash bitmaps st k n

  -- the server is found, no other name leads elsewhere than before, and the registry is well formed
  pub record Created (st st' : Registry hash bitmaps) (namespace_name name : List ℕ) (server : ℕ)
      : Type 0 where
    pub found : find st' namespace_name name ≡ ok (some server)
    pub others : (k n : List ℕ) → (k ≢ namespace_name) ⊎ (n ≢ name) → find st' k n ≡ find st k n
    pub wf : Wf st'

  module _ (st : Registry hash bitmaps) (wf : Wf st) (k n : List ℕ) (i : ℕ)
      (namespace : Namespace hash bitmaps) (at : search st.namespace_table k ≡ some i)
      (there : get_elem? st.namespaces i ≡ some namespace) (servers : List Server) where
    updated : Namespace hash bitmaps → Registry hash bitmaps
    updated new = record st { servers = servers; namespaces = set st.namespaces i new }

    updated_self :
        (new : Namespace hash bitmaps) (m : List ℕ)
        → find (updated new) k m ≡ ok (search new.server_table m)
    unfolding find_server updated
    updated_self new m =
        rw
          (
            find_server,
            at,
            get_elem?-set_self st.namespaces i new (get_elem?-lt st.namespaces i there),
          )
          refl

    updated-Wf : (new : Namespace hash bitmaps) → Wf (updated new)
    unfolding updated
    updated-Wf new = record {
      there = λ j i' e. omega (arith, length-set st.namespaces i new, wf.there j i' e);
      apart = wf.apart;
    }

    updated_others :
        (new : Namespace hash bitmaps) (j m : List ℕ)
        → (j ≢ k) ⊎ (search new.server_table m ≡ search namespace.server_table m)
        → find (updated new) j m ≡ find st j m
    unfolding find_server updated
    updated_others new j m other = cases (search st.namespace_table j) refl
      where
        cases :
            (o : Option ℕ) → search st.namespace_table j ≡ o → find (updated new) j m ≡ find st j m
        cases none e = rw (find_server, e) refl
        cases (some i') e = elim (Bool-cases (i == i')) [
          | inl same ↦
              let eq : i ≡ i' = ground (arith, same) in
              elim other [
                | inl ne ↦ absurd (ne (wf.apart j k i (rw eq e) at))
                | inr kept ↦
                    rw
                      (
                        find_server,
                        e,
                        sym eq,
                        get_elem?-set_self st.namespaces i new (get_elem?-lt st.namespaces i there),
                        there,
                        kept,
                      )
                      refl
              ]
          | inr apart ↦
              let ne : i ≢ i' = ground (arith, apart) in
              rw (find_server, e, get_elem?-set_ne st.namespaces i i' new ne) refl
        ]

    find_there : (m : List ℕ) → find st k m ≡ ok (search namespace.server_table m)
    unfolding find_server
    find_there m = rw (find_server, at, there) refl

    updated-Created :
        (new : Namespace hash bitmaps) (server : ℕ)
        → search namespace.server_table n ≡ none
        → push namespace.server_table n server ≡ some new.server_table
        → Created st (updated new) k n server
    updated-Created new server fresh pushed = record {
      found =
          updated_self new n
          ∙ ap ok (hash.search-push namespace.server_table new.server_table n server fresh pushed);
      others = λ j m other. updated_others new j m (elim other [
        | inl ne ↦ inl ne
        | inr ne ↦
            inr (
              hash.search-push_ne namespace.server_table new.server_table n m server fresh pushed
                ne)
      ]);
      wf = updated-Wf new;
    }

  create_server_finds :
      (st : Registry hash bitmaps) (k n : List ℕ) (server : ℕ)
      → Wf st
      → find st k n ≡ ok none
      → Leaves (create_server hash bitmaps st k n server) (λ r. r.0 ≡ 0 → Created st r.1 k n server)
  unfolding create_server updated
  create_server_finds st k n server wf fresh =
      Leaves-option (search st.namespace_table k) _ _ (λ e. Leaves-ok (λ z. absurd (omega arith)))
        λ i at.
          Leaves-option (get_elem? st.namespaces i) _ _ (λ e. Leaves-fault)
            λ namespace there.
              let servers = set st.servers server (
                new_server hash bitmaps n (record {
                  nid = namespace.nid;
                  sid = (new_id hash bitmaps namespace.sid_bitmap).0;
                })) in
              let seen = find_there st wf k n i namespace at there servers n in
              let none_yet : search namespace.server_table n ≡ none = cc in
              Leaves-option (push namespace.server_table n server) _ _
                (λ e. Leaves-ok (λ z. absurd (omega arith)))
                λ table e. Leaves-ok (λ z.
                  updated-Created st wf k n i namespace at there servers
                    (record namespace {
                      sid_bitmap = (new_id hash bitmaps namespace.sid_bitmap).1;
                      server_table = table;
                    })
                    server none_yet e)

  -- In a well-formed registry, where the name is new to the name space: a create_server that returns
  -- 0 makes find_server of the two names give the server, leaves what every other pair of names
  -- finds, and leaves the registry well formed.
  pub create_server-Created :
      (st st' : Registry hash bitmaps) (k n : List ℕ) (server : ℕ)
      → Wf st
      → find st k n ≡ ok none
      → create_server hash bitmaps st k n server ≡ ok (0, st')
      → Created st st' k n server
  create_server-Created st st' k n server wf fresh run =
      (create_server_finds st k n server wf fresh).at (0, st') run refl
