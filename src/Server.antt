-- ===== src/Server.antt =====
-- kernel/core/server.c and kernel/core/server.h: name spaces and servers.
-- A string is its bytes. A name space and a server that were allocated are entries of lists, and a
-- pointer is an index. That memory runs out is not modelled.
pub mod Find
pub mod Spaces
pub mod Launch
pub mod Boot
pub mod Enter
mod Tests
use rock.Base.{
  ℕ, zero, suc, ◌+◌, Bool, true, false, Option, none, some, List, [], ◌∷◌, ◌++◌, length, get_elem?,
  set, Run, ok, fault, ◌>>=◌, minus_one_int,
}
use rock.Fayt.Tables.{HashTable, BitmapAlloc}

pub record ServerId : Type 0 where
  pub nid : ℕ
  pub sid : ℕ

-- `file` and `context` are pointers
pub record Server : Type 0 where
  pub name : List ℕ
  pub id : ServerId
  pub context : Option ℕ
  pub file : Option ℕ
  pub locked : Bool

module _ (hash : HashTable ℕ) (bitmaps : BitmapAlloc) where
  open hash use {Table, search, push}
  open bitmaps use {Bitmap, bitmap_alloc}

  pub record Namespace : Type 0 where
    pub name : List ℕ
    pub nid : ℕ
    pub sid_bitmap : Bitmap
    pub server_table : Table

  -- the tables of the kernel and what they point to
  pub record Registry : Type 0 where
    pub namespace_table : Table
    pub nid_bitmap : Bitmap
    pub namespaces : List Namespace
    pub servers : List Server

  -- the number that `bitmap_alloc` gives, or -1
  abbrev pub new_id : Bitmap → ℕ × Bitmap
  new_id b = elim (bitmap_alloc b) [ none ↦ (minus_one_int, b) | some r ↦ r ]

  unfoldable pub create_namespace : Registry → List ℕ → ℕ × Registry
  create_namespace st name =
      let id = new_id st.nid_bitmap in
      let namespace : Namespace = record {
        name = name;
        nid = id.0;
        sid_bitmap = bitmaps.zeroed;
        server_table = hash.zeroed;
      } in
      let made = record st { nid_bitmap = id.1; namespaces = st.namespaces ++ namespace ∷ [] } in
      elim (push st.namespace_table name (length st.namespaces)) [
        | none ↦ (minus_one_int, made)
        | some table ↦ (0, record made { namespace_table = table })
      ]

  -- `*server`, which create_server writes as a whole
  abbrev pub new_server : List ℕ → ServerId → Server
  new_server name id = record { name = name; id = id; context = none; file = none; locked = false }

  unfoldable pub create_server : Registry → List ℕ → List ℕ → ℕ → Run (ℕ × Registry)
  create_server st namespace_name name server = elim (search st.namespace_table namespace_name) [
    | none ↦ ok (minus_one_int, st)
    | some i ↦ elim (get_elem? st.namespaces i) [
      | none ↦ fault
      | some namespace ↦
          let id = new_id namespace.sid_bitmap in
          let written =
            set st.servers server (new_server name (record { nid = namespace.nid; sid = id.0 })) in
          elim (push namespace.server_table name server) [
            | none ↦ ok (
              minus_one_int,
              record st {
                servers = written;
                namespaces = set st.namespaces i (record namespace { sid_bitmap = id.1 });
              },
            )
            | some table ↦ ok (
              0,
              record st {
                servers = written;
                namespaces =
                    set st.namespaces i
                      (record namespace { sid_bitmap = id.1; server_table = table });
              },
            )
          ]
    ]
  ]

  -- `none` is NULL
  unfoldable pub find_server : Registry → List ℕ → List ℕ → Run (Option ℕ)
  find_server st namespace_name server_name = elim (search st.namespace_table namespace_name) [
    | none ↦ ok none
    | some i ↦ elim (get_elem? st.namespaces i) [
      | none ↦ fault
      | some namespace ↦ ok (search namespace.server_table server_name)
    ]
  ]
