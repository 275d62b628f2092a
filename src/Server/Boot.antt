-- ===== src/Server/Boot.antt =====
-- What becomes of a module that launch_servers boots, and where a server is entered.
use rock.Base.{
  ℕ, ◌<◌, ◌≡◌, refl, ◌⊎◌, inl, inr, false, Option, none, some, List, [], ◌∷◌, ◌++◌, length,
  get_elem?, get_elem?-set_self, length-append_one, Run, fault, Leaves, Leaves-ok, Leaves-fault,
  Leaves-bind, Leaves-if, Leaves-option, minus_one_int, arith, ◌==◌,
}
use rock.Fayt.{Rounding}
use rock.Fayt.Tables.{HashTable, BitmapAlloc}
use rock.Elf.Segments.{Memory}
use rock.Server.{Server, Registry, new_id, new_server, create_server}
use rock.Server.Launch.{LimineFile, io_name, launch_server, boot_module}

module _ (hash : HashTable ℕ) (bitmaps : BitmapAlloc) where
  -- create_server returns -1, or leaves a server without a file.
  create_server-file :
      (st : Registry hash bitmaps) (k n : List ℕ) (server : ℕ)
      → server < length st.servers
      → Leaves (create_server hash bitmaps st k n server) (λ r.
        (r.0 ≡ minus_one_int)
        ⊎ ((s : Server) × (get_elem? r.1.servers server ≡ some s) × (s.file ≡ none)))
  unfolding create_server
  create_server-file st k n server low =
      Leaves-option (hash.search st.namespace_table k) _ _ (λ e. Leaves-ok (inl refl))
        λ i at.
          Leaves-option (get_elem? st.namespaces i) _ _ (λ e. Leaves-fault)
            λ namespace there.
              let object = new_server hash bitmaps n (record {
                nid = namespace.nid;
                sid = (new_id hash bitmaps namespace.sid_bitmap).0;
              }) in
              Leaves-option (hash.push namespace.server_table n server) _ _
                (λ e. Leaves-ok (inl refl))
                λ table e.
                  Leaves-ok (inr (object, get_elem?-set_self st.servers server object low, refl))

  module _ (rounding : Rounding) (memory : Memory) (high_vma : ℕ)
      (create_blank_context : memory.State → Run (Option memory.State))
      (pmm_alloc : memory.State → ℕ → Run (ℕ × memory.State)) (files : List LimineFile) where
    launch_without_file :
        (st : Registry hash bitmaps) (p : ℕ) (object : Server) (arg : Option (List ℕ))
        (s : memory.State)
        → get_elem? st.servers p ≡ some object
        → object.file ≡ none
        → launch_server rounding memory high_vma create_blank_context pmm_alloc hash bitmaps files
            st
            (some p)
            arg
            s
          ≡ fault
    unfolding launch_server
    launch_without_file st p object arg s there bare = rw (launch_server, there, bare) refl

    -- launch_servers launches no module: where it returns for one, it returns -1.
    pub boot_module-none :
        (st : Registry hash bitmaps) (f : ℕ) (file : LimineFile) (s : memory.State)
        → Leaves
            (boot_module rounding memory high_vma create_blank_context pmm_alloc hash bitmaps files
              st f file s)
            (λ r. r.0 ≡ none)
    unfolding boot_module
    boot_module-none st f file s =
        let object : Server = record {
          name = [];
          id = record { nid = 0; sid = 0 };
          context = none;
          file = some f;
          locked = false;
        } in
        let st0 : Registry hash bitmaps = record st { servers = st.servers ++ object ∷ [] } in
        let outcome =
          create_server-file st0 io_name file.cmdline (length st.servers)
            (omega (arith, length-append_one st.servers object)) in
        Leaves-bind (create_server hash bitmaps st0 io_name file.cmdline (length st.servers)) _
          λ r e.
            Leaves-if (r.0 == minus_one_int) _ _ (λ z. Leaves-ok refl)
              λ z. elim (outcome.at r e) [
                | inl failed ↦ absurd (ground (arith, z, failed))
                | inr (object', there, bare) ↦
                    rw (launch_without_file r.1 (length st.servers) object' none s there bare)
                      Leaves-fault
              ]
