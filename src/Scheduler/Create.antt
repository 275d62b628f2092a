-- ===== src/Scheduler/Create.antt =====
-- kernel/core/scheduler.c: create_blank_context, with NEW_CONTEXT and SEARCH_CONTEXT of
-- kernel/core/server.h. A context is found by the four bytes of its identifier, as its index.
use rock.Base.{
  ℕ, zero, suc, ◌<◌, length, get_elem?, ◌≡◌, ◌≢◌, refl, sym, subst, ◌∙◌, inl, inr, false, Option,
  none, some, List, [], ◌∷◌, Run, ok, ◌>>=◌, add64, bytes_of, page_size, minus_one_int, Leaves,
  Leaves-ok, Leaves-bind, arith,
}
use rock.Fayt.{Rounding}
use rock.Fayt.Tables.{HashTable, BitmapAlloc}
use rock.Notification.Queue.{NotificationQueue, notification_max}
use rock.Notification.Calls.{context_default_stack_size}
use rock.Scheduler.Switch.{Option-cases}
use rock.Scheduler.{TaskContext}

-- `alloc` of an array of zeroed objects
abbrev pub copies : {A : Type 0} → ℕ → A → List A
copies zero a = []
copies (suc n) a = a ∷ copies n a

copies-get_elem? : {A : Type 0} (n i : ℕ) (a : A) → i < n → get_elem? (copies n a) i ≡ some a
copies-get_elem? zero i a h = absurd (omega arith)
copies-get_elem? (suc n) zero a h = refl
copies-get_elem? (suc n) (suc i) a h = copies-get_elem? n i a (omega arith)

-- vmm_default_table of a new table, pmm_alloc and the alloc of an FPU area
pub record ContextMemory : Type 1 where
  pub State : Type 0
  pub default_table : State → Run (ℕ × State)
  pub pmm_alloc : State → ℕ → ℕ → Run (ℕ × State)
  pub alloc_fpu : State → ℕ × State

module _ (hash : HashTable ℕ) (bitmaps : BitmapAlloc) where
  -- cid_bitmap and context_table
  pub record ContextTable : Type 0 where
    pub cid_bitmap : bitmaps.Bitmap
    pub context_table : hash.Table

  -- SEARCH_CONTEXT
  unfoldable pub search_context : ContextTable → ℕ → Option ℕ
  search_context t cid = hash.search t.context_table (bytes_of 4 cid)

  -- NEW_CONTEXT of the context at `index`
  unfoldable pub new_context : ContextTable → ℕ → TaskContext → ℕ × TaskContext × ContextTable
  new_context t index c = elim (bitmaps.bitmap_alloc t.cid_bitmap) [
    | none ↦ (minus_one_int, c, t)
    | some (cid, bitmap) ↦
        let named = record c { cid = cid } in
        elim (hash.push t.context_table (bytes_of 4 cid) index) [
          | none ↦ (minus_one_int, named, record t { cid_bitmap = bitmap })
          | some table ↦ (0, named, record { cid_bitmap = bitmap; context_table = table })
        ]
  ]

  -- what NEW_CONTEXT does where the identifier is new
  abbrev Named : ContextTable → ℕ → TaskContext → ℕ × TaskContext × ContextTable → Type 0
  Named t index c r =
      r.0 ≡ 0
      → search_context t r.1.cid ≡ none
      → (search_context r.2 r.1.cid ≡ some index)
        × ((cid : ℕ)
            → bytes_of 4 cid ≢ bytes_of 4 r.1.cid
            → search_context r.2 cid ≡ search_context t cid)
        × (r.1 ≡ record c { cid = r.1.cid })

  new_context-Named :
      (t : ContextTable) (index : ℕ) (c : TaskContext) → Named t index c (new_context t index c)
  unfolding new_context search_context
  new_context-Named t index c = elim (Option-cases (bitmaps.bitmap_alloc t.cid_bitmap)) [
    | inl e ↦ rw (new_context, e) (λ z fresh. absurd (omega (arith, z)))
    | inr (r, e) ↦ elim (Option-cases (hash.push t.context_table (bytes_of 4 r.0) index)) [
      | inl e' ↦ rw (new_context, e, e') (λ z fresh. absurd (omega (arith, z)))
      | inr (table, e') ↦
          rw (new_context, e, e')
            (λ z fresh. (
              hash.search-push t.context_table table (bytes_of 4 r.0) index fresh e',
              (λ cid ne.
                  hash.search-push_ne t.context_table table (bytes_of 4 r.0) (bytes_of 4 cid) index
                    fresh e' ne),
              refl,
            ))
    ]
  ]

  module _ (memory : ContextMemory) (rounding : Rounding) (high_vma : ℕ) where
    open memory use {State, default_table, pmm_alloc, alloc_fpu}

    -- the context before NEW_CONTEXT
    abbrev pub blank : TaskContext → ℕ → ℕ → ℕ → TaskContext
    blank c table frames fpu = record c {
      page_table = table;
      sysperm = 0;
      kernel_stack = record c.kernel_stack {
        sp = add64 (add64 frames context_default_stack_size) high_vma;
        size = context_default_stack_size;
      };
      notification = record c.notification {
        actions = copies notification_max (record { handler = 0 });
        queue = some (record {
          queue = copies notification_max [];
          mask = 0;
          active = false;
          pending = 0;
          locked = false;
        });
      };
      fpu_context = fpu;
    }

    unfoldable pub create_blank_context :
        State
        → ContextTable
        → ℕ
        → Option TaskContext
        → Run (ℕ × Option TaskContext × ContextTable × State)
    create_blank_context s t index none = ok (minus_one_int, none, t, s)
    create_blank_context s t index (some c) = do
      table ← default_table s
      frames ← pmm_alloc table.1 (rounding.div_roundup context_default_stack_size page_size) 1
      let fpu = alloc_fpu frames.1
      let made = new_context t index (blank c table.0 frames.0 fpu.0)
      ok (made.0, some made.1, made.2, fpu.1)

    -- what a context that create_blank_context made is like
    pub record Created (before after : ContextTable) (index : ℕ) (c : TaskContext) : Type 0 where
      pub is_found : search_context after c.cid ≡ some index
      pub same_others :
          (cid : ℕ)
          → bytes_of 4 cid ≢ bytes_of 4 c.cid
          → search_context after cid ≡ search_context before cid
      pub nothing_denied : c.sysperm ≡ 0
      pub queue : NotificationQueue
      pub has_queue : c.notification.queue ≡ some queue
      pub inactive : queue.active ≡ false
      pub nothing_pending : queue.pending ≡ 0
      pub open_lock : queue.locked ≡ false
      pub slots : length queue.queue ≡ notification_max
      pub empty_slots : (i : ℕ) → i < notification_max → get_elem? queue.queue i ≡ some []
      pub stack_size : c.kernel_stack.size ≡ context_default_stack_size

    create_blank_context-new :
        (s : State) (t : ContextTable) (index : ℕ) (c : TaskContext)
        → Leaves (create_blank_context s t index (some c)) (λ r.
          (table : ℕ) × (frames : ℕ) × (fpu : ℕ) × (r.0
            ≡ (new_context t index (blank c table frames fpu)).0)
          × (r.1 ≡ some (new_context t index (blank c table frames fpu)).1)
          × (r.2 ≡ (new_context t index (blank c table frames fpu)).2))
    unfolding create_blank_context
    create_blank_context-new s t index c = Leaves-bind (default_table s) _ λ table e.
        Leaves-bind
          (pmm_alloc table.1 (rounding.div_roundup context_default_stack_size page_size) 1) _
          λ frames e'. Leaves-ok (table.0, frames.0, (alloc_fpu frames.1).0, refl, refl, refl)

    -- A create_blank_context that returns 0, where the identifier it takes is new, makes a context
    -- that its identifier finds, leaves what every other identifier finds, and gives the context a
    -- sysperm of 0, which denies it no system call, a notification queue that is inactive and open,
    -- with 64 slots, all of them empty, and nothing pending, and a stack of the default size.
    pub create_blank_context-Created :
        (s s' : State) (t t' : ContextTable) (index : ℕ) (c c' : TaskContext)
        → search_context t c'.cid ≡ none
        → create_blank_context s t index (some c) ≡ ok (0, some c', t', s')
        → Created t t' index c'
    create_blank_context-Created s s' t t' index c c' fresh run =
        let (table, frames, fpu, zero_made, is_made, is_table) =
          (create_blank_context-new s t index c).at (0, some c', t', s') run in
        let made = new_context t index (blank c table frames fpu) in
        let is : c' ≡ made.1 = cc in
        let named =
          new_context-Named t index (blank c table frames fpu) (sym zero_made)
            (subst (λ x. search_context t x.cid ≡ none) is fresh) in
        let created : Created t made.2 index
            (record (blank c table frames fpu) { cid = made.1.cid }) =
          record {
            is_found = named.0;
            same_others = named.1;
            nothing_denied = refl;
            queue = _;
            has_queue = refl;
            inactive = refl;
            nothing_pending = refl;
            open_lock = refl;
            slots = refl;
            empty_slots = λ i h. copies-get_elem? notification_max i [] h;
            stack_size = refl;
          } in
        subst (λ x. Created t x index c') (sym is_table)
          (subst (λ x. Created t made.2 index x) (sym (is ∙ named.2)) created)
