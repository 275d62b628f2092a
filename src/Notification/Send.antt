-- ===== src/Notification/Send.antt =====
-- What notification_send accepts, and what NOTIFICATION_PUSH records.
use native.Mathlib.Decide.{ℕ_discrete}
use rock.Base.{
  ℕ, suc, ◌-◌, ◌%◌, ◌^◌, ◌≤◌, ◌<◌, ◌≡◌, ◌≢◌, ◌⊎◌, inl, inr, refl, sym, ap, ◌∙◌, Option, none, some,
  List, ◌∷◌, length, get_elem?, set, get_elem?-set_self, get_elem?-set_ne, get_elem?-lt,
  get_elem?-outside, sign_extend, minus_one_int, ok, fault, if◌then◌else◌, ◌==◌, max, bit, bit-le,
  bit-bit_or, bit_or, arith,
}
use rock.Base.Bits.Low.{bit-int, bit-sign_extend, bit-pow_self, bit-pow_ne, int-or_high}
use rock.Notification.Queue.{
  Notification, NotificationQueue, slot_of, notification_mask, set_pending, notification_push,
}
use rock.Notification.{
  Context, Weights, not_sent, notification_is_valid, notification_check_perms, notification_send,
}

abbrev IsNumber : ℕ → Type 0
IsNumber n = (1 ≤ n) × (n ≤ 64)

valid-zero : (n : ℕ) → IsNumber n → notification_is_valid n ≡ 0
unfolding notification_is_valid
valid-zero n h = ground (arith, h.0, h.1)

invalid-minus_one :
    (n : ℕ) → n < 2 ^ 32 → (n ≡ 0) ⊎ (64 < n) → notification_is_valid n ≡ minus_one_int
unfolding notification_is_valid
invalid-minus_one n w (inl h) = ground arith
invalid-minus_one n w (inr h) = ground arith

slot-bad :
    (q : NotificationQueue) (n : ℕ) → length q.queue ≡ 64 → (n ≡ 0) ⊎ (64 < n) → slot_of q n ≡ fault
slot-bad q n len (inl h) = ground arith
slot-bad q n len (inr h) = ground (arith, get_elem?-outside q.queue (n - 1) (omega arith))

slot-good :
    (q : NotificationQueue) (n : ℕ) (l : List Notification)
    → IsNumber n
    → get_elem? q.queue (n - 1) ≡ some l
    → slot_of q n ≡ ok l
slot-good q n l h e = let (lo, hi) = h in ground arith

mask-good : (n : ℕ) → 1 ≤ n → notification_mask n ≡ ok (2 ^ (n - 1))
mask-good n h = let e : n ≡ suc (n - 1) = omega arith in rw e (ap (λ t. ok (2 ^ t)) (omega arith))

-- notification_send refuses each valid number, 1 to 64, and changes nothing.
pub notification_send-valid :
    (w : Weights) (sender target : Option Context) (n weight info : ℕ)
    → 1 ≤ n
    → n ≤ 64
    → notification_send w sender target n weight info ≡ ok (minus_one_int, target, not_sent)
unfolding notification_send
notification_send-valid w none target n weight info lo hi = refl
notification_send-valid w (some sender) none n weight info lo hi = refl
notification_send-valid w (some sender) (some target) n weight info lo hi =
    rw (valid-zero n (lo, hi)) refl

-- Any other number it accepts, and writes outside the queue.
pub notification_send-invalid :
    (w : Weights) (sender target : Context) (q : NotificationQueue) (n weight info : ℕ)
    → target.queue ≡ some q
    → length q.queue ≡ 64
    → n < 2 ^ 32
    → (n ≡ 0) ⊎ (64 < n)
    → notification_send w (some sender) (some target) n weight info ≡ fault
unfolding notification_send notification_push notification_check_perms
notification_send-invalid w sender target q n weight info there len word bad =
    simp (there, invalid-minus_one n word bad, slot-bad q n len bad)

back : (p : ℕ) → p < 2 ^ 32 → sign_extend p % 2 ^ 32 ≡ p
back p h = ground arith

pending_max :
    (p k j : ℕ)
    → p < 2 ^ 32
    → k < 32
    → bit k (set_pending p (2 ^ j)) ≡ max (bit k p) (bit k (2 ^ j))
pending_max p k j word h =
    bit-int k (bit_or (sign_extend p) (2 ^ j)) h
    ∙ bit-bit_or k (sign_extend p) (2 ^ j)
    ∙ ap (λ t. max t (bit k (2 ^ j))) (bit-sign_extend k p word h)

pending_bit :
    (p k j : ℕ)
    → p < 2 ^ 32
    → k < 32
    → bit k (set_pending p (2 ^ j)) ≡ (if k == j then 1 else bit k p)
pending_bit p k j word h = elim (ℕ_discrete k j) [
  | yes e ↦ ground (
    arith,
    pending_max p k j word h,
    ap (λ t. bit k (2 ^ t)) (sym e) ∙ bit-pow_self k,
    bit-le k p,
  )
  | no ne ↦ ground (arith, pending_max p k j word h, bit-pow_ne k j ne)
]

-- Pushing a notification of a number from 1 to 64 puts it at the head of its slot and leaves the
-- other slots. Of the 32 bits of `pending` it sets that of the number, so that a number above 32
-- does not become pending.
pub notification_push_lem :
    (q : NotificationQueue) (x : Notification) (l : List Notification)
    → 1 ≤ x.notnum
    → x.notnum ≤ 64
    → q.pending < 2 ^ 32
    → get_elem? q.queue (x.notnum - 1) ≡ some l
    → (q' : NotificationQueue) × (notification_push q x ≡ ok q')
      × (get_elem? q'.queue (x.notnum - 1) ≡ some (x ∷ l))
      × ((j : ℕ) → x.notnum - 1 ≢ j → get_elem? q'.queue j ≡ get_elem? q.queue j)
      × ((k : ℕ) → k < 32 → bit k q'.pending ≡ (if k == x.notnum - 1 then 1 else bit k q.pending))
      × (32 < x.notnum → q'.pending ≡ q.pending)
unfolding notification_push
notification_push_lem q x l lo hi word e = (
  record q {
    queue = set q.queue (x.notnum - 1) (x ∷ l);
    pending = set_pending q.pending (2 ^ (x.notnum - 1));
  },
  simp (slot-good q x.notnum l (lo, hi) e, mask-good x.notnum lo),
  get_elem?-set_self q.queue _ (x ∷ l) (get_elem?-lt q.queue _ e),
  (λ j ne. get_elem?-set_ne q.queue (x.notnum - 1) j (x ∷ l) ne),
  (λ k h. pending_bit q.pending k (x.notnum - 1) word h),
  (λ h. int-or_high (sign_extend q.pending) (x.notnum - 1) (omega arith) ∙ back q.pending word),
)
